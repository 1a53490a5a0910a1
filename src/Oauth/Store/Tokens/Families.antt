-- ===== src/Oauth/Store/Tokens/Families.antt =====
-- oauth/store.py: `_revoke_family` and the calls that load tokens.
use meme_mcp.Base.{
  ℕ, ◌≡◌, refl, ◌≢◌, true, Option, none, some, arith, Text, text_eq_iff, is_some, All, Option-cases,
  inl, inr, Result, ok, >>=-eq-ok,
}
use meme_mcp.Base.Table.{All-update_where, All-update_where_all}
use meme_mcp.Base.Table.Keyed.{find, find-All, find-update_where}
use meme_mcp.Oauth.Store.Tokens.Mint.{mint_access-inv, mint_refresh-inv}
use meme_mcp.Oauth.Store.Tokens.Fetch.{
  Outcome, refused, reused, usable, fetch_usable_refresh-Outcome,
}
use meme_mcp.Oauth.Schema.{AccessRow, RefreshRow, OauthStore, Primitives, Draw}
use meme_mcp.Oauth.Store.Tokens.{
  StoredAccessToken, StoredRefreshToken, stored_refresh, load_refresh_token, Grant, RefreshState,
  access_key, refresh_key, access_in, refresh_in, revoke_access, revoke_refresh, revoke_family,
  mint_access, mint_refresh, load_access_token, fetch_usable_refresh,
}

abbrev pub AccessDead : Text → AccessRow → Type 0
AccessDead family r = r.family_id ≡ family → is_some r.revoked_at ≡ true

abbrev pub RefreshDead : Text → RefreshRow → Type 0
RefreshDead family r = r.family_id ≡ family → is_some r.revoked_at ≡ true

pub record IsDead (family : Text) (s : OauthStore) : Type 0 where
  pub access : All (AccessDead family) s.access_tokens
  pub refresh : All (RefreshDead family) s.refresh_tokens

pub revoke_family-IsDead :
    (family : Text) (now : ℕ) (s : OauthStore) → IsDead family (revoke_family family now s)
unfolding revoke_family
revoke_family-IsDead family now s = record {
  access =
      All-update_where_all (AccessDead family) (access_in family) (revoke_access now)
        s.access_tokens (λ r p e. refl) (λ r p e. ground (arith, text_eq_iff r.family_id family));
  refresh =
      All-update_where_all (RefreshDead family) (refresh_in family) (revoke_refresh now)
        s.refresh_tokens (λ r p e. refl) (λ r p e. ground (arith, text_eq_iff r.family_id family));
}

module _ {family : Text} where
  -- Revoking another family keeps a family dead.
  pub revoke_family-keeps :
      (other : Text) (now : ℕ) {s : OauthStore}
      → IsDead family s
      → IsDead family (revoke_family other now s)
  unfolding revoke_family
  revoke_family-keeps other now {s} d = record {
    access =
        All-update_where (AccessDead family) (access_in other) (revoke_access now) s.access_tokens
          (λ r p h e. refl) d.access;
    refresh =
        All-update_where (RefreshDead family) (refresh_in other) (revoke_refresh now)
          s.refresh_tokens (λ r p h e. refl) d.refresh;
  }

  module _ (k : Primitives) (other : Text) (g : Grant) (d : Draw) (ne : other ≢ family) where
    pub mint_access-keeps :
        {s s' : OauthStore} → mint_access k other g d s ≡ ok s' → IsDead family s → IsDead family s'
    mint_access-keeps {s} m dead =
        rw (mint_access-inv k other g d m).1
          (record { access = (λ e. absurd (ne e), dead.access); refresh = dead.refresh })

    pub mint_refresh-keeps :
        (prev : Option Text) {s s' : OauthStore}
        → mint_refresh k other prev g d s ≡ ok s'
        → IsDead family s
        → IsDead family s'
    mint_refresh-keeps prev {s} m dead =
        rw (mint_refresh-inv k other g d prev m).1
          (record { access = dead.access; refresh = (λ e. absurd (ne e), dead.refresh) })

  pub fetch_usable_refresh-keeps :
      (k : Primitives) (token : Text) (now later : ℕ) (s : OauthStore)
      {fetched : Option (RefreshRow × RefreshState)} {s' : OauthStore}
      → fetch_usable_refresh k token now later s ≡ ok (fetched, s')
      → IsDead family s
      → IsDead family s'
  fetch_usable_refresh-keeps k token now later s h dead =
      outcome (fetch_usable_refresh-Outcome k token now later s h)
    where
      outcome :
          {fetched : Option (RefreshRow × RefreshState)} {s' : OauthStore}
          → Outcome k token now later s fetched s'
          → IsDead family s'
      outcome (refused e same) = rw same dead
      outcome (reused r f a e next) = rw next (revoke_family-keeps r.family_id later dead)
      outcome (usable r state f u x e same) = rw same dead

  -- A row that a fetch hands out is of another family.
  pub fetched-family :
      (k : Primitives) (token : Text) {now later : ℕ} {s s' : OauthStore} {r : RefreshRow}
      {state : RefreshState}
      → Outcome k token now later s (some (r, state)) s'
      → IsDead family s
      → r.family_id ≢ family
  fetched-family k token (refused e same) dead = absurd (cc)
  fetched-family k token (reused r f a e next) dead = absurd (cc)
  fetched-family k token {s = s} {r = r} (usable r' state f u x e same) dead =
      let h : r' ≡ r = cc in
      rw (← h) (λ q.
        let dead_row : is_some r'.revoked_at ≡ true =
          (find-All refresh_key (RefreshDead family) (k.hash token) s.refresh_tokens f dead.refresh
            q) in
        cc (dead_row, u))

  -- No access token of a dead family loads, at any time.
  pub load_access_token-family :
      (k : Primitives) (now : ℕ) (token : Text) (s : OauthStore) {t : StoredAccessToken}
      → load_access_token k now token s ≡ some t
      → IsDead family s
      → t.family_id ≢ family
  unfolding load_access_token
  load_access_token-family k now token s {t} h dead q =
      elim (Option-cases (find access_key (k.hash token) s.access_tokens)) [
        | inl miss ↦ absurd (ground arith)
        | inr (r, f) ↦ absurd (
            ground (
              arith,
              find-All access_key (AccessDead family) (k.hash token) s.access_tokens f dead.access,
            ))
      ]

module _ {family : Text} (k : Primitives) where
  loaded-family :
      (token : Text) (now later : ℕ) {s s1 s' : OauthStore}
      (fetched : Option (RefreshRow × RefreshState)) {t : StoredRefreshToken}
      → Outcome k token now later s fetched s1
      → IsDead family s
      → ◌≡◌ {A = Result (Option StoredRefreshToken × OauthStore)}
          (ok (
            elim fetched [ none ↦ none | some (r, state) ↦ some (stored_refresh k token r state) ],
            s1,
          ))
          (ok (some t, s'))
      → t.family_id ≢ family
  loaded-family token now later none o dead e = absurd (cc)
  loaded-family token now later (some (r, state)) {t} o dead e =
      let same : stored_refresh k token r state ≡ t = cc in
      rw (← same) (fetched-family k token o dead)

  -- No refresh token of a dead family loads, at any time.
  pub load_refresh_token-family :
      (token : Text) (now later : ℕ) (s : OauthStore) {s' : OauthStore} {t : StoredRefreshToken}
      → load_refresh_token k token now later s ≡ ok (some t, s')
      → IsDead family s
      → t.family_id ≢ family
  unfolding load_refresh_token
  load_refresh_token-family token now later s h dead =
      let ((fetched, s1), f, rest) = >>=-eq-ok (fetch_usable_refresh k token now later s) _ h in
      loaded-family token now later fetched (fetch_usable_refresh-Outcome k token now later s f)
        dead rest

module _ (family : Text) (now : ℕ) (s : OauthStore) where
  pub find_access-revoke_family :
      (h : Text) (x : AccessRow)
      → find access_key h s.access_tokens ≡ some x
      → x.family_id ≢ family
      → find access_key h (revoke_family family now s).access_tokens ≡ some x
  unfolding revoke_family
  find_access-revoke_family h x f ne =
      rw
        (
          find-update_where access_key (access_in family) (revoke_access now) (λ r. refl) h
              s.access_tokens,
          f,
        )
        (ground (arith, text_eq_iff x.family_id family))

  pub find_refresh-revoke_family :
      (h : Text) (x : RefreshRow)
      → find refresh_key h s.refresh_tokens ≡ some x
      → x.family_id ≢ family
      → find refresh_key h (revoke_family family now s).refresh_tokens ≡ some x
  unfolding revoke_family
  find_refresh-revoke_family h x f ne =
      rw
        (
          find-update_where refresh_key (refresh_in family) (revoke_refresh now) (λ r. refl) h
              s.refresh_tokens,
          f,
        )
        (ground (arith, text_eq_iff x.family_id family))
