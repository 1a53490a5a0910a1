-- ===== src/Oauth/Store/Rotation/Lifecycle.antt =====
-- oauth/store.py: from a first rotation to the reuse of the token that it replaced.
use meme_mcp.Base.{
  ℕ, ◌&&◌, contains, aware, ◌+◌, ◌<◌, ◌≡◌, refl, false, none, some, List, ◌∷◌, arith, Text, text_eq,
  text_eq_iff, text_eq_refl, ltb, if◌then◌else◌, expired, All, ok, inl, inr, Bool-cases,
}
use meme_mcp.Base.Table.Keyed.{find, find-cons, find-key, find-update_where, at}
use meme_mcp.Oauth.Scopes.{IsScope, split_scopes}
use meme_mcp.Oauth.Schema.{
  RefreshRow, OauthStore, Primitives, Draw, access_ttl, refresh_ttl, refresh_grace,
}
use meme_mcp.Oauth.Store.Tokens.{
  RefreshState, revoke_family, access_key, refresh_key, access_row, refresh_row, load_access_token,
  load_refresh_token, fetch_usable_refresh,
}
use meme_mcp.Oauth.Store.Tokens.Mint.{
  with_access, with_refresh, mint_access-eq_ok, mint_refresh-eq_ok,
}
use meme_mcp.Oauth.Store.Tokens.Loading.{
  minted_access, load_access_token-minted, load_refresh_token-minted,
}
use meme_mcp.Oauth.Store.Tokens.Families.{IsDead, revoke_family-IsDead}
use meme_mcp.Oauth.Store.Rotation.{
  regrant, retire, link_successor, mint_successors, rotate_fetched, rotate_refresh_token,
}
use meme_mcp.Oauth.Store.Rotation.Reuse.{IsRotated, fetch_late}
use meme_mcp.Oauth.Store.Rotation.Narrowing.{wanted, contains-narrowed, narrowed-IsScope}
use meme_mcp.Oauth.Store.Tokens.Revoked.{load_access_token-revoked, load_refresh_token-revoked}

module _ (k : Primitives) (token : Text) (now later : ℕ) (s : OauthStore) where
  -- A token that has never been rotated, and is neither revoked nor expired.
  pub record IsActive (r : RefreshRow) : Type 0 where
    pub stored : find refresh_key (k.hash token) s.refresh_tokens ≡ some r
    pub unrevoked : r.revoked_at ≡ none
    pub unexpired : expired r.expires_at now ≡ false
    pub unrotated : r.rotated_at ≡ none

  -- The hashes of the new pair are not in use.
  pub record IsNew (a d : Draw) : Type 0 where
    pub access : find access_key (k.hash a.token) s.access_tokens ≡ none
    pub refresh : find refresh_key (k.hash d.token) s.refresh_tokens ≡ none

  module _ (scopes : List Text) (a d : Draw) (r : RefreshRow) where
    abbrev pub rotated_store : OauthStore
    rotated_store = link_successor RefreshState.active (k.hash token) (k.hash d.token) now (
        with_refresh k r.family_id (regrant r scopes) d (some (k.hash token))
          (with_access k r.family_id (regrant r scopes) a s))

    abbrev pub retired : RefreshRow
    retired = retire (k.hash d.token) now r

    module _ (i : IsActive r) (n : IsNew a d) where
      fetch_active :
          fetch_usable_refresh k token now later s ≡ ok (some (r, RefreshState.active), s)
      unfolding fetch_usable_refresh
      fetch_active = rw (i.stored, fetch_usable_refresh, i.unrevoked, i.unexpired, i.unrotated) refl

      pub rotate-active :
          rotate_refresh_token k token scopes now later a d s
          ≡ ok (some (a.token, d.token), rotated_store)
      unfolding rotate_refresh_token rotate_fetched mint_successors
      rotate-active = rw fetch_active (
          rw
            (
              mint_access-eq_ok k r.family_id (regrant r scopes) a s n.access,
              mint_refresh-eq_ok k r.family_id (regrant r scopes) d (some (k.hash token))
                  (with_access k r.family_id (regrant r scopes) a s) n.refresh,
            )
            refl)

      other_hash : text_eq (k.hash d.token) (k.hash token) ≡ false
      other_hash = elim (Bool-cases (text_eq (k.hash d.token) (k.hash token))) [
        | inl e ↦
            let same : k.hash d.token ≡ k.hash token =
              (text_eq_iff (k.hash d.token) (k.hash token)).0 e in
            absurd (cc (same, i.stored, n.refresh))
        | inr e ↦ e
      ]

      find-retired : find refresh_key (k.hash token) rotated_store.refresh_tokens ≡ some retired
      unfolding link_successor
      find-retired =
          rw
            (
              find-update_where refresh_key (at refresh_key (k.hash token))
                  (retire (k.hash d.token) now) (λ x. refl) (k.hash token)
                  (refresh_row k r.family_id (some (k.hash token)) (regrant r scopes) d
                    ∷ s.refresh_tokens),
              find-cons refresh_key,
              other_hash,
              i.stored,
            )
            (ground (
              arith,
              find-key refresh_key (k.hash token) s.refresh_tokens i.stored,
              text_eq_iff r.token_hash (k.hash token),
            ))

      words : All IsScope (regrant r scopes).scopes
      words = narrowed-IsScope scopes r.scopes

      find-new_access :
          find access_key (k.hash a.token) rotated_store.access_tokens
          ≡ some (access_row k r.family_id (regrant r scopes) a)
      unfolding link_successor
      find-new_access = rw (find-cons access_key, text_eq_refl) refl

      find-new_refresh :
          find refresh_key (k.hash d.token) rotated_store.refresh_tokens
          ≡ some (refresh_row k r.family_id (some (k.hash token)) (regrant r scopes) d)
      unfolding link_successor
      find-new_refresh =
          rw
            (
              find-update_where refresh_key (at refresh_key (k.hash token))
                  (retire (k.hash d.token) now) (λ x. refl) (k.hash d.token)
                  (refresh_row k r.family_id (some (k.hash token)) (regrant r scopes) d
                    ∷ s.refresh_tokens),
              find-cons refresh_key,
              text_eq_refl,
              other_hash,
            )
            refl

      pub load_access_token-rotated :
          (t : ℕ)
          → load_access_token k t a.token rotated_store ≡ (
              if ltb t (a.now + access_ttl)
              then some (minted_access r.family_id (regrant r scopes) a)
              else none)
      load_access_token-rotated t =
          load_access_token-minted k r.family_id (regrant r scopes) a words t rotated_store
            find-new_access

      granted_scopes :
          (x : Text)
          → contains x (regrant r scopes).scopes
            ≡ (contains x (split_scopes r.scopes) && wanted scopes x)
      granted_scopes = contains-narrowed scopes (split_scopes r.scopes)

      -- Rotating an active refresh token gives a pair that works: the access token loads for 15
      -- minutes and the refresh token for 30 days, both in the family, for the client, the
      -- principal and the resource of the rotated token, and with those of its scopes that were
      -- requested, or all of them if none were.
      pub rotate-loads :
          (s' : OauthStore) × (rotate_refresh_token k token scopes now later a d s
            ≡ ok (some (a.token, d.token), s'))
          × ((granted : List Text) × ((x : Text)
                → contains x granted ≡ (contains x (split_scopes r.scopes) && wanted scopes x))
              × ((t : ℕ)
                  → load_access_token k t a.token s' ≡ (
                      if ltb t (a.now + access_ttl)
                      then some (record {
                        client_id = r.client_id;
                        principal = r.principal;
                        scopes = granted;
                        resource = r.resource;
                        expires_at = aware (a.now + access_ttl);
                        family_id = r.family_id;
                      })
                      else none))
              × ((t later' : ℕ)
                  → load_refresh_token k d.token t later' s'
                    ≡ ok (
                      if ltb t (d.now + refresh_ttl)
                          then some (record {
                            token = d.token;
                            client_id = r.client_id;
                            principal = r.principal;
                            scopes = granted;
                            resource = r.resource;
                            family_id = r.family_id;
                            expires_at = some (aware (d.now + refresh_ttl));
                            state = RefreshState.active;
                          })
                          else none,
                      s',
                    )))
      rotate-loads = (
        rotated_store,
        rotate-active,
        (
          (regrant r scopes).scopes,
          granted_scopes,
          load_access_token-rotated,
          λ t later'.
              load_refresh_token-minted k r.family_id (regrant r scopes) d words t rotated_store
                later' (some (k.hash token)) find-new_refresh,
        ),
      )

      -- The token that was rotated is single-use up to the grace: presented again more than 30
      -- seconds later, before it expires, it gives no tokens, and the whole family is revoked; the
      -- access token and the refresh token of the first rotation do not load any more.
      pub rotate-single_use :
          (scopes' : List Text) (now' later' : ℕ) (a' d' : Draw)
          → now + refresh_grace < now'
          → expired r.expires_at now' ≡ false
          → (s' s'' : OauthStore) × (rotate_refresh_token k token scopes now later a d s
              ≡ ok (some (a.token, d.token), s'))
            × (rotate_refresh_token k token scopes' now' later' a' d' s' ≡ ok (none, s''))
            × IsDead r.family_id s''
            × ((t : ℕ) → load_access_token k t a.token s'' ≡ none)
            × ((t clock : ℕ) → load_refresh_token k d.token t clock s'' ≡ ok (none, s''))
      unfolding rotate_refresh_token rotate_fetched
      rotate-single_use scopes' now' later' a' d' late alive =
          let again : IsRotated k token now' later' rotated_store retired now = record {
            stored = find-retired;
            unrevoked = i.unrevoked;
            unexpired = alive;
            rotated = refl;
          } in
          (
            rotated_store,
            revoke_family r.family_id later' rotated_store,
            rotate-active,
            rw (fetch_late k token now' later' rotated_store again late) refl,
            revoke_family-IsDead r.family_id later' rotated_store,
            λ t.
                load_access_token-revoked k a.token r.family_id later' t rotated_store
                  find-new_access refl refl,
            λ t clock.
                load_refresh_token-revoked k d.token r.family_id later' t clock rotated_store
                  find-new_refresh refl refl,
          )
