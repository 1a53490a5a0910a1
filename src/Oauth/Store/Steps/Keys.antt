-- ===== src/Oauth/Store/Steps/Keys.antt =====
-- oauth/store.py: the hashes of tokens along the calls.
use meme_mcp.Base.{
  ℕ, ◌≤◌, ◌≡◌, refl, Option, none, some, List, arith, Text, Option-cases, inl, inr, Result, ok,
  >>=-eq-ok,
}
use meme_mcp.Base.Table.Keyed.{at, Distinct, Distinct-update_where, Distinct-delete_where}
use meme_mcp.Oauth.Schema.{RefreshRow, OauthStore, Primitives, Draw, empty_store}
use meme_mcp.Oauth.Store.Clients.{register_client, mark_client_used}
use meme_mcp.Oauth.Store.Approvals.{record_approval, delete_approvals_for_principal}
use meme_mcp.Oauth.Store.Pending.{create_pending_request-inv, consume_pending_request}
use meme_mcp.Oauth.Store.Codes.{create_auth_code-inv, consume_auth_code}
use meme_mcp.Oauth.Store.Tokens.{
  Grant, RefreshState, StoredRefreshToken, access_key, refresh_key, access_in, refresh_in,
  revoke_access, revoke_refresh, revoke_family, mint_access, mint_refresh, fetch_usable_refresh,
  load_refresh_token, load_access_token,
}
use meme_mcp.Oauth.Store.Tokens.Mint.{mint_access-inv, mint_refresh-inv, issue_initial_tokens-inv}
use meme_mcp.Oauth.Store.Tokens.Fetch.{
  Outcome, refused, reused, usable, fetch_usable_refresh-Outcome,
}
use meme_mcp.Oauth.Store.Rotation.{
  regrant, retire, link_successor, mint_successors, rotate_fetched, rotate_refresh_token,
}
use meme_mcp.Oauth.Store.Revocation.{
  family_for, revoke_token, access_of, refresh_of, revoke_families_for_principal,
}
use meme_mcp.Oauth.Store.Gc.{stale_access, stale_refresh, gc_expired_tokens, gc_unused_clients}
use meme_mcp.Oauth.Store.Gc.Invisible.{Alike, load_access_token-gc, load_refresh_token-gc}
use meme_mcp.Oauth.Store.Steps.{Step, Reach}

pub record IsKeyed (s : OauthStore) : Type 0 where
  pub access : Distinct access_key s.access_tokens
  pub refresh : Distinct refresh_key s.refresh_tokens

same_tokens :
    {s s' : OauthStore}
    → s'.access_tokens ≡ s.access_tokens
    → s'.refresh_tokens ≡ s.refresh_tokens
    → IsKeyed s
    → IsKeyed s'
same_tokens a r h = record { access = rw a h.access; refresh = rw r h.refresh }

revoke_family-IsKeyed :
    (family : Text) (now : ℕ) {s : OauthStore} → IsKeyed s → IsKeyed (revoke_family family now s)
unfolding revoke_family
revoke_family-IsKeyed family now {s} h = record {
  access =
      Distinct-update_where access_key (access_in family) (revoke_access now) (λ r. refl)
        s.access_tokens h.access;
  refresh =
      Distinct-update_where refresh_key (refresh_in family) (revoke_refresh now) (λ r. refl)
        s.refresh_tokens h.refresh;
}

module _ (k : Primitives) where
  mint_access-IsKeyed :
      (family : Text) (g : Grant) (d : Draw) {s s' : OauthStore}
      → mint_access k family g d s ≡ ok s'
      → IsKeyed s
      → IsKeyed s'
  mint_access-IsKeyed family g d m h =
      let (new, e) = mint_access-inv k family g d m in
      rw e (record { access = (new, h.access); refresh = h.refresh })

  mint_refresh-IsKeyed :
      (family : Text) (prev : Option Text) (g : Grant) (d : Draw) {s s' : OauthStore}
      → mint_refresh k family prev g d s ≡ ok s'
      → IsKeyed s
      → IsKeyed s'
  mint_refresh-IsKeyed family prev g d m h =
      let (new, e) = mint_refresh-inv k family g d prev m in
      rw e (record { access = h.access; refresh = (new, h.refresh) })

  fetch-IsKeyed :
      (token : Text) (now later : ℕ) {s s' : OauthStore}
      {fetched : Option (RefreshRow × RefreshState)}
      → Outcome k token now later s fetched s'
      → IsKeyed s
      → IsKeyed s'
  fetch-IsKeyed token now later (refused e same) h = rw same h
  fetch-IsKeyed token now later (reused r f a e next) h =
      rw next (revoke_family-IsKeyed r.family_id later h)
  fetch-IsKeyed token now later (usable r state f u x e same) h = rw same h

  same_end {ℓ} :
      {A : Type ℓ} {p q : A} {u v : OauthStore}
      → ◌≡◌ {A = Result (A × OauthStore)} (ok (p, u)) (ok (q, v))
      → v ≡ u
  same_end e = cc

  load_refresh_token-IsKeyed :
      (token : Text) (now later : ℕ) (s : OauthStore) {s' : OauthStore}
      {t : Option StoredRefreshToken}
      → load_refresh_token k token now later s ≡ ok (t, s')
      → IsKeyed s
      → IsKeyed s'
  unfolding load_refresh_token
  load_refresh_token-IsKeyed token now later s h keyed =
      let ((fetched, s1), f, rest) = >>=-eq-ok (fetch_usable_refresh k token now later s) _ h in
      rw (same_end rest)
        (fetch-IsKeyed token now later (fetch_usable_refresh-Outcome k token now later s f) keyed)

  link_successor-IsKeyed :
      (state : RefreshState) (digest successor : Text) (now : ℕ) {s : OauthStore}
      → IsKeyed s
      → IsKeyed (link_successor state digest successor now s)
  unfolding link_successor
  link_successor-IsKeyed RefreshState.grace digest successor now h = h
  link_successor-IsKeyed RefreshState.active digest successor now {s} h = record {
    access = h.access;
    refresh =
        Distinct-update_where refresh_key (at refresh_key digest) (retire successor now) (λ r. refl)
          s.refresh_tokens h.refresh;
  }

  mint_successors-IsKeyed :
      (token : Text) (scopes : List Text) (now : ℕ) (a d : Draw) (r : RefreshRow)
      (state : RefreshState) {s s' : OauthStore} {pair : Option (Text × Text)}
      → mint_successors k token scopes now a d (r, state) s ≡ ok (pair, s')
      → IsKeyed s
      → IsKeyed s'
  unfolding mint_successors
  mint_successors-IsKeyed token scopes now a d r state {s} h keyed =
      let (s1, m1, rest) = >>=-eq-ok (mint_access k r.family_id (regrant r scopes) a s) _ h in
      let (s2, m2, e) =
        >>=-eq-ok (mint_refresh k r.family_id (some (k.hash token)) (regrant r scopes) d s1) _
          rest in
      rw (same_end e) (
        link_successor-IsKeyed state (k.hash token) (k.hash d.token) now (
          mint_refresh-IsKeyed r.family_id (some (k.hash token)) (regrant r scopes) d m2
            (mint_access-IsKeyed r.family_id (regrant r scopes) a m1 keyed)))

  rotate_fetched-IsKeyed :
      (token : Text) (scopes : List Text) (now : ℕ) (a d : Draw)
      (fetched : Option (RefreshRow × RefreshState)) {s s' : OauthStore}
      {pair : Option (Text × Text)}
      → rotate_fetched k token scopes now a d fetched s ≡ ok (pair, s')
      → IsKeyed s
      → IsKeyed s'
  unfolding rotate_fetched
  rotate_fetched-IsKeyed token scopes now a d none h keyed = rw (same_end h) keyed
  rotate_fetched-IsKeyed token scopes now a d (some (r, state)) h keyed =
      mint_successors-IsKeyed token scopes now a d r state h keyed

  rotate_refresh_token-IsKeyed :
      (token : Text) (scopes : List Text) (now later : ℕ) (a d : Draw) (s : OauthStore)
      {s' : OauthStore} {pair : Option (Text × Text)}
      → rotate_refresh_token k token scopes now later a d s ≡ ok (pair, s')
      → IsKeyed s
      → IsKeyed s'
  unfolding rotate_refresh_token
  rotate_refresh_token-IsKeyed token scopes now later a d s h keyed =
      let ((fetched, s1), f, rest) = >>=-eq-ok (fetch_usable_refresh k token now later s) _ h in
      rotate_fetched-IsKeyed token scopes now a d fetched rest
        (fetch-IsKeyed token now later (fetch_usable_refresh-Outcome k token now later s f) keyed)

  revoke_token-IsKeyed :
      (token : Text) (now : ℕ) {s : OauthStore} → IsKeyed s → IsKeyed (revoke_token k token now s)
  unfolding revoke_token
  revoke_token-IsKeyed token now {s} h = elim (Option-cases (family_for (k.hash token) s)) [
    | inl miss ↦ rw (miss, revoke_token) h
    | inr (other, hit) ↦ rw (hit, revoke_token) (revoke_family-IsKeyed other now h)
  ]

  module _ {family : Text} {s s' : OauthStore} (h : IsKeyed s) where
    Step-IsKeyed : Step k family s s' → IsKeyed s'
    unfolding register_client mark_client_used record_approval delete_approvals_for_principal
        consume_pending_request consume_auth_code gc_unused_clients gc_expired_tokens
        revoke_families_for_principal
    Step-IsKeyed (Step.registers info nonce now e) =
        rw e (same_tokens (ground arith) (ground arith) h)
    Step-IsKeyed (Step.marks_used client now e) = rw e (same_tokens refl refl h)
    Step-IsKeyed (Step.approves principal client scopes now e) = rw e (same_tokens refl refl h)
    Step-IsKeyed (Step.forgets principal e) = rw e (same_tokens refl refl h)
    Step-IsKeyed (Step.parks p d nonce m) =
        rw (create_pending_request-inv k p d s m).2 (same_tokens refl refl h)
    Step-IsKeyed (Step.consumes_request now nonce e) = rw e (same_tokens refl refl h)
    Step-IsKeyed (Step.creates_code g d code m) =
        rw (create_auth_code-inv k g d s m).2 (same_tokens refl refl h)
    Step-IsKeyed (Step.consumes_code now code e) = rw e (same_tokens refl refl h)
    Step-IsKeyed (Step.issues g other a d pair ne m) =
        let (new_access, new_refresh, _, e) = issue_initial_tokens-inv k g other a d m in
        rw e (record { access = (new_access, h.access); refresh = (new_refresh, h.refresh) })
    Step-IsKeyed (Step.loads_refresh token now later t m) =
        load_refresh_token-IsKeyed token now later s m h
    Step-IsKeyed (Step.rotates token scopes now later a d pair m) =
        rotate_refresh_token-IsKeyed token scopes now later a d s m h
    Step-IsKeyed (Step.revokes token now e) = rw e (revoke_token-IsKeyed token now h)
    Step-IsKeyed (Step.revokes_principal principal now e) = rw e (record {
      access =
          Distinct-update_where access_key (access_of principal) (revoke_access now) (λ r. refl)
            s.access_tokens h.access;
      refresh =
          Distinct-update_where refresh_key (refresh_of principal) (revoke_refresh now) (λ r. refl)
            s.refresh_tokens h.refresh;
    })
    Step-IsKeyed (Step.collects_tokens now e) = rw e (record {
      access = Distinct-delete_where access_key (stale_access now) s.access_tokens h.access;
      refresh = Distinct-delete_where refresh_key (stale_refresh now) s.refresh_tokens h.refresh;
    })
    Step-IsKeyed (Step.collects_clients ttl now e) = rw e (same_tokens refl refl h)

module _ (k : Primitives) {family : Text} where
  pub Reach-IsKeyed : {s s' : OauthStore} → IsKeyed s → Reach k family s s' → IsKeyed s'
  Reach-IsKeyed h Reach.here = h
  Reach-IsKeyed h (Reach.next r step) = Step-IsKeyed k (Reach-IsKeyed h r) step

  -- In every store that calls make of an empty one, the collection of expired and revoked tokens
  -- changes nothing for those who present tokens then or later: each access token loads, and each
  -- refresh token is accepted, refused, or taken for reused with the same family revoked, as without it.
  pub collection_is_invisible :
      (s : OauthStore) (token : Text) (now later clock : ℕ)
      → Reach k family empty_store s
      → now ≤ later
      → (load_access_token k later token (gc_expired_tokens now s).1
          ≡ load_access_token k later token s)
        × Alike k token later clock (gc_expired_tokens now s).1 s
  collection_is_invisible s token now later clock reach h =
      let keyed = Reach-IsKeyed (record { access = tt; refresh = tt }) reach in
      (
        load_access_token-gc k token now later s h keyed.access,
        load_refresh_token-gc k token now later s h clock keyed.refresh,
      )
