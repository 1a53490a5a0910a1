-- ===== src/Oauth/Store/Rotation/Frame.antt =====
-- oauth/store.py: the tables that issuing, loading and rotating tokens have no business with.
use meme_mcp.Base.{ℕ, ◌≡◌, refl, ◌∙◌, Option, none, some, List, Text, Result, ok, >>=-eq-ok}
use meme_mcp.Oauth.Schema.{RefreshRow, OauthStore, Primitives, Draw}
use meme_mcp.Oauth.Store.Tokens.{
  RefreshState, StoredRefreshToken, mint_access, mint_refresh, revoke_family, fetch_usable_refresh,
  load_refresh_token,
}
use meme_mcp.Oauth.Store.Tokens.Mint.{mint_access-inv, mint_refresh-inv}
use meme_mcp.Oauth.Store.Tokens.Fetch.{
  Outcome, refused, reused, usable, fetch_usable_refresh-Outcome,
}
use meme_mcp.Oauth.Store.Rotation.{
  regrant, link_successor, mint_successors, rotate_fetched, rotate_refresh_token,
}

pub record SameRequests (s s' : OauthStore) : Type 0 where
  pub codes : s'.auth_codes ≡ s.auth_codes
  pub pending : s'.pending_requests ≡ s.pending_requests

pub SameRequests-trans :
    {s u v : OauthStore} → SameRequests s u → SameRequests u v → SameRequests s v
SameRequests-trans p q = record { codes = q.codes ∙ p.codes; pending = q.pending ∙ p.pending }

same_end {ℓ} :
    {A : Type ℓ} {p q : A} {u v : OauthStore}
    → ◌≡◌ {A = Result (A × OauthStore)} (ok (p, u)) (ok (q, v))
    → v ≡ u
same_end e = cc

module _ (k : Primitives) where
  fetch-SameRequests :
      (token : Text) (now later : ℕ) {s s' : OauthStore}
      {fetched : Option (RefreshRow × RefreshState)}
      → Outcome k token now later s fetched s'
      → SameRequests s s'
  unfolding revoke_family
  fetch-SameRequests token now later (refused e same) =
      rw same (record { codes = refl; pending = refl })
  fetch-SameRequests token now later (reused r f a e next) =
      rw next (record { codes = refl; pending = refl })
  fetch-SameRequests token now later (usable r state f u x e same) =
      rw same (record { codes = refl; pending = refl })

  pub load_refresh_token-SameRequests :
      (token : Text) (now later : ℕ) (s : OauthStore) {s' : OauthStore}
      {loaded : Option StoredRefreshToken}
      → load_refresh_token k token now later s ≡ ok (loaded, s')
      → SameRequests s s'
  unfolding load_refresh_token
  load_refresh_token-SameRequests token now later s h =
      let ((fetched, s1), f, rest) = >>=-eq-ok (fetch_usable_refresh k token now later s) _ h in
      rw (same_end rest)
        (fetch-SameRequests token now later (fetch_usable_refresh-Outcome k token now later s f))

  link-SameRequests :
      (state : RefreshState) (digest successor : Text) (now : ℕ) (s : OauthStore)
      → SameRequests s (link_successor state digest successor now s)
  unfolding link_successor
  link-SameRequests RefreshState.grace digest successor now s = record {
    codes = refl;
    pending = refl;
  }
  link-SameRequests RefreshState.active digest successor now s = record {
    codes = refl;
    pending = refl;
  }

  mint_successors-SameRequests :
      (token : Text) (scopes : List Text) (now : ℕ) (a d : Draw) (r : RefreshRow)
      (state : RefreshState) {s s' : OauthStore} {pair : Option (Text × Text)}
      → mint_successors k token scopes now a d (r, state) s ≡ ok (pair, s')
      → SameRequests s s'
  unfolding mint_successors
  mint_successors-SameRequests token scopes now a d r state {s} h =
      let (s1, m1, rest) = >>=-eq-ok (mint_access k r.family_id (regrant r scopes) a s) _ h in
      let (s2, m2, e) =
        >>=-eq-ok (mint_refresh k r.family_id (some (k.hash token)) (regrant r scopes) d s1) _
          rest in
      rw (same_end e) (
        SameRequests-trans (two m1 m2)
          (link-SameRequests state (k.hash token) (k.hash d.token) now s2))
    where
      two :
          {u v : OauthStore}
          → mint_access k r.family_id (regrant r scopes) a s ≡ ok u
          → mint_refresh k r.family_id (some (k.hash token)) (regrant r scopes) d u ≡ ok v
          → SameRequests s v
      two m1 m2 =
          rw
            (
              (mint_refresh-inv k r.family_id (regrant r scopes) d (some (k.hash token)) m2).1,
              (mint_access-inv k r.family_id (regrant r scopes) a m1).1,
            )
            (record { codes = refl; pending = refl })

  rotate_fetched-SameRequests :
      (token : Text) (scopes : List Text) (now : ℕ) (a d : Draw)
      (fetched : Option (RefreshRow × RefreshState)) {s s' : OauthStore}
      {pair : Option (Text × Text)}
      → rotate_fetched k token scopes now a d fetched s ≡ ok (pair, s')
      → SameRequests s s'
  unfolding rotate_fetched
  rotate_fetched-SameRequests token scopes now a d none h =
      rw (same_end h) (record { codes = refl; pending = refl })
  rotate_fetched-SameRequests token scopes now a d (some (r, state)) h =
      mint_successors-SameRequests token scopes now a d r state h

  pub rotate_refresh_token-SameRequests :
      (token : Text) (scopes : List Text) (now later : ℕ) (a d : Draw) (s : OauthStore)
      {s' : OauthStore} {pair : Option (Text × Text)}
      → rotate_refresh_token k token scopes now later a d s ≡ ok (pair, s')
      → SameRequests s s'
  unfolding rotate_refresh_token
  rotate_refresh_token-SameRequests token scopes now later a d s h =
      let ((fetched, s1), f, rest) = >>=-eq-ok (fetch_usable_refresh k token now later s) _ h in
      SameRequests-trans
        (fetch-SameRequests token now later (fetch_usable_refresh-Outcome k token now later s f))
        (rotate_fetched-SameRequests token scopes now a d fetched rest)
