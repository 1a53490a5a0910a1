-- ===== src/Oauth/Store/Rotation/Keeps.antt =====
-- oauth/store.py: `rotate_refresh_token` and families whose tokens are all revoked.
use meme_mcp.Base.{ℕ, ◌≡◌, ◌≢◌, Option, none, some, List, Text, Result, ok, >>=-eq-ok}
use meme_mcp.Base.Table.{All-update_where}
use meme_mcp.Base.Table.Keyed.{at}
use meme_mcp.Oauth.Schema.{RefreshRow, OauthStore, Primitives, Draw}
use meme_mcp.Oauth.Store.Tokens.{
  RefreshState, refresh_key, mint_access, mint_refresh, fetch_usable_refresh,
}
use meme_mcp.Oauth.Store.Tokens.Fetch.{Outcome, fetch_usable_refresh-Outcome}
use meme_mcp.Oauth.Store.Tokens.Families.{
  IsDead, RefreshDead, fetch_usable_refresh-keeps, fetched-family, mint_access-keeps,
  mint_refresh-keeps,
}
use meme_mcp.Oauth.Store.Rotation.{
  regrant, link_successor, mint_successors, rotate_fetched, rotate_refresh_token,
}

module _ (k : Primitives) {family : Text} where
  link_successor-keeps :
      (state : RefreshState) (digest successor : Text) (now : ℕ) {s : OauthStore}
      → IsDead family s
      → IsDead family (link_successor state digest successor now s)
  unfolding link_successor
  link_successor-keeps RefreshState.grace digest successor now dead = dead
  link_successor-keeps RefreshState.active digest successor now {s} dead = record {
    access = dead.access;
    refresh =
        All-update_where (RefreshDead family) (at refresh_key digest) _ s.refresh_tokens
          (λ r p h. h) dead.refresh;
  }

  mint_successors-keeps :
      (token : Text) (scopes : List Text) (now : ℕ) (a d : Draw) (r : RefreshRow)
      (state : RefreshState) {s s' : OauthStore} {pair : Option (Text × Text)}
      → r.family_id ≢ family
      → mint_successors k token scopes now a d (r, state) s ≡ ok (pair, s')
      → IsDead family s
      → IsDead family s'
  unfolding mint_successors
  mint_successors-keeps token scopes now a d r state {s} ne h dead =
      let (s1, m1, rest) = >>=-eq-ok (mint_access k r.family_id (regrant r scopes) a s) _ h in
      let (s2, m2, e) =
        >>=-eq-ok (mint_refresh k r.family_id (some (k.hash token)) (regrant r scopes) d s1) _
          rest in
      rw (last e) (
        link_successor-keeps state (k.hash token) (k.hash d.token) now (
          mint_refresh-keeps k r.family_id (regrant r scopes) d ne (some (k.hash token)) m2
            (mint_access-keeps k r.family_id (regrant r scopes) a ne m1 dead)))
    where
      last :
          {p q : Option (Text × Text)} {u v : OauthStore}
          → ◌≡◌ {A = Result (Option (Text × Text) × OauthStore)} (ok (p, u)) (ok (q, v))
          → v ≡ u
      last e = cc

  rotate_fetched-keeps :
      (token : Text) (scopes : List Text) (now later : ℕ) (a d : Draw)
      (fetched : Option (RefreshRow × RefreshState)) {s s1 s' : OauthStore}
      {pair : Option (Text × Text)}
      → Outcome k token now later s fetched s1
      → rotate_fetched k token scopes now a d fetched s1 ≡ ok (pair, s')
      → IsDead family s
      → IsDead family s1
      → IsDead family s'
  unfolding rotate_fetched
  rotate_fetched-keeps token scopes now later a d none {s1 = s1} {s' = s'} o h dead dead1 =
      let same : s' ≡ s1 = cc in rw same dead1
  rotate_fetched-keeps token scopes now later a d (some (r, state)) o h dead dead1 =
      mint_successors-keeps token scopes now a d r state (fetched-family k token o dead) h dead1

  -- Rotation, whatever it does, brings no dead family back.
  pub rotate_refresh_token-keeps :
      (token : Text) (scopes : List Text) (now later : ℕ) (a d : Draw) (s : OauthStore)
      {s' : OauthStore} {pair : Option (Text × Text)}
      → rotate_refresh_token k token scopes now later a d s ≡ ok (pair, s')
      → IsDead family s
      → IsDead family s'
  unfolding rotate_refresh_token
  rotate_refresh_token-keeps token scopes now later a d s h dead =
      let ((fetched, s1), f, rest) = >>=-eq-ok (fetch_usable_refresh k token now later s) _ h in
      rotate_fetched-keeps token scopes now later a d fetched
        (fetch_usable_refresh-Outcome k token now later s f) rest dead
        (fetch_usable_refresh-keeps k token now later s f dead)
