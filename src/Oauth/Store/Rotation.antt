-- ===== src/Oauth/Store/Rotation.antt =====
-- oauth/store.py: `rotate_refresh_token`.
pub mod Keeps
pub mod Frame
pub mod Reuse
pub mod Lifecycle
pub mod Narrowing
use meme_mcp.Base.{ℕ, Option, none, some, List, [], ◌∷◌, Text, utc, Result, ok, ◌>>=◌}
use meme_mcp.Base.Table.{update_where}
use meme_mcp.Base.Table.Keyed.{at}
use meme_mcp.Oauth.Scopes.{split_scopes, narrow}
use meme_mcp.Oauth.Schema.{RefreshRow, OauthStore, Primitives, Draw}
use meme_mcp.Oauth.Store.Tokens.{
  RefreshState, active, grace, Grant, refresh_key, mint_access, mint_refresh, fetch_usable_refresh,
}

-- `[s for s in scopes if s in granted] if scopes else list(granted)`
unfoldable pub narrowed : List Text → List Text → List Text
narrowed [] granted = granted
narrowed (s ∷ scopes) granted = narrow (s ∷ scopes) granted

abbrev pub retire : Text → ℕ → RefreshRow → RefreshRow
retire successor now r = record r {
  rotated_at = some (utc now);
  superseded_by_hash = some successor;
}

-- Only the first rotation marks the token and links its successor.
unfoldable pub link_successor : RefreshState → Text → Text → ℕ → OauthStore → OauthStore
link_successor grace digest successor now s = s
link_successor active digest successor now s = record s {
  refresh_tokens = update_where (at refresh_key digest) (retire successor now) s.refresh_tokens;
}

abbrev pub regrant : RefreshRow → List Text → Grant
regrant r scopes = record {
  client_id = r.client_id;
  principal = r.principal;
  scopes = narrowed scopes (split_scopes r.scopes);
  resource = r.resource;
}

module _ (k : Primitives) where
  -- What follows a successful fetch: a fresh pair in the same family.
  unfoldable pub mint_successors :
      Text
      → List Text
      → ℕ
      → Draw
      → Draw
      → RefreshRow × RefreshState
      → OauthStore
      → Result (Option (Text × Text) × OauthStore)
  unfolding mint_access mint_refresh link_successor
  mint_successors token scopes now a r (row, state) s = do
    s1 ← mint_access k row.family_id (regrant row scopes) a s
    s2 ← mint_refresh k row.family_id (some (k.hash token)) (regrant row scopes) r s1
    ok (some (a.token, r.token), link_successor state (k.hash token) (k.hash r.token) now s2)

  -- `if fetched is None: return None`
  unfoldable pub rotate_fetched :
      Text
      → List Text
      → ℕ
      → Draw
      → Draw
      → Option (RefreshRow × RefreshState)
      → OauthStore
      → Result (Option (Text × Text) × OauthStore)
  unfolding mint_successors
  rotate_fetched token scopes now a r none s = ok (none, s)
  rotate_fetched token scopes now a r (some usable) s =
      mint_successors token scopes now a r usable s

  unfoldable pub rotate_refresh_token :
      Text
      → List Text
      → ℕ
      → ℕ
      → Draw
      → Draw
      → OauthStore
      → Result (Option (Text × Text) × OauthStore)
  unfolding fetch_usable_refresh rotate_fetched
  rotate_refresh_token token scopes now later a r s = do
    (fetched, s') ← fetch_usable_refresh k token now later s
    rotate_fetched token scopes now a r fetched s'
