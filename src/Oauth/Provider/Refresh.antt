-- ===== src/Oauth/Provider/Refresh.antt =====
-- oauth/provider.py: `exchange_refresh_token`.
use meme_mcp.Base.{
  ℕ, ◌+◌, ltb, ◌≡◌, refl, true, none, some, List, [], ◌∷◌, Text, subset, ok, if◌then◌else◌,
}
use meme_mcp.Oauth.Scopes.{split_scopes, narrow-subset}
use meme_mcp.Oauth.Schema.{RefreshRow, OauthStore, Draw, access_ttl}
use meme_mcp.Oauth.Store.Clients.{mark_client_used}
use meme_mcp.Oauth.Store.Tokens.{load_access_token}
use meme_mcp.Oauth.Store.Tokens.Loading.{minted_access}
use meme_mcp.Oauth.Store.Rotation.{narrowed, regrant}
use meme_mcp.Oauth.Store.Rotation.Lifecycle.{
  IsActive, IsNew, rotate-active, rotated_store, load_access_token-rotated,
}
use meme_mcp.Oauth.Protocol.{Services, MemeRefreshToken, announced, granted_scopes}
use meme_mcp.Oauth.Provider.{exchange_refresh_token}

granted_scopes-narrowed :
    (scopes stored : List Text)
    → subset scopes stored ≡ true
    → granted_scopes scopes stored ≡ narrowed scopes stored
unfolding granted_scopes narrowed
granted_scopes-narrowed [] stored h = refl
granted_scopes-narrowed (s ∷ scopes) stored h = rw (narrow-subset (s ∷ scopes) stored h) refl

load_access_token-mark_client_used :
    (k : _) (t : ℕ) (token client : Text) (used : ℕ) (s : OauthStore)
    → load_access_token k t token (mark_client_used client used s) ≡ load_access_token k t token s
unfolding load_access_token mark_client_used
load_access_token-mark_client_used k t token client used s = refl

module _ (v : Services) (client : Text) (token : MemeRefreshToken) (scopes : List Text)
    (now later : ℕ) (a d : Draw) (used : ℕ) (s : OauthStore) where
  -- The answer to the refresh of an active token names the scopes that the new access token has, which
  -- loads for 15 minutes: the requested ones, or all of the token's where none are requested. The SDK
  -- has checked that the requested scopes are among the token's, and the new hashes are not in use.
  pub exchange_refresh_token-scope :
      (r : RefreshRow)
      → IsActive v.primitives token.token now later s r
      → IsNew v.primitives token.token now later s a d
      → token.scopes ≡ split_scopes r.scopes
      → subset scopes token.scopes ≡ true
      → (s' : OauthStore) × (exchange_refresh_token v client token scopes now later a d used s ≡ (
        ok (record {
          access_token = a.token;
          refresh_token = d.token;
          scope = announced (regrant r scopes).scopes;
        }),
        s',
      ))
        × ((t : ℕ)
            → load_access_token v.primitives t a.token s' ≡ (
                if ltb t (a.now + access_ttl)
                then some (minted_access r.family_id (regrant r scopes) a)
                else none))
  unfolding exchange_refresh_token
  exchange_refresh_token-scope r i n same among =
      let s1 = rotated_store v.primitives token.token now later s scopes a d r in
      let rotated = rotate-active v.primitives token.token now later s scopes a d r i n in
      let loads = load_access_token-rotated v.primitives token.token now later s scopes a d r i n in
      let named = granted_scopes-narrowed scopes token.scopes among in
      (
        mark_client_used client used s1,
        rw (rotated, exchange_refresh_token, named, same) refl,
        λ t.
            rw (load_access_token-mark_client_used v.primitives t a.token client used s1) (loads t),
      )
