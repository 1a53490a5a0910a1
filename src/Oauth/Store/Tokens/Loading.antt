-- ===== src/Oauth/Store/Tokens/Loading.antt =====
-- oauth/store.py: loading a token that has just been minted.
use meme_mcp.Base.{
  ℕ, ◌+◌, ◌≡◌, Option, none, some, arith, ltb, Text, aware, expired, All, ok, if◌then◌else◌,
}
use meme_mcp.Base.Table.Keyed.{find}
use meme_mcp.Oauth.Scopes.{IsScope, split_scopes-join_scopes}
use meme_mcp.Oauth.Schema.{OauthStore, Primitives, Draw, access_ttl, refresh_ttl}
use meme_mcp.Oauth.Store.Tokens.{
  StoredAccessToken, StoredRefreshToken, RefreshState, Grant, access_key, refresh_key, access_row,
  refresh_row, load_access_token, load_refresh_token,
}

module _ (family : Text) (g : Grant) (d : Draw) where
  abbrev pub minted_access : StoredAccessToken
  minted_access = record {
    client_id = g.client_id;
    principal = g.principal;
    scopes = g.scopes;
    resource = g.resource;
    expires_at = aware (d.now + access_ttl);
    family_id = family;
  }

  abbrev pub minted_refresh : StoredRefreshToken
  minted_refresh = record {
    token = d.token;
    client_id = g.client_id;
    principal = g.principal;
    scopes = g.scopes;
    resource = g.resource;
    family_id = family;
    expires_at = some (aware (d.now + refresh_ttl));
    state = RefreshState.active;
  }

module _ (k : Primitives) (family : Text) (g : Grant) (d : Draw)
    (words : All IsScope g.scopes) where
  module _ (t : ℕ) (s : OauthStore) where
    -- A minted access token loads with what it was minted for, until its 15 minutes are over.
    pub load_access_token-minted :
        find access_key (k.hash d.token) s.access_tokens ≡ some (access_row k family g d)
        → load_access_token k t d.token s
          ≡ (if ltb t (d.now + access_ttl) then some (minted_access family g d) else none)
    unfolding load_access_token expired
    load_access_token-minted e =
        rw (e, load_access_token, split_scopes-join_scopes g.scopes words) (ground arith)

    pub load_refresh_token-minted :
        (later : ℕ) (prev : Option Text)
        → find refresh_key (k.hash d.token) s.refresh_tokens ≡ some (refresh_row k family prev g d)
        → load_refresh_token k d.token t later s
          ≡ ok (if ltb t (d.now + refresh_ttl) then some (minted_refresh family g d) else none, s)
    unfolding load_refresh_token expired
    load_refresh_token-minted later prev e =
        ground (arith, e, split_scopes-join_scopes g.scopes words)
