-- ===== src/Oauth/Provider.antt =====
-- oauth/provider.py: `MemeAuthProvider` over the two stores. Each call of a store commits on its own,
-- so a method gives the store beside its result, errors included. The times of expiry stand as they
-- are stored; the SDK is given them as numbers of seconds.
pub mod Exchange
pub mod Refresh
pub mod Register
pub mod Bearer
use meme_mcp.Base.{
  ℕ, ◌++◌, Bool, not, Option, none, some, List, [], ◌∷◌, codes, Text, DateTime, Result, ok, err,
  invalid_grant, ◌>>=◌, is_empty, if◌then◌else◌,
}
use meme_mcp.Oauth.Scopes.{join_scopes}
use meme_mcp.Oauth.Schema.{ClientInfo, OauthStore, Primitives, Draw}
use meme_mcp.Oauth.Store.Clients
use meme_mcp.Oauth.Store.Clients.{mark_client_used}
use meme_mcp.Oauth.Store.Tokens
use meme_mcp.Oauth.Redirect.{validate_all}
use meme_mcp.Oauth.Store.Pending.{PendingRequest, effective_scopes, create_pending_request}
use meme_mcp.Oauth.Store.Codes.{
  StoredAuthCode, CodeGrant, create_auth_code, load_auth_code, consume_auth_code,
}
use meme_mcp.Oauth.Store.Tokens.{
  StoredAccessToken, StoredRefreshToken, Grant, issue_initial_tokens, load_access_token,
}
use meme_mcp.Oauth.Store.Rotation.{rotate_refresh_token}
use meme_mcp.Oauth.Store.Revocation
use meme_mcp.Auth.Authorization.{PinLookup, is_authorized}
use meme_mcp.Auth.Pat.{Capability, PatStore, scopes_for_capability, verify_pat}
use meme_mcp.Oauth.Protocol.{
  AuthorizationParams, MemeAuthorizationCode, MemeAccessToken, MemeRefreshToken, meme_refresh,
  OauthToken, Services, announced, granted_scopes, parked_request, code_grant, token_grant,
}

module _ (v : Services) where
  -- `uris` are the texts of the client's redirect URIs.
  unfoldable pub register_client : ClientInfo → List Text → ℕ → ℕ → OauthStore → Result OauthStore
  register_client info uris nonce now s = do
    checked ← validate_all uris
    ok (Clients.register_client v.primitives info nonce now s)

  unfoldable pub get_client : Text → OauthStore → Option ClientInfo
  get_client client s = Clients.get_client v.primitives client s

  unfoldable pub authorize :
      Text → AuthorizationParams → Draw → OauthStore → Result (Text × OauthStore)
  authorize client params d s =
      elim (create_pending_request v.primitives (parked_request client params) d s) [
        | err e ↦ err e
        | ok (nonce, s') ↦ ok (codes "/oauth/consent/" ++ nonce, s')
      ]

  unfoldable pub create_authorization_code :
      Text → PendingRequest → Draw → OauthStore → Result (Text × OauthStore)
  create_authorization_code principal pending d s =
      create_auth_code v.primitives (code_grant principal pending) d s

  unfoldable pub load_authorization_code : ℕ → Text → OauthStore → Option MemeAuthorizationCode
  load_authorization_code now code s = elim (load_auth_code v.primitives now code s) [
    | none ↦ none
    | some stored ↦ some (record {
      code = code;
      scopes = stored.scopes;
      expires_at = stored.expires_at;
      client_id = stored.client_id;
      code_challenge = stored.code_challenge;
      redirect_uri = v.any_url stored.redirect_uri;
      redirect_uri_provided_explicitly = stored.redirect_uri_provided_explicitly;
      resource = stored.resource;
      principal = stored.principal;
    })
  ]

  -- After the code was consumed: the tokens are issued, and the client is marked as used.
  unfoldable pub issue_for_code :
      Text
      → MemeAuthorizationCode
      → Text
      → Draw
      → Draw
      → ℕ
      → OauthStore
      → Result OauthToken × OauthStore
  issue_for_code client code family a r used s =
      elim (issue_initial_tokens v.primitives (token_grant client code) family a r s) [
        | err e ↦ (err e, s)
        | ok ((access, refresh), s') ↦ (
          ok (record {
            access_token = access;
            refresh_token = refresh;
            scope = announced code.scopes;
          }),
          mark_client_used client used s',
        )
      ]

  unfoldable pub exchange_authorization_code :
      Text
      → MemeAuthorizationCode
      → ℕ
      → Text
      → Draw
      → Draw
      → ℕ
      → OauthStore
      → Result OauthToken × OauthStore
  unfolding issue_for_code
  exchange_authorization_code client code now family a r used s =
      let (consumed, s') = consume_auth_code v.primitives now code.code s in
      if not consumed
      then (err invalid_grant, s')
      else issue_for_code client code family a r used s'

  -- The state of the stored token is dropped.
  unfoldable pub load_refresh_token :
      Text → ℕ → ℕ → OauthStore → Result (Option MemeRefreshToken × OauthStore)
  load_refresh_token token now later s = do
    (loaded, s') ← Tokens.load_refresh_token v.primitives token now later s
    ok (elim loaded [ none ↦ none | some stored ↦ some (meme_refresh token stored) ], s')

  unfoldable pub exchange_refresh_token :
      Text
      → MemeRefreshToken
      → List Text
      → ℕ
      → ℕ
      → Draw
      → Draw
      → ℕ
      → OauthStore
      → Result OauthToken × OauthStore
  unfolding granted_scopes
  exchange_refresh_token client refresh_token scopes now later a r used s =
      elim (rotate_refresh_token v.primitives refresh_token.token scopes now later a r s) [
        | err e ↦ (err e, s)
        | ok (none, s') ↦ (err invalid_grant, s')
        | ok (some (access, refresh), s') ↦ (
          ok (record {
            access_token = access;
            refresh_token = refresh;
            scope = announced (granted_scopes scopes refresh_token.scopes);
          }),
          mark_client_used client used s',
        )
      ]

  abbrev pub authorized : Text → Bool
  authorized principal = is_authorized principal v.is_allowlisted v.pins

  abbrev pub oauth_bearer : Text → StoredAccessToken → MemeAccessToken
  oauth_bearer token stored = record {
    token = token;
    client_id = stored.client_id;
    scopes = stored.scopes;
    expires_at = some stored.expires_at;
    resource = stored.resource;
    principal = stored.principal;
  }

  abbrev pub pat_bearer : Text → Text → Capability → MemeAccessToken
  pat_bearer token principal capability = record {
    token = token;
    client_id = principal;
    scopes = scopes_for_capability capability;
    expires_at = none;
    resource = some v.resource_url;
    principal = principal;
  }

  -- What the fallback makes of `verify_pat`.
  unfoldable pub judge_pat : Text → Option (Text × Capability) → Option MemeAccessToken
  judge_pat token none = none
  judge_pat token (some (principal, capability)) =
      if authorized principal then some (pat_bearer token principal capability) else none

  -- `load_access_token`; `later` is the clock reading of `verify_pat`.
  unfoldable pub load_bearer :
      Text → ℕ → ℕ → OauthStore → PatStore → Option MemeAccessToken × PatStore
  unfolding judge_pat
  load_bearer token now later s pats = elim (load_access_token v.primitives now token s) [
    | some stored ↦
        (if authorized stored.principal then some (oauth_bearer token stored) else none, pats)
    | none ↦
        let (verdict, pats') = verify_pat v.pat_hash token later pats in
        (judge_pat token verdict, pats')
  ]

  unfoldable pub revoke_token : Text → ℕ → OauthStore → OauthStore
  revoke_token token now s = Revocation.revoke_token v.primitives token now s
