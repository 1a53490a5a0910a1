-- ===== src/Oauth/Protocol.antt =====
-- oauth/provider.py: the data that the provider gives to the SDK and takes from it, and what it is built
-- with.
use meme_mcp.Base.{Bool, Option, none, some, List, [], ◌∷◌, Text, DateTime, is_empty, if◌then◌else◌}
use meme_mcp.Oauth.Scopes.{join_scopes}
use meme_mcp.Oauth.Schema.{Primitives}
use meme_mcp.Oauth.Store.Pending.{PendingRequest, effective_scopes}
use meme_mcp.Oauth.Store.Codes.{CodeGrant}
use meme_mcp.Oauth.Store.Tokens.{StoredRefreshToken, Grant}
use meme_mcp.Auth.Authorization.{PinLookup}

-- The SDK's `AuthorizationParams`.
pub record AuthorizationParams : Type 0 where
  pub state : Option Text
  pub scopes : Option (List Text)
  pub code_challenge : Text
  pub redirect_uri : Text
  pub redirect_uri_provided_explicitly : Bool
  pub resource : Option Text

pub record MemeAuthorizationCode : Type 0 where
  pub code : Text
  pub scopes : List Text
  pub expires_at : DateTime
  pub client_id : Text
  pub code_challenge : Text
  pub redirect_uri : Text
  pub redirect_uri_provided_explicitly : Bool
  pub resource : Option Text
  pub principal : Text

pub record MemeAccessToken : Type 0 where
  pub token : Text
  pub client_id : Text
  pub scopes : List Text
  pub expires_at : Option DateTime
  pub resource : Option Text
  pub principal : Text

pub record MemeRefreshToken : Type 0 where
  pub token : Text
  pub client_id : Text
  pub scopes : List Text
  pub expires_at : Option DateTime
  pub principal : Text
  pub resource : Option Text
  pub family_id : Text

abbrev pub meme_refresh : Text → StoredRefreshToken → MemeRefreshToken
meme_refresh token stored = record {
  token = token;
  client_id = stored.client_id;
  scopes = stored.scopes;
  expires_at = stored.expires_at;
  principal = stored.principal;
  resource = stored.resource;
  family_id = stored.family_id;
}

-- The SDK's `OAuthToken`, less `expires_in`, which is always `ACCESS_TTL_SECONDS`.
pub record OauthToken : Type 0 where
  pub access_token : Text
  pub refresh_token : Text
  pub scope : Option Text

-- What the provider is built with, beside its two stores: the primitives of the token store, the hash
-- of personal tokens, the allowlist, the pins and the resource. `any_url` is pydantic's URL type.
pub record Services : Type 0 where
  pub primitives : Primitives
  pub pat_hash : Text → Text
  pub is_allowlisted : Text → Bool
  pub pins : PinLookup
  pub resource_url : Text
  pub any_url : Text → Text

-- `" ".join(scopes) or None`
abbrev pub announced : List Text → Option Text
announced scopes = let scope = join_scopes scopes in if is_empty scope then none else some scope

-- `scopes or list(refresh_token.scopes)`
unfoldable pub granted_scopes : List Text → List Text → List Text
granted_scopes [] stored = stored
granted_scopes (s ∷ scopes) stored = s ∷ scopes

abbrev pub parked_request : Text → AuthorizationParams → PendingRequest
parked_request client params = record {
  client_id = client;
  redirect_uri = params.redirect_uri;
  redirect_uri_provided_explicitly = params.redirect_uri_provided_explicitly;
  code_challenge = params.code_challenge;
  scopes = elim params.scopes [ none ↦ [] | some scopes ↦ scopes ];
  resource = params.resource;
  state = params.state;
}

abbrev pub code_grant : Text → PendingRequest → CodeGrant
code_grant principal pending = record {
  client_id = pending.client_id;
  redirect_uri = pending.redirect_uri;
  redirect_uri_provided_explicitly = pending.redirect_uri_provided_explicitly;
  code_challenge = pending.code_challenge;
  scopes = effective_scopes pending;
  principal = principal;
  resource = pending.resource;
}

abbrev pub token_grant : Text → MemeAuthorizationCode → Grant
token_grant client code = record {
  client_id = client;
  principal = code.principal;
  scopes = code.scopes;
  resource = code.resource;
}
