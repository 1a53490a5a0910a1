-- ===== src/Examples/Service.antt =====
-- The provider and the consent routes at concrete inputs.
use meme_mcp.Base.{
  List, All, ◌↔◌, sorted_set, ℕ, ◌≡◌, refl, Bool, true, Option, none, some, [], ◌∷◌, Text, text_eq,
  codes, ok, err, invalid_grant, expired, aware, is_empty, is_space, subset,
}
use meme_mcp.Base.Table.{count_where}
use meme_mcp.Base.Table.Keyed.{find, insert}
use meme_mcp.Oauth.Scopes.{split_scopes, join_scopes}
use meme_mcp.Oauth.Schema.{OauthStore, empty_store}
use meme_mcp.Oauth.Store.Clients.{mark_client_used}
use meme_mcp.Oauth.Store.Approvals.{record_approval, has_approval}
use meme_mcp.Oauth.Store.Pending.{
  PendingRequest, pending_row, effective_scopes, load_pending_request, consume_pending_request,
}
use meme_mcp.Oauth.Store.Codes.{code_row, consume_auth_code, create_auth_code}
use meme_mcp.Oauth.Store.Tokens.{issue_initial_tokens, load_access_token}
use meme_mcp.Oauth.Store.Steps.{Reach}
use meme_mcp.Auth.Authorization.{normalize_principal, is_authorized}
use meme_mcp.Auth.Pat.{PatStore}
use meme_mcp.Oauth.Schema.{ClientInfo}
use meme_mcp.Oauth.Store.Clients
use meme_mcp.Oauth.Protocol.{
  Services, MemeAuthorizationCode, MemeAccessToken, OauthToken, code_grant,
}
use meme_mcp.Oauth.Provider.{
  register_client, exchange_authorization_code, load_authorization_code, load_bearer, authorized,
  create_authorization_code,
}
use meme_mcp.Oauth.Provider.Exchange.{exchange_authorization_code-once}
use meme_mcp.Oauth.Provider.Bearer.{Source, load_bearer-authorized}
use meme_mcp.Oauth.Provider.Register.{Exact, register_client-Exact}
use meme_mcp.Oauth.Consent.{to_client, session_principal, oauth_consent_get, oauth_consent_post}
use meme_mcp.Oauth.Consent.Issuance.{Issued}
use meme_mcp.Oauth.Consent.Issuance.Routes.{
  Closed, oauth_consent_get-to_client, oauth_consent_post-to_client, consent_is_final,
}
use meme_mcp.Examples.Fixtures.{plain, draw, family}

abbrev ada : Text
ada = codes "github:ada"

abbrev services : Services
services = record {
  primitives = plain;
  pat_hash = λ t. t;
  is_allowlisted = λ login. text_eq login (codes "ada");
  pins = none;
  resource_url = 85 ∷ [];
  any_url = λ t. t;
}

abbrev pending : PendingRequest
pending = record {
  client_id = 67 ∷ [];
  redirect_uri = 85 ∷ [];
  redirect_uri_provided_explicitly = true;
  code_challenge = 90 ∷ [];
  scopes = (114 ∷ []) ∷ [];
  resource = none;
  state = some (83 ∷ []);
}

abbrev waiting : OauthStore
waiting = record empty_store { pending_requests = pending_row plain pending (draw (7 ∷ []) 0) ∷ [] }

abbrev approved_before : OauthStore
approved_before = record_approval ada (67 ∷ []) ((114 ∷ []) ∷ []) 1 waiting

abbrev after_get : OauthStore
after_get =
    (oauth_consent_get services (some (codes "ada")) (7 ∷ []) 2 3 (draw (6 ∷ []) 4)
      approved_before).1

gets :
    oauth_consent_get services (some (codes "ada")) (7 ∷ []) 2 3 (draw (6 ∷ []) 4) approved_before
    ≡ (ok (to_client (85 ∷ []) (6 ∷ []) (some (83 ∷ []))), after_get)
unfolding oauth_consent_get normalize_principal is_space load_pending_request find record_approval
    text_eq expired has_approval subset effective_scopes split_scopes join_scopes sorted_set
    is_authorized consume_pending_request count_where create_authorization_code create_auth_code
    insert
gets = refl

oauth_consent_get-to_client_example :
    (principal : Text) × (p : PendingRequest) × (session_principal (some (codes "ada"))
      ≡ some principal)
    × (load_pending_request plain 2 (7 ∷ []) approved_before ≡ some p)
    × (has_approval principal p.client_id (effective_scopes p) approved_before ≡ true)
    × Issued services principal p (7 ∷ []) (draw (6 ∷ []) 4) (6 ∷ []) after_get
oauth_consent_get-to_client_example =
    oauth_consent_get-to_client services (some (codes "ada")) (7 ∷ []) 2 3 (draw (6 ∷ []) 4)
      approved_before after_get (85 ∷ []) (6 ∷ []) (some (83 ∷ [])) gets

abbrev after_post : OauthStore
after_post =
    (oauth_consent_post services (some (codes "ada")) true true (7 ∷ []) 2 3 4 (draw (6 ∷ []) 4)
      waiting).1

posts :
    oauth_consent_post services
      (some (codes "ada"))
      true
      true
      (7 ∷ [])
      2
      3
      4
      (draw (6 ∷ []) 4)
      waiting
    ≡ (ok (to_client (85 ∷ []) (6 ∷ []) (some (83 ∷ []))), after_post)
unfolding oauth_consent_post normalize_principal is_space load_pending_request find text_eq expired
    is_authorized consume_pending_request count_where record_approval create_authorization_code
    create_auth_code insert
posts = refl

oauth_consent_post-to_client_example :
    (true ≡ true)
    × (true ≡ true)
    × (principal : Text) × (p : PendingRequest) × (session_principal (some (codes "ada"))
        ≡ some principal)
    × (load_pending_request plain 2 (7 ∷ []) waiting ≡ some p)
    × Issued services principal p (7 ∷ []) (draw (6 ∷ []) 4) (6 ∷ []) after_post
oauth_consent_post-to_client_example =
    oauth_consent_post-to_client services (some (codes "ada")) (7 ∷ []) 2 3 (draw (6 ∷ []) 4)
      waiting after_post (85 ∷ []) (6 ∷ []) (some (83 ∷ [])) true true 4 posts

used_up : (consume_pending_request plain 3 (7 ∷ []) waiting).0 ≡ true
unfolding consume_pending_request count_where text_eq
used_up = refl

consent_is_final_example :
    ((session : Option Text) (start now : ℕ) (d : _)
      → Closed (consume_pending_request plain 3 (7 ∷ []) waiting).1 (
          oauth_consent_get services session
            (7 ∷ [])
            start
            now
            d
            (consume_pending_request plain 3 (7 ∷ []) waiting).1))
    × ((session : Option Text) (csrf approve : Bool) (start now later : ℕ) (d : _)
        → Closed (consume_pending_request plain 3 (7 ∷ []) waiting).1 (
            oauth_consent_post services session csrf approve
              (7 ∷ [])
              start
              now
              later
              d
              (consume_pending_request plain 3 (7 ∷ []) waiting).1))
consent_is_final_example =
    consent_is_final services (7 ∷ []) waiting 3 family
      (consume_pending_request plain 3 (7 ∷ []) waiting).1 used_up Reach.here

abbrev code : MemeAuthorizationCode
code = record {
  code = 6 ∷ [];
  scopes = (114 ∷ []) ∷ [];
  expires_at = aware 300000004;
  client_id = 67 ∷ [];
  code_challenge = 90 ∷ [];
  redirect_uri = 85 ∷ [];
  redirect_uri_provided_explicitly = true;
  resource = none;
  principal = ada;
}

abbrev coded : OauthStore
coded = record empty_store {
  auth_codes = code_row plain (code_grant ada pending) (draw (6 ∷ []) 4) ∷ [];
}

abbrev tokens : OauthToken
tokens = record { access_token = 1 ∷ []; refresh_token = 2 ∷ []; scope = some (114 ∷ []) }

abbrev exchanged_store : OauthStore
exchanged_store =
    (exchange_authorization_code services (67 ∷ []) code 5 family (draw (1 ∷ []) 6)
      (draw (2 ∷ []) 7) 8 coded).1

exchanges :
    exchange_authorization_code services
      (67 ∷ [])
      code
      5
      family
      (draw (1 ∷ []) 6)
      (draw (2 ∷ []) 7)
      8
      coded
    ≡ (ok tokens, exchanged_store)
unfolding exchange_authorization_code consume_auth_code count_where text_eq issue_initial_tokens
    insert is_empty join_scopes
exchanges = refl

exchange_authorization_code-once_example :
    ((client family' : Text) (a r : _) (used : ℕ)
      → (exchange_authorization_code services client code 9 family' a r used exchanged_store).0
        ≡ err invalid_grant)
    × (load_authorization_code services 9 (6 ∷ []) exchanged_store ≡ none)
exchange_authorization_code-once_example =
    exchange_authorization_code-once services (67 ∷ []) code 5 family (draw (1 ∷ []) 6)
      (draw (2 ∷ []) 7) 8 coded exchanged_store exchanged_store tokens [] exchanges Reach.here 9

abbrev no_pats : PatStore
no_pats = record { pats = []; next_id = 1 }

abbrev bearer : MemeAccessToken
bearer = record {
  token = 1 ∷ [];
  client_id = 67 ∷ [];
  scopes = (114 ∷ []) ∷ [];
  expires_at = some (aware 900000006);
  resource = none;
  principal = ada;
}

lets_in : (load_bearer services (1 ∷ []) 10 11 exchanged_store no_pats).0 ≡ some bearer
unfolding load_bearer load_access_token find exchange_authorization_code consume_auth_code
    count_where text_eq issue_initial_tokens insert mark_client_used expired is_authorized
    split_scopes join_scopes
lets_in = refl

load_bearer-authorized_example :
    (authorized services ada ≡ true) × Source services (1 ∷ []) 10 11 exchanged_store no_pats bearer
load_bearer-authorized_example =
    load_bearer-authorized services (1 ∷ []) 10 11 exchanged_store no_pats bearer lets_in

abbrev client : ClientInfo
client = record {
  client_id = 67 ∷ [];
  client_secret = none;
  client_secret_expires_at = none;
  metadata = 8 ∷ [];
}

abbrev callbacks : List Text
callbacks = codes "https://a.b/c" ∷ codes "http://[::1]:80/c" ∷ []

register_client-Exact_example :
    (register_client services client callbacks 3 4 empty_store
      ≡ ok (Clients.register_client plain client 3 4 empty_store))
    ↔ (All Exact callbacks
        × (Clients.register_client plain client 3 4 empty_store
            ≡ Clients.register_client plain client 3 4 empty_store))
register_client-Exact_example =
    register_client-Exact services client 3 4 empty_store
      (Clients.register_client plain client 3 4 empty_store) callbacks
