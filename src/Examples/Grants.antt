-- ===== src/Examples/Grants.antt =====
-- Clients, approvals, consent requests, codes and scopes in small stores.
use meme_mcp.Base.{
  ℕ, ◌≡◌, refl, true, false, none, some, List, [], ◌∷◌, arith, Text, text_eq, codes, ok,
  if◌then◌else◌, ltb, All,
}
use meme_mcp.Base.Table.{count_where}
use meme_mcp.Base.Table.Keyed.{find, insert}
use meme_mcp.Oauth.Scopes.{IsScope}
use meme_mcp.Oauth.Schema.{OauthStore, empty_store, ClientInfo}
use meme_mcp.Oauth.Store.Clients
use meme_mcp.Oauth.Store.Clients.{register_client, get_client}
use meme_mcp.Oauth.Store.Clients.Registration.{secret_of, last_use, get_client-register_client}
use meme_mcp.Oauth.Store.Pending.{PendingRequest, pending_row, create_pending_request}
use meme_mcp.Oauth.Store.Codes.{
  CodeGrant, code_row, create_auth_code, load_auth_code, consume_auth_code,
}
use meme_mcp.Oauth.Store.Codes.Lifetime.{granted_code, load_auth_code-create_auth_code}
use meme_mcp.Oauth.Store.Tokens.{load_access_token, issue_initial_tokens, mint_access, mint_refresh}
use meme_mcp.Oauth.Store.Gc.{gc_expired_tokens}
use meme_mcp.Oauth.Store.Gc.Invisible.{Alike}
use meme_mcp.Oauth.Store.Steps.{Step, Reach}
use meme_mcp.Oauth.Store.Steps.Keys.{collection_is_invisible}
use meme_mcp.Oauth.Store.Steps.SingleUse.{code_single_use}
use meme_mcp.Examples.Fixtures.{plain, plain-RoundTrips, draw, family, grant, opened}

abbrev one_scope : List Text
one_scope = codes "meme:read" ∷ []

one_scope-IsScope : All IsScope one_scope
one_scope-IsScope = (record { non_empty = λ e. absurd (ground arith); no_space = ground arith }, tt)

abbrev client : ClientInfo
client = record {
  client_id = 67 ∷ [];
  client_secret = some (9 ∷ []);
  client_secret_expires_at = none;
  metadata = 8 ∷ [];
}

get_client-register_client_example :
    (get_client plain (67 ∷ []) (register_client plain client 3 4 empty_store)
      ≡ some (record client { client_secret = secret_of client }))
    × (last_use (find Clients.key (67 ∷ []) (register_client plain client 3 4 empty_store).clients)
        ≡ last_use (find Clients.key (67 ∷ []) empty_store.clients))
get_client-register_client_example =
    get_client-register_client plain plain-RoundTrips client 3 4 empty_store

abbrev parked : PendingRequest
parked = record {
  client_id = 67 ∷ [];
  redirect_uri = 85 ∷ [];
  redirect_uri_provided_explicitly = true;
  code_challenge = 90 ∷ [];
  scopes = one_scope;
  resource = none;
  state = some (83 ∷ []);
}

abbrev with_request : OauthStore
with_request = record empty_store {
  pending_requests = pending_row plain parked (draw (7 ∷ []) 1) ∷ [];
}

parks :
    create_pending_request plain parked (draw (7 ∷ []) 1) empty_store ≡ ok (7 ∷ [], with_request)
unfolding create_pending_request insert find
parks = refl

abbrev code_grant : CodeGrant
code_grant = record {
  client_id = 67 ∷ [];
  redirect_uri = 85 ∷ [];
  redirect_uri_provided_explicitly = true;
  code_challenge = 90 ∷ [];
  scopes = one_scope;
  principal = 80 ∷ [];
  resource = none;
}

abbrev with_code : OauthStore
with_code = record empty_store { auth_codes = code_row plain code_grant (draw (6 ∷ []) 1) ∷ [] }

creates : create_auth_code plain code_grant (draw (6 ∷ []) 1) empty_store ≡ ok (6 ∷ [], with_code)
unfolding create_auth_code insert find
creates = refl

load_auth_code-create_auth_code_example :
    ◌≡◌ {A = Text} (6 ∷ []) (6 ∷ [])
    × ((now : ℕ)
        → load_auth_code plain now (6 ∷ []) with_code
          ≡ (if ltb now 300000001 then some (granted_code code_grant 1) else none))
    × ((now : ℕ) → (consume_auth_code plain now (6 ∷ []) with_code).0 ≡ true)
load_auth_code-create_auth_code_example =
    load_auth_code-create_auth_code plain code_grant (draw (6 ∷ []) 1) empty_store with_code
      (6 ∷ []) creates one_scope-IsScope

code_consumed : (consume_auth_code plain 5 (6 ∷ []) with_code).0 ≡ true
unfolding consume_auth_code count_where text_eq
code_consumed = refl

abbrev after_code : OauthStore
after_code = (consume_auth_code plain 5 (6 ∷ []) with_code).1

code_single_use_example :
    ((consume_auth_code plain 9 (6 ∷ []) (gc_expired_tokens 8 after_code).1).0 ≡ false)
    × (load_auth_code plain 9 (6 ∷ []) (gc_expired_tokens 8 after_code).1 ≡ none)
code_single_use_example =
    code_single_use plain family with_code (gc_expired_tokens 8 after_code).1 5 9 (6 ∷ [])
      code_consumed (Reach.next Reach.here (Step.collects_tokens 8 refl))

opens :
    issue_initial_tokens plain grant family (draw (1 ∷ []) 0) (draw (2 ∷ []) 0) empty_store
    ≡ ok ((1 ∷ [], 2 ∷ []), opened)
unfolding issue_initial_tokens mint_access mint_refresh insert find
opens = refl

collection_is_invisible_example :
    (load_access_token plain 6 (1 ∷ []) (gc_expired_tokens 5 opened).1
      ≡ load_access_token plain 6 (1 ∷ []) opened)
    × Alike plain (1 ∷ []) 6 7 (gc_expired_tokens 5 opened).1 opened
collection_is_invisible_example =
    collection_is_invisible plain {family = []} opened (1 ∷ []) 5 6 7
      (Reach.next Reach.here (
        Step.issues grant family (draw (1 ∷ []) 0) (draw (2 ∷ []) 0) (1 ∷ [], 2 ∷ [])
          (λ e. absurd (ground arith)) opens))
      (omega arith)
