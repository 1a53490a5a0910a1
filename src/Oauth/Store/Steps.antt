-- ===== src/Oauth/Store/Steps.antt =====
-- The calls that change the store, as steps between its states. A call that raises leaves the store
-- as it was, and is no step.
pub mod Death
pub mod Spent
pub mod SingleUse
pub mod Finality
pub mod Keys
use meme_mcp.Base.{ℕ, ◌≡◌, ◌≢◌, Option, List, Text, Result, ok}
use meme_mcp.Oauth.Schema.{OauthStore, Primitives, ClientInfo, Draw}
use meme_mcp.Oauth.Store.Clients.{register_client, mark_client_used}
use meme_mcp.Oauth.Store.Approvals.{record_approval, delete_approvals_for_principal}
use meme_mcp.Oauth.Store.Pending.{PendingRequest, create_pending_request, consume_pending_request}
use meme_mcp.Oauth.Store.Codes.{CodeGrant, create_auth_code, consume_auth_code}
use meme_mcp.Oauth.Store.Tokens.{
  Grant, StoredRefreshToken, issue_initial_tokens, load_refresh_token,
}
use meme_mcp.Oauth.Store.Rotation.{rotate_refresh_token}
use meme_mcp.Oauth.Store.Revocation.{revoke_token, revoke_families_for_principal}
use meme_mcp.Oauth.Store.Gc.{gc_expired_tokens, gc_unused_clients}

module _ (k : Primitives) where
  -- One call, of any arguments. A new grant draws an id for its family that is not `family`: ids are
  -- random tokens, and none is drawn twice.
  pub data Step (family : Text) (s s' : OauthStore) : Type 0 where
    registers :
        (info : ClientInfo) (nonce now : ℕ)
        → s' ≡ register_client k info nonce now s
        → Step family s s'
    marks_used : (client : Text) (now : ℕ) → s' ≡ mark_client_used client now s → Step family s s'
    approves :
        (principal client : Text) (scopes : List Text) (now : ℕ)
        → s' ≡ record_approval principal client scopes now s
        → Step family s s'
    forgets :
        (principal : Text) → s' ≡ (delete_approvals_for_principal principal s).1 → Step family s s'
    parks :
        (p : PendingRequest) (d : Draw) (nonce : Text)
        → create_pending_request k p d s ≡ ok (nonce, s')
        → Step family s s'
    consumes_request :
        (now : ℕ) (nonce : Text) → s' ≡ (consume_pending_request k now nonce s).1 → Step family s s'
    creates_code :
        (g : CodeGrant) (d : Draw) (code : Text)
        → create_auth_code k g d s ≡ ok (code, s')
        → Step family s s'
    consumes_code :
        (now : ℕ) (code : Text) → s' ≡ (consume_auth_code k now code s).1 → Step family s s'
    issues :
        (g : Grant) (other : Text) (a d : Draw) (pair : Text × Text)
        → other ≢ family
        → issue_initial_tokens k g other a d s ≡ ok (pair, s')
        → Step family s s'
    loads_refresh :
        (token : Text) (now later : ℕ) (loaded : Option StoredRefreshToken)
        → load_refresh_token k token now later s ≡ ok (loaded, s')
        → Step family s s'
    rotates :
        (token : Text) (scopes : List Text) (now later : ℕ) (a d : Draw)
        (pair : Option (Text × Text))
        → rotate_refresh_token k token scopes now later a d s ≡ ok (pair, s')
        → Step family s s'
    revokes : (token : Text) (now : ℕ) → s' ≡ revoke_token k token now s → Step family s s'
    revokes_principal :
        (principal : Text) (now : ℕ)
        → s' ≡ (revoke_families_for_principal principal now s).1
        → Step family s s'
    collects_tokens : (now : ℕ) → s' ≡ (gc_expired_tokens now s).1 → Step family s s'
    collects_clients : (ttl now : ℕ) → s' ≡ (gc_unused_clients ttl now s).1 → Step family s s'

  pub data Reach (family : Text) (s : OauthStore) : OauthStore → Type 0 where
    here : Reach family s s
    next : {u v : OauthStore} → Reach family s u → Step family u v → Reach family s v
