-- ===== src/Oauth/Consent.antt =====
-- oauth/consent.py: the routes between the sign-in and the authorization code. A response is told by
-- what it does; `rid` is the nonce of the request. The application builds the provider with the same
-- allowlist and pins that the routes read.
pub mod Issuance
use meme_mcp.Base.{
  ℕ, Bool, true, false, not, Option, none, some, List, [], ◌∷◌, Text, Result, ok, err, is_empty,
  if◌then◌else◌,
}
use meme_mcp.Oauth.Schema.{OauthStore, Draw}
use meme_mcp.Oauth.Store.Approvals.{record_approval, has_approval}
use meme_mcp.Oauth.Store.Pending.{
  PendingRequest, effective_scopes, load_pending_request, consume_pending_request,
}
use meme_mcp.Oauth.Protocol.{Services}
use meme_mcp.Oauth.Provider.{authorized, create_authorization_code}
use meme_mcp.Auth.Authorization.{normalize_principal}

-- `to_client` and `denied` carry the client's redirect URI and state.
pub data Response : Type 0 where
  rejected expired_page restricted_page : Response
  to_login : Text → Response
  screen : Text → PendingRequest → Response
  denied : Text → Option Text → Response
  to_client : Text → Text → Option Text → Response

-- `_session_principal`; `none` where the session has no text.
unfoldable pub session_principal : Option Text → Option Text
unfolding is_empty
session_principal none = none
session_principal (some raw) =
    if is_empty raw
    then none
    else elim (normalize_principal raw) [ err _ ↦ none | ok principal ↦ some principal ]

module _ (v : Services) where
  -- The end of `_issue_or_deny`, once the request was consumed.
  unfoldable pub issue : Text → PendingRequest → Draw → OauthStore → Result Response × OauthStore
  issue principal pending d s = elim (create_authorization_code v principal pending d s) [
    | err e ↦ (err e, s)
    | ok (code, s') ↦ (ok (to_client pending.redirect_uri code pending.state), s')
  ]

  unfoldable pub issue_or_deny :
      Text → PendingRequest → Text → ℕ → Draw → OauthStore → Result Response × OauthStore
  unfolding issue
  issue_or_deny principal pending rid now d s =
      if not (authorized v principal)
      then (ok restricted_page, s)
      else let (consumed, s') = consume_pending_request v.primitives now rid s in
        if not consumed then (ok expired_page, s') else issue principal pending d s'

  -- The two routes for a friend who is signed in, after the request was looked up.
  unfoldable pub show_or_issue :
      Text → Option PendingRequest → Text → ℕ → Draw → OauthStore → Result Response × OauthStore
  unfolding issue_or_deny
  show_or_issue principal none rid now d s = (ok expired_page, s)
  show_or_issue principal (some pending) rid now d s =
      if has_approval principal pending.client_id (effective_scopes pending) s
      then issue_or_deny principal pending rid now d s
      else (ok (screen principal pending), s)

  unfoldable pub decide :
      Text
      → Option PendingRequest
      → Bool
      → Text
      → ℕ
      → ℕ
      → Draw
      → OauthStore
      → Result Response × OauthStore
  unfolding issue_or_deny
  decide principal none approve rid now later d s = (ok expired_page, s)
  decide principal (some pending) approve rid now later d s =
      if not approve
      then (
        ok (denied pending.redirect_uri pending.state),
        (consume_pending_request v.primitives now rid s).1,
      )
      else issue_or_deny principal pending rid later d
          (record_approval principal pending.client_id (effective_scopes pending) now s)

  -- `start`, `now` and `later` are the clock readings of the calls, in their order.
  unfoldable pub oauth_consent_get :
      Option Text → Text → ℕ → ℕ → Draw → OauthStore → Result Response × OauthStore
  unfolding show_or_issue session_principal
  oauth_consent_get session rid start now d s = elim (session_principal session) [
    | none ↦ (ok (to_login rid), s)
    | some principal ↦
        show_or_issue principal (load_pending_request v.primitives start rid s) rid now d s
  ]

  -- `csrf` tells whether `require_csrf_form` lets the request pass, and `approve` whether the form's
  -- decision is "approve".
  unfoldable pub oauth_consent_post :
      Option Text
      → Bool
      → Bool
      → Text
      → ℕ
      → ℕ
      → ℕ
      → Draw
      → OauthStore
      → Result Response × OauthStore
  unfolding decide session_principal
  oauth_consent_post session csrf approve rid start now later d s =
      if not csrf then (ok rejected, s) else elim (session_principal session) [
        | none ↦ (ok (to_login rid), s)
        | some principal ↦
            decide principal (load_pending_request v.primitives start rid s) approve rid now later d
              s
      ]
