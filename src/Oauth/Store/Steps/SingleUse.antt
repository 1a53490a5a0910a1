-- ===== src/Oauth/Store/Steps/SingleUse.antt =====
-- oauth/store.py: authorization codes and consent requests along the calls.
use meme_mcp.Base.{ℕ, ◌≡◌, refl, true, false, none, Text}
use meme_mcp.Base.Table.SingleUse.{IsSpent-row, IsSpent-count, consume-IsSpent, Change-IsSpent}
use meme_mcp.Oauth.Schema.{OauthStore, Primitives}
use meme_mcp.Oauth.Store.Pending.{load_pending_request, consume_pending_request}
use meme_mcp.Oauth.Store.Pending
use meme_mcp.Oauth.Store.Codes.{load_auth_code, consume_auth_code}
use meme_mcp.Oauth.Store.Codes
use meme_mcp.Oauth.Store.Steps.{Reach}
use meme_mcp.Oauth.Store.Steps.Spent.{
  code_used, request_used, spend_code, spend_request, CodeSpent, RequestSpent, Step-codes,
  Step-requests,
}

module _ (k : Primitives) {family : Text} {s : OauthStore} {digest : Text} where
  pub Reach-CodeSpent :
      {s' : OauthStore} → Reach k family s s' → CodeSpent digest s → CodeSpent digest s'
  Reach-CodeSpent Reach.here spent = spent
  Reach-CodeSpent (Reach.next r step) spent =
      let (now, change) = Step-codes k step in
      Change-IsSpent Codes.key code_used (spend_code now) (λ x. refl) (λ x. refl) change
        (Reach-CodeSpent r spent)

  pub Reach-RequestSpent :
      {s' : OauthStore} → Reach k family s s' → RequestSpent digest s → RequestSpent digest s'
  Reach-RequestSpent Reach.here spent = spent
  Reach-RequestSpent (Reach.next r step) spent =
      let (now, change) = Step-requests k step in
      Change-IsSpent Pending.key request_used (spend_request now) (λ x. refl) (λ x. refl) change
        (Reach-RequestSpent r spent)

module _ (k : Primitives) (code : Text) (now : ℕ) (s : OauthStore) where
  pub consume_auth_code-CodeSpent :
      (consume_auth_code k now code s).0 ≡ true
      → CodeSpent (k.hash code) (consume_auth_code k now code s).1
  unfolding consume_auth_code
  consume_auth_code-CodeSpent h =
      consume-IsSpent Codes.key code_used (spend_code now) (λ r. refl) (λ r. refl) (k.hash code)
        s.auth_codes h

  pub CodeSpent-refused :
      CodeSpent (k.hash code) s
      → ((consume_auth_code k now code s).0 ≡ false) × (load_auth_code k now code s ≡ none)
  unfolding consume_auth_code load_auth_code
  CodeSpent-refused spent = (
    IsSpent-count Codes.key code_used (k.hash code) s.auth_codes spent,
    rw
        (
          spent.stored,
          load_auth_code,
          IsSpent-row Codes.key code_used (k.hash code) s.auth_codes spent,
        )
        refl,
  )

module _ (k : Primitives) (nonce : Text) (now : ℕ) (s : OauthStore) where
  pub consume_pending_request-RequestSpent :
      (consume_pending_request k now nonce s).0 ≡ true
      → RequestSpent (k.hash nonce) (consume_pending_request k now nonce s).1
  unfolding consume_pending_request
  consume_pending_request-RequestSpent h =
      consume-IsSpent Pending.key request_used (spend_request now) (λ r. refl) (λ r. refl)
        (k.hash nonce) s.pending_requests h

  pub RequestSpent-refused :
      RequestSpent (k.hash nonce) s
      → ((consume_pending_request k now nonce s).0 ≡ false)
        × (load_pending_request k now nonce s ≡ none)
  unfolding consume_pending_request load_pending_request
  RequestSpent-refused spent = (
    IsSpent-count Pending.key request_used (k.hash nonce) s.pending_requests spent,
    rw
        (
          spent.stored,
          load_pending_request,
          IsSpent-row Pending.key request_used (k.hash nonce) s.pending_requests spent,
        )
        refl,
  )

module _ (k : Primitives) (family : Text) (s s' : OauthStore) (now now' : ℕ) where
  -- Once a code has been consumed, it is refused for ever: after any calls of the store, at any time,
  -- consuming it again fails and loading it finds nothing.
  pub code_single_use :
      (code : Text)
      → (consume_auth_code k now code s).0 ≡ true
      → Reach k family (consume_auth_code k now code s).1 s'
      → ((consume_auth_code k now' code s').0 ≡ false) × (load_auth_code k now' code s' ≡ none)
  code_single_use code used r =
      CodeSpent-refused k code now' s'
        (Reach-CodeSpent k r (consume_auth_code-CodeSpent k code now s used))

  -- Once a consent request has been consumed, by a denial or by the issue of a code, it is refused for
  -- ever: after any calls of the store, at any time, it is not consumed again and does not load.
  pub request_single_use :
      (nonce : Text)
      → (consume_pending_request k now nonce s).0 ≡ true
      → Reach k family (consume_pending_request k now nonce s).1 s'
      → ((consume_pending_request k now' nonce s').0 ≡ false)
        × (load_pending_request k now' nonce s' ≡ none)
  request_single_use nonce used r =
      RequestSpent-refused k nonce now' s'
        (Reach-RequestSpent k r (consume_pending_request-RequestSpent k nonce now s used))
