-- ===== src/Oauth/Consent/Issuance/Routes.antt =====
-- oauth/consent.py: the two routes as a whole.
use meme_mcp.Base.{
  ℕ, ◌≡◌, refl, Bool, true, false, Option, some, arith, Text, Result, ok, Bool-cases, Option-cases,
  inl, inr,
}
use meme_mcp.Oauth.Schema.{OauthStore, Draw}
use meme_mcp.Oauth.Store.Approvals.{record_approval, has_approval}
use meme_mcp.Oauth.Store.Pending.{
  PendingRequest, effective_scopes, load_pending_request, consume_pending_request,
}
use meme_mcp.Oauth.Store.Steps.{Reach}
use meme_mcp.Oauth.Store.Steps.Spent.{RequestSpent}
use meme_mcp.Oauth.Store.Steps.SingleUse.{
  consume_pending_request-RequestSpent, RequestSpent-refused, Reach-RequestSpent,
}
use meme_mcp.Oauth.Protocol.{Services}
use meme_mcp.Oauth.Consent.{
  Response, rejected, expired_page, restricted_page, to_login, to_client, screen, denied,
  session_principal, show_or_issue, decide, oauth_consent_get, oauth_consent_post,
}
use meme_mcp.Oauth.Consent.Issuance.{Issued, issue_or_deny-to_client, load_pending_request-IsScope}

module _ (v : Services) (session : Option Text) (rid : Text) (start now : ℕ) (d : Draw)
    (s s' : OauthStore) (uri code : Text) (state : Option Text) where
  -- Where the consent page gives a code without asking, the session's friend has approved the client
  -- before for all the displayed scopes, is authorized now, and the request was unused; and the
  -- code is the friend's for what the request asks.
  pub oauth_consent_get-to_client :
      oauth_consent_get v session rid start now d s ≡ (ok (to_client uri code state), s')
      → (principal : Text) × (pending : PendingRequest) × (session_principal session
          ≡ some principal)
        × (load_pending_request v.primitives start rid s ≡ some pending)
        × (has_approval principal pending.client_id (effective_scopes pending) s ≡ true)
        × Issued v principal pending rid d code s'
  unfolding oauth_consent_get show_or_issue
  oauth_consent_get-to_client h = elim (Option-cases (session_principal session)) [
    | inl e ↦ absurd (ground (arith, e, h))
    | inr (principal, e) ↦ elim (Option-cases (load_pending_request v.primitives start rid s)) [
      | inl f ↦ absurd (ground (arith, e, f, h))
      | inr (pending, f) ↦
          elim (Bool-cases
            (has_approval principal pending.client_id (effective_scopes pending) s)) [
              | inr g ↦ absurd (ground (arith, e, f, g, h))
              | inl g ↦ (
                principal,
                pending,
                e,
                f,
                g,
                issue_or_deny-to_client v principal pending rid d now s s' uri code state
                    (load_pending_request-IsScope v.primitives start rid s pending f)
                    (rw (e, oauth_consent_get, f, g) at h),
              )
            ]
    ]
  ]

  -- Where the consent form gives a code, it passed the CSRF check with the decision "approve", the
  -- session's friend is authorized, and the request was unused; and the code is the friend's for
  -- what the request asks.
  pub oauth_consent_post-to_client :
      (csrf approve : Bool) (later : ℕ)
      → oauth_consent_post v session csrf approve rid start now later d s
        ≡ (ok (to_client uri code state), s')
      → (csrf ≡ true)
        × (approve ≡ true)
        × (principal : Text) × (pending : PendingRequest) × (session_principal session
            ≡ some principal)
        × (load_pending_request v.primitives start rid s ≡ some pending)
        × Issued v principal pending rid d code s'
  unfolding oauth_consent_post decide
  oauth_consent_post-to_client false approve later h = absurd (ground (arith, h))
  oauth_consent_post-to_client true approve later h =
      elim (Option-cases (session_principal session)) [
        | inl e ↦ absurd (ground (arith, e, h))
        | inr (principal, e) ↦ elim (Option-cases (load_pending_request v.primitives start rid s)) [
          | inl f ↦ absurd (ground (arith, e, f, h))
          | inr (pending, f) ↦ elim (Bool-cases approve) [
            | inr g ↦ absurd (ground (arith, e, f, g, h))
            | inl g ↦ (
              refl,
              g,
              principal,
              pending,
              e,
              f,
              issue_or_deny-to_client v principal pending rid d later
                  (record_approval principal pending.client_id (effective_scopes pending) now s) s'
                  uri code state (load_pending_request-IsScope v.primitives start rid s pending f)
                  (rw (e, f, g) at h),
            )
          ]
        ]
      ]

-- What is left for a request that was used up.
abbrev pub is_closed : Response → Bool
is_closed rejected = true
is_closed expired_page = true
is_closed (to_login rid) = true
is_closed restricted_page = false
is_closed (screen principal pending) = false
is_closed (denied uri state) = false
is_closed (to_client uri code state) = false

-- A route has answered without an error, and has left the store as it was.
abbrev pub Closed : OauthStore → Result Response × OauthStore → Type 0
Closed s answer = (response : Response) × (answer ≡ (ok response, s)) × (is_closed response ≡ true)

module _ (v : Services) (rid : Text) (s : OauthStore) where
  spent-Closed :
      RequestSpent (v.primitives.hash rid) s
      → ((session : Option Text) (start now : ℕ) (d : Draw)
          → Closed s (oauth_consent_get v session rid start now d s))
        × ((session : Option Text) (csrf approve : Bool) (start now later : ℕ) (d : Draw)
            → Closed s (oauth_consent_post v session csrf approve rid start now later d s))
  unfolding oauth_consent_get oauth_consent_post show_or_issue decide
  spent-Closed spent = (
    λ session start now d. elim (Option-cases (session_principal session)) [
      | inl e ↦ (to_login rid, rw (e, oauth_consent_get) refl, refl)
      | inr (principal, e) ↦
          let gone = (RequestSpent-refused v.primitives rid start s spent).1 in
          (expired_page, rw (e, oauth_consent_get, gone) refl, refl)
    ],
    λ session csrf approve start now later d. elim (Bool-cases csrf) [
      | inr c ↦ (rejected, rw c refl, refl)
      | inl c ↦ elim (Option-cases (session_principal session)) [
        | inl e ↦ (to_login rid, rw (c, e, oauth_consent_post) refl, refl)
        | inr (principal, e) ↦
            let gone = (RequestSpent-refused v.primitives rid start s spent).1 in
            (expired_page, rw (c, e, oauth_consent_post, gone) refl, refl)
      ]
    ],
  )

module _ (v : Services) (rid : Text) (s : OauthStore) where
  -- Once a request is used up, by a code or by a denial, both routes are closed to it for ever: after
  -- any calls of the store they give no code and no screen, and change nothing.
  pub consent_is_final :
      (now : ℕ) (other : Text) (s' : OauthStore)
      → (consume_pending_request v.primitives now rid s).0 ≡ true
      → Reach v.primitives other (consume_pending_request v.primitives now rid s).1 s'
      → ((session : Option Text) (start now : ℕ) (d : Draw)
          → Closed s' (oauth_consent_get v session rid start now d s'))
        × ((session : Option Text) (csrf approve : Bool) (start now later : ℕ) (d : Draw)
            → Closed s' (oauth_consent_post v session csrf approve rid start now later d s'))
  consent_is_final now other s' used reach = spent-Closed v rid s' (
      Reach-RequestSpent v.primitives reach
        (consume_pending_request-RequestSpent v.primitives rid now s used))
