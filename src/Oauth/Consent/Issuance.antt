-- ===== src/Oauth/Consent/Issuance.antt =====
-- oauth/consent.py: `_issue_or_deny`.
pub mod Routes
use meme_mcp.Base.{
  ℕ, ◌+◌, ltb, ◌≡◌, refl, sym, ap, Bool, true, false, not, Option, none, some, List, [], ◌∷◌, arith,
  Text, codes, is_some, expired, All, Result, ok, err, if◌then◌else◌, Bool-cases, Option-cases, inl,
  inr,
}
use meme_mcp.Base.Table.Keyed.{find}
use meme_mcp.Oauth.Scopes.{IsScope, split_scopes, split_scopes-IsScope}
use meme_mcp.Oauth.Schema.{OauthStore, Primitives, Draw, auth_code_ttl}
use meme_mcp.Oauth.Store.Pending
use meme_mcp.Oauth.Store.Pending.{
  PendingRequest, effective_scopes, load_pending_request, consume_pending_request,
}
use meme_mcp.Oauth.Store.Codes.{create_auth_code, create_auth_code-inv, code_row, load_auth_code}
use meme_mcp.Oauth.Store.Codes.Lifetime.{granted_code, load_auth_code-create_auth_code}
use meme_mcp.Oauth.Store.Steps.Spent.{RequestSpent}
use meme_mcp.Oauth.Store.Steps.SingleUse.{consume_pending_request-RequestSpent}
use meme_mcp.Oauth.Protocol.{Services, code_grant}
use meme_mcp.Oauth.Provider.{authorized, create_authorization_code}
use meme_mcp.Oauth.Consent.{
  Response, to_client, expired_page, restricted_page, issue, issue_or_deny,
}

read-IsScope : IsScope (codes "meme:read")
read-IsScope = record { non_empty = λ e. absurd (ground arith); no_space = ground arith }

effective_scopes-IsScope :
    (p : PendingRequest) (scopes : List Text)
    → p.scopes ≡ scopes
    → All IsScope scopes
    → All IsScope (effective_scopes p)
unfolding effective_scopes
effective_scopes-IsScope p [] e words = rw (effective_scopes, e) (read-IsScope, tt)
effective_scopes-IsScope p (s ∷ scopes) e words = rw (effective_scopes, e) words

-- The scopes of a request that was loaded are words.
pub load_pending_request-IsScope :
    (k : Primitives) (now : ℕ) (rid : Text) (s : OauthStore) (p : PendingRequest)
    → load_pending_request k now rid s ≡ some p
    → All IsScope p.scopes
unfolding load_pending_request
load_pending_request-IsScope k now rid s p h =
    elim (Option-cases (find Pending.key (k.hash rid) s.pending_requests)) [
      | inl e ↦ absurd (ground (arith, e, h))
      | inr (r, e) ↦
          let same : split_scopes r.scopes ≡ p.scopes = ground (arith, e, h) in
          rw (sym same) (split_scopes-IsScope r.scopes)
    ]

module _ (v : Services) (principal : Text) (pending : PendingRequest) (rid : Text) (d : Draw) where
  -- The friend is authorized, the request is used up, and the code loads for five minutes as a code of
  -- the request's client, redirect URI, challenge and displayed scopes, and of the friend.
  pub record Issued (code : Text) (s' : OauthStore) : Type 0 where
    pub allowed : authorized v principal ≡ true
    pub spent : RequestSpent (v.primitives.hash rid) s'
    pub grants :
        (t : ℕ)
        → load_auth_code v.primitives t code s' ≡ (
            if ltb t (d.now + auth_code_ttl)
            then some (granted_code (code_grant principal pending) d.now)
            else none)

  issued :
      (result : Result (Text × OauthStore)) (s : OauthStore) {uri code : Text} {state : Option Text}
      {s' : OauthStore}
      → create_authorization_code v principal pending d s ≡ result
      → issue v principal pending d s ≡ (ok (to_client uri code state), s')
      → create_auth_code v.primitives (code_grant principal pending) d s ≡ ok (code, s')
  unfolding create_authorization_code issue
  issued (err e) s m h = absurd (ground (arith, m, h))
  issued (ok (c, s2)) s {uri} {code} {state} {s'} m h =
      let same : c ≡ code = ground (arith, m, h) in
      let store : s2 ≡ s' = ground (arith, m, h) in rw (same, store) at m

  Issued-late :
      (s : OauthStore) (code : Text) {s' : OauthStore}
      → authorized v principal ≡ true
      → All IsScope pending.scopes
      → RequestSpent (v.primitives.hash rid) s
      → create_auth_code v.primitives (code_grant principal pending) d s ≡ ok (code, s')
      → Issued code s'
  Issued-late s code {s'} allowed words spent m =
      let (_, loads, _) =
        load_auth_code-create_auth_code v.primitives (code_grant principal pending) d s s' code m
          (effective_scopes-IsScope pending pending.scopes refl words) in
      let (_, _, e) = create_auth_code-inv v.primitives (code_grant principal pending) d s m in
      record { allowed = allowed; spent = rw e spent; grants = loads }

  -- Where `_issue_or_deny` gives a code to the client, the friend is authorized, the request was
  -- still unused, and the code is the friend's for what the request asks.
  pub issue_or_deny-to_client :
      (now : ℕ) (s s' : OauthStore) (uri code : Text) (state : Option Text)
      → All IsScope pending.scopes
      → issue_or_deny v principal pending rid now d s ≡ (ok (to_client uri code state), s')
      → Issued code s'
  unfolding issue_or_deny
  issue_or_deny-to_client now s s' uri code state words h =
      elim (Bool-cases (authorized v principal)) [
        | inr e ↦ absurd (ground (arith, e, h))
        | inl e ↦ elim (Bool-cases (consume_pending_request v.primitives now rid s).0) [
          | inr f ↦ absurd (ground (arith, e, f, h))
          | inl f ↦
              let after = (consume_pending_request v.primitives now rid s).1 in
              Issued-late after code e words
                (consume_pending_request-RequestSpent v.primitives rid now s f)
                (issued (create_authorization_code v principal pending d after) after refl
                  (rw (e, f) at h))
        ]
      ]
