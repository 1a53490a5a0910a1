-- ===== src/Oauth/Store/Steps/Spent.antt =====
-- oauth/store.py: what each call does to the authorization codes and to the consent requests.
use meme_mcp.Base.{ℕ, refl, Bool, some, arith, Text, utc, is_some, Option-cases, inl, inr}
use meme_mcp.Base.Table.SingleUse.{IsSpent, Change, same, inserted, consumed_at}
use meme_mcp.Oauth.Schema.{AuthCodeRow, PendingRow, OauthStore, Primitives}
use meme_mcp.Oauth.Store.Clients.{register_client, mark_client_used}
use meme_mcp.Oauth.Store.Approvals.{record_approval, delete_approvals_for_principal}
use meme_mcp.Oauth.Store.Pending.{
  pending_row, create_pending_request-inv, load_pending_request, consume_pending_request,
}
use meme_mcp.Oauth.Store.Pending
use meme_mcp.Oauth.Store.Codes.{code_row, create_auth_code-inv, load_auth_code, consume_auth_code}
use meme_mcp.Oauth.Store.Codes
use meme_mcp.Oauth.Store.Tokens.Mint.{issue_initial_tokens-inv}
use meme_mcp.Oauth.Store.Rotation.Frame.{
  SameRequests, load_refresh_token-SameRequests, rotate_refresh_token-SameRequests,
}
use meme_mcp.Oauth.Store.Revocation.{family_for, revoke_token, revoke_families_for_principal}
use meme_mcp.Oauth.Store.Gc.{gc_expired_tokens, gc_unused_clients}
use meme_mcp.Oauth.Store.Steps.{Step}

abbrev pub code_used : AuthCodeRow → Bool
code_used r = is_some r.consumed_at

abbrev pub request_used : PendingRow → Bool
request_used r = is_some r.consumed_at

abbrev pub spend_code : ℕ → AuthCodeRow → AuthCodeRow
spend_code now r = record r { consumed_at = some (utc now) }

abbrev pub spend_request : ℕ → PendingRow → PendingRow
spend_request now r = record r { consumed_at = some (utc now) }

abbrev pub CodeSpent : Text → OauthStore → Type 0
CodeSpent digest s = IsSpent Codes.key code_used digest s.auth_codes

abbrev pub RequestSpent : Text → OauthStore → Type 0
RequestSpent digest s = IsSpent Pending.key request_used digest s.pending_requests

module _ (k : Primitives) {s : OauthStore} where
  revoke_token-SameRequests : (token : Text) (now : ℕ) → SameRequests s (revoke_token k token now s)
  unfolding revoke_token
  revoke_token-SameRequests token now = elim (Option-cases (family_for (k.hash token) s)) [
    | inl miss ↦ rw (miss, revoke_token) (record { codes = refl; pending = refl })
    | inr (family, hit) ↦ rw (hit, revoke_token) (record { codes = refl; pending = refl })
  ]

  register_client-SameRequests :
      (info : _) (nonce now : ℕ) → SameRequests s (register_client k info nonce now s)
  unfolding register_client
  register_client-SameRequests info nonce now = record {
    codes = ground arith;
    pending = ground arith;
  }

module _ (k : Primitives) {family : Text} {s : OauthStore} where
  -- What a step does to the codes.
  pub Step-codes :
      {s' : OauthStore}
      → Step k family s s'
      → (now : ℕ) × Change Codes.key code_used (spend_code now) s.auth_codes s'.auth_codes
  unfolding mark_client_used record_approval delete_approvals_for_principal consume_pending_request
      consume_auth_code gc_unused_clients gc_expired_tokens revoke_families_for_principal
  Step-codes (Step.registers info nonce now e) =
      (0, same (rw e (register_client-SameRequests k info nonce now).codes))
  Step-codes (Step.marks_used client now e) = (0, same (rw e refl))
  Step-codes (Step.approves principal client scopes now e) = (0, same (rw e refl))
  Step-codes (Step.forgets principal e) = (0, same (rw e refl))
  Step-codes (Step.parks p d nonce h) = (0, same (rw (create_pending_request-inv k p d s h).2 refl))
  Step-codes (Step.consumes_request now nonce e) = (0, same (rw e refl))
  Step-codes (Step.creates_code g d code h) =
      let (new, _, e) = create_auth_code-inv k g d s h in
      (0, inserted (code_row k g d) new (rw e refl))
  Step-codes (Step.consumes_code now code e) = (now, consumed_at (k.hash code) (rw e refl))
  Step-codes (Step.issues g other a d pair ne h) =
      (0, same (rw (issue_initial_tokens-inv k g other a d h).3 refl))
  Step-codes (Step.loads_refresh token now later loaded h) =
      (0, same (load_refresh_token-SameRequests k token now later s h).codes)
  Step-codes (Step.rotates token scopes now later a d pair h) =
      (0, same (rotate_refresh_token-SameRequests k token scopes now later a d s h).codes)
  Step-codes (Step.revokes token now e) =
      (0, same (rw e (revoke_token-SameRequests k token now).codes))
  Step-codes (Step.revokes_principal principal now e) = (0, same (rw e refl))
  Step-codes (Step.collects_tokens now e) = (0, same (rw e refl))
  Step-codes (Step.collects_clients ttl now e) = (0, same (rw e refl))

  -- What a step does to the consent requests.
  pub Step-requests :
      {s' : OauthStore}
      → Step k family s s'
      → (now : ℕ) × Change Pending.key request_used
          (spend_request now)
          s.pending_requests
          s'.pending_requests
  unfolding mark_client_used record_approval delete_approvals_for_principal consume_pending_request
      consume_auth_code gc_unused_clients gc_expired_tokens revoke_families_for_principal
  Step-requests (Step.registers info nonce now e) =
      (0, same (rw e (register_client-SameRequests k info nonce now).pending))
  Step-requests (Step.marks_used client now e) = (0, same (rw e refl))
  Step-requests (Step.approves principal client scopes now e) = (0, same (rw e refl))
  Step-requests (Step.forgets principal e) = (0, same (rw e refl))
  Step-requests (Step.parks p d nonce h) =
      let (new, _, e) = create_pending_request-inv k p d s h in
      (0, inserted (pending_row k p d) new (rw e refl))
  Step-requests (Step.consumes_request now nonce e) = (now, consumed_at (k.hash nonce) (rw e refl))
  Step-requests (Step.creates_code g d code h) =
      (0, same (rw (create_auth_code-inv k g d s h).2 refl))
  Step-requests (Step.consumes_code now code e) = (0, same (rw e refl))
  Step-requests (Step.issues g other a d pair ne h) =
      (0, same (rw (issue_initial_tokens-inv k g other a d h).3 refl))
  Step-requests (Step.loads_refresh token now later loaded h) =
      (0, same (load_refresh_token-SameRequests k token now later s h).pending)
  Step-requests (Step.rotates token scopes now later a d pair h) =
      (0, same (rotate_refresh_token-SameRequests k token scopes now later a d s h).pending)
  Step-requests (Step.revokes token now e) =
      (0, same (rw e (revoke_token-SameRequests k token now).pending))
  Step-requests (Step.revokes_principal principal now e) = (0, same (rw e refl))
  Step-requests (Step.collects_tokens now e) = (0, same (rw e refl))
  Step-requests (Step.collects_clients ttl now e) = (0, same (rw e refl))
