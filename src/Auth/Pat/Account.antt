-- ===== src/Auth/Pat/Account.antt =====
-- auth/pat.py: `current_status` and `revoke_active` after `issue_pat`.
use meme_mcp.Base.{
  ℕ, ◌≡◌, refl, true, false, Option, none, some, contains, Text, parse_dt, expired, ok,
  if◌then◌else◌,
}
use meme_mcp.Auth.Authorization.{normalize_principal, principal_match_values}
use meme_mcp.Auth.Authorization.Normal.{normalize_idem}
use meme_mcp.Auth.Authorization.Forms.{contains-principal_match_values}
use meme_mcp.Auth.Pat.{
  Capability, PatState, PatStore, expiry, issue_pat, verify_pat, revoke_active, current_status,
}
use meme_mcp.Auth.Pat.Rows.{issued, issue-inv}
use meme_mcp.Auth.Pat.Issue.{issue_pat-inv}
use meme_mcp.Auth.Pat.Status.{IsOrdered, current_status-issued, revoke_active-eq, verify-revoked}

module _ (hash : Text → Text) (login plaintext : Text) (ttl_days : Option ℕ)
    (capability : Capability) (now later : ℕ) (s : PatStore) where
  issue_pat-issued :
      {p : Text} {s' : PatStore}
      → issue_pat hash login ttl_days capability plaintext now later s ≡ ok (p, s')
      → (principal : Text) × (normalize_principal login ≡ ok principal)
        × (contains principal (principal_match_values principal) ≡ true)
        × (s' ≡ issued principal (hash plaintext) (expiry ttl_days now) capability later s)
  issue_pat-issued h =
      let (_, i) = issue_pat-inv hash login plaintext ttl_days capability now later s h in
      let (principal, n, e) =
        issue-inv login (hash plaintext) (expiry ttl_days now) capability later s i in
      (
        principal,
        n,
        contains-principal_match_values principal (normalize_idem login principal n),
        e,
      )

  -- After a token was issued the account page shows it: active until it expires and lapsed then, with its
  -- capability and time, and not used yet. No stored row is newer than the clock, and no row has an id
  -- that the counter has not passed.
  pub current_status-issue_pat :
      {p : Text} {s' : PatStore}
      → issue_pat hash login ttl_days capability plaintext now later s ≡ ok (p, s')
      → IsOrdered later s
      → (principal : Text) × (normalize_principal login ≡ ok principal)
        × ((t : ℕ)
            → current_status principal t s' ≡ record {
              state = if expired (expiry ttl_days now) t then PatState.lapsed else PatState.active;
              capability = some capability;
              expires_at = parse_dt (expiry ttl_days now);
              last_used_at = none;
            })
  current_status-issue_pat h ordered =
      let (principal, n, own, e) = issue_pat-issued h in
      (
        principal,
        n,
        λ t. rw e (
            current_status-issued principal (hash plaintext) (expiry ttl_days now) capability later
              s t own ordered),
      )

  -- The friend can revoke the token that was issued, as long as it has not expired, and from then on it
  -- does not verify at any time.
  pub revoke_active-issue_pat :
      {p : Text} {s' : PatStore} (t : ℕ)
      → issue_pat hash login ttl_days capability plaintext now later s ≡ ok (p, s')
      → expired (expiry ttl_days now) t ≡ false
      → (principal : Text) × (normalize_principal login ≡ ok principal)
        × ((revoke_active principal t s').0 ≡ true)
        × ((t' : ℕ) → (verify_pat hash plaintext t' (revoke_active principal t s').1).0 ≡ none)
  unfolding verify_pat
  revoke_active-issue_pat t h alive =
      let (principal, n, own, e) = issue_pat-issued h in
      (
        principal,
        n,
        rw
            (
              e,
              revoke_active-eq principal (hash plaintext) (expiry ttl_days now) capability later s t
                  own alive,
            )
            refl,
        λ t'. rw e (
            verify-revoked principal (hash plaintext) (expiry ttl_days now) capability later s t t'
              own alive),
      )
