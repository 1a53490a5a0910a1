-- ===== src/Auth/Pat/Status.antt =====
-- auth/pat.py: `current_status` and `revoke_active` on the rows that `issue` leaves.
use meme_mcp.Base.{
  ℕ, ◌≤◌, ◌<◌, ◌≡◌, refl, true, false, Option, none, some, List, [], ◌∷◌, arith, ◌==◌, Text,
  contains, Stamp, rank, parse_dt, expired, All, All-map, Option-cases, Bool-cases, inl, inr,
  if◌then◌else◌,
}
use meme_mcp.Base.Table.{
  update_where, select_where, select_where_none, All-select_where, All-update_where,
}
use meme_mcp.Base.Table.Keyed.{find-update_where}
use meme_mcp.Auth.Authorization.{principal_match_values}
use meme_mcp.Auth.Pat.{
  Capability, PatRow, PatStore, PatState, pat_key, live, belongs, revoke, newer, newest,
  revoke_active, current_status, verify,
}
use meme_mcp.Auth.Pat.Rows.{issued, row, retired, retired_off, find-issued_new}
use meme_mcp.Auth.Pat.Issue.{coerce_capability-capability_text}

-- No row is newer than the clock, and the counter is past every id.
abbrev pub IsOrdered : ℕ → PatStore → Type 0
IsOrdered now s = All (λ r. (rank r.created_at ≤ now) × (r.id < s.next_id)) s.pats

All-newest {κ} :
    (P : PatRow → Type κ) (t : List PatRow) {y : PatRow} → newest t ≡ some y → All P t → P y
unfolding newest
All-newest P [] h a = absurd (cc)
All-newest P (r ∷ t) {y} h a = elim (Option-cases (newest t)) [
  | inl e ↦
      let found : some r ≡ some y = rw (e, newest) at h in let same : r ≡ y = cc in rw (← same) a.0
  | inr (x, e) ↦ elim (Bool-cases (newer x r)) [
    | inl n ↦
        let found : some x ≡ some y = ground arith in
        let same : x ≡ y = cc in rw (← same) (All-newest P t e a.1)
    | inr n ↦ let found : some r ≡ some y = ground arith in let same : r ≡ y = cc in rw (← same) a.0
  ]
]

-- A row before rows that are none of them newer.
newest-cons :
    (r : PatRow) (t : List PatRow) → All (λ x. newer x r ≡ false) t → newest (r ∷ t) ≡ some r
unfolding newest
newest-cons r t a = elim (Option-cases (newest t)) [
  | inl e ↦ rw e refl
  | inr (x, e) ↦ rw (e, All-newest (λ x. newer x r ≡ false) t e a) refl
]

module _ (principal pat_hash : Text) (expires_at : Option Stamp) (capability : Capability) (now : ℕ)
    (s : PatStore) where
  select_live-issued :
      contains principal (principal_match_values principal) ≡ true
      → select_where (live principal) (issued principal pat_hash expires_at capability now s).pats
        ≡ row principal pat_hash expires_at capability now s ∷ []
  unfolding select_where
  select_live-issued own =
      rw
        (
          own,
          select_where_none (live principal)
              (retired principal pat_hash expires_at capability now s)
              (retired_off principal pat_hash expires_at capability now s),
        )
        refl

  retired-IsOrdered :
      IsOrdered now s
      → All
          (λ r. newer r (row principal pat_hash expires_at capability now s) ≡ false)
          (retired principal pat_hash expires_at capability now s)
  unfolding rank
  retired-IsOrdered ordered =
      All-map (λ r. (rank r.created_at ≤ now) × (r.id < s.next_id))
        (λ r. newer r (row principal pat_hash expires_at capability now s) ≡ false)
        (retired principal pat_hash expires_at capability now s) (λ r h. ground arith)
        (All-update_where (λ r. (rank r.created_at ≤ now) × (r.id < s.next_id)) (live principal)
          (revoke now) s.pats (λ r p h. h) ordered)

  newest-issued :
      contains principal (principal_match_values principal) ≡ true
      → IsOrdered now s
      → newest (
          select_where
            (belongs principal)
            (issued principal pat_hash expires_at capability now s).pats)
        ≡ some (row principal pat_hash expires_at capability now s)
  unfolding select_where
  newest-issued own ordered = rw own (
      newest-cons (row principal pat_hash expires_at capability now s)
        (select_where (belongs principal) (retired principal pat_hash expires_at capability now s))
        (All-select_where (belongs principal)
          (λ r. newer r (row principal pat_hash expires_at capability now s) ≡ false)
          (retired principal pat_hash expires_at capability now s) (retired-IsOrdered ordered)))

  pub current_status-issued :
      (t : ℕ)
      → contains principal (principal_match_values principal) ≡ true
      → IsOrdered now s
      → current_status principal t (issued principal pat_hash expires_at capability now s)
        ≡ record {
          state = if expired expires_at t then PatState.lapsed else PatState.active;
          capability = some capability;
          expires_at = parse_dt expires_at;
          last_used_at = none;
        }
  unfolding current_status parse_dt
  current_status-issued t own ordered =
      rw (newest-issued own ordered, current_status, coerce_capability-capability_text capability)
        (ground (arith, coerce_capability-capability_text capability))

  pub revoke_active-eq :
      (t : ℕ)
      → contains principal (principal_match_values principal) ≡ true
      → expired expires_at t ≡ false
      → revoke_active principal t (issued principal pat_hash expires_at capability now s) ≡ (
        true,
        record (issued principal pat_hash expires_at capability now s) {
          pats =
              update_where
                (λ x. x.id == s.next_id)
                (revoke t)
                (issued principal pat_hash expires_at capability now s).pats;
        },
      )
  unfolding revoke_active
  revoke_active-eq t own alive =
      rw
        (
          select_live-issued own,
          newest-cons (row principal pat_hash expires_at capability now s) [] tt,
          revoke_active,
          alive,
        )
        refl

  pub verify-revoked :
      (t t' : ℕ)
      → contains principal (principal_match_values principal) ≡ true
      → expired expires_at t ≡ false
      → (verify pat_hash t'
          (revoke_active principal t (issued principal pat_hash expires_at capability now s)).1).0
        ≡ none
  unfolding verify
  verify-revoked t t' own alive =
      rw
        (
          revoke_active-eq t own alive,
          find-update_where pat_key (λ x. x.id == s.next_id) (revoke t) (λ r. refl) pat_hash
              (issued principal pat_hash expires_at capability now s).pats,
          find-issued_new principal pat_hash expires_at capability now s,
        )
        (ground arith)
