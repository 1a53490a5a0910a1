-- ===== src/Auth/Pat/Issue.antt =====
-- auth/pat.py: `verify_pat` after `issue_pat`, for the token that was issued and for others.
use meme_mcp.Base.{
  ℕ, ◌≡◌, refl, ◌≢◌, Option, none, some, arith, Text, expired, ok, >>=-eq-ok, if◌then◌else◌,
}
use mathlib.Core.Option
use meme_mcp.Base.Table.Keyed.{find}
use meme_mcp.Auth.Authorization.{normalize_principal}
use meme_mcp.Auth.Authorization.Normal.{normalize_idem}
use meme_mcp.Auth.Pat.{
  Capability, read, readwrite, PatRow, PatStore, pat_key, belongs, coerce_capability,
  capability_text, judge_row, judge_found, issue, expiry, issue_pat, verify_pat,
}
use meme_mcp.Auth.Pat.Rows.{row, superseded, find-issued_new, find-issued_other, issue-inv}

pub coerce_capability-capability_text :
    (c : Capability) → coerce_capability (some (capability_text c)) ≡ some c
unfolding coerce_capability
coerce_capability-capability_text read = refl
coerce_capability-capability_text readwrite = refl

-- Of the other tokens, those of the principal are dead, and the rest is judged as before.
abbrev pub judge_other : Text → ℕ → Option PatRow → Option (Text × Capability)
judge_other principal t none = none
judge_other principal t (some r) = if belongs principal r then none else judge_row t r

module _ (hash : Text → Text) (login plaintext : Text) (ttl_days : Option ℕ)
    (capability : Capability) (now later : ℕ) (s : PatStore) where
  pub issue_pat-inv :
      {p : Text} {s' : PatStore}
      → issue_pat hash login ttl_days capability plaintext now later s ≡ ok (p, s')
      → (p ≡ plaintext)
        × (issue login (hash plaintext) (expiry ttl_days now) capability later s ≡ ok s')
  unfolding issue_pat
  issue_pat-inv h =
      let (s1, i, e) =
        >>=-eq-ok (issue login (hash plaintext) (expiry ttl_days now) capability later s) _ h in
      (cc e, cc (i, e))

  -- The row that `issue` makes verifies.
  judge_row-new :
      (principal : Text) (t : ℕ)
      → normalize_principal principal ≡ ok principal
      → judge_row t (row principal (hash plaintext) (expiry ttl_days now) capability later s)
        ≡ (if expired (expiry ttl_days now) t then none else some (principal, capability))
  unfolding judge_row
  judge_row-new principal t n = rw (coerce_capability-capability_text capability, n) (ground arith)

  judge_row-superseded :
      (principal : Text) (t : ℕ) (r : PatRow)
      → judge_row t
          (superseded principal (hash plaintext) (expiry ttl_days now) capability later s r)
        ≡ (if belongs principal r then none else judge_row t r)
  unfolding judge_row
  judge_row-superseded principal t r = ground arith

  judge_found-superseded :
      (principal : Text) (t : ℕ) (o : Option PatRow)
      → judge_found t (
          Option.map
            (superseded principal (hash plaintext) (expiry ttl_days now) capability later s)
            o)
        ≡ judge_other principal t o
  judge_found-superseded principal t none = refl
  judge_found-superseded principal t (some r) = judge_row-superseded principal t r

  module _ {p : Text} {s' : PatStore}
      (h : issue_pat hash login ttl_days capability plaintext now later s ≡ ok (p, s')) where
    -- A token that was issued verifies as the friend's principal with the capability that was asked
    -- for, until it expires.
    pub issue_pat-verifies :
        (principal : Text) × (normalize_principal login ≡ ok principal)
        × ((t : ℕ)
            → (verify_pat hash p t s').0
              ≡ (if expired (expiry ttl_days now) t then none else some (principal, capability)))
    unfolding verify_pat
    issue_pat-verifies =
        let (same, i) = issue_pat-inv h in
        let (principal, n, e) =
          issue-inv login (hash plaintext) (expiry ttl_days now) capability later s i in
        (
          principal,
          n,
          λ t.
              rw
                (
                  same,
                  e,
                  find-issued_new principal (hash plaintext) (expiry ttl_days now) capability later
                      s,
                )
                (judge_row-new principal t (normalize_idem login principal n)),
        )

    -- Issuing a token supersedes the others: every other token of the same friend stops to verify, those
    -- stored under the bare login too, and the tokens of other friends verify as before.
    pub issue_pat-supersedes :
        (principal : Text) × (normalize_principal login ≡ ok principal)
        × ((other : Text) (t : ℕ)
            → hash other ≢ hash plaintext
            → (verify_pat hash other t s').0
              ≡ judge_other principal t (find pat_key (hash other) s.pats))
    unfolding verify_pat
    issue_pat-supersedes =
        let (same, i) = issue_pat-inv h in
        let (principal, n, e) =
          issue-inv login (hash plaintext) (expiry ttl_days now) capability later s i in
        (
          principal,
          n,
          λ other t ne.
              rw
                (
                  e,
                  find-issued_other principal (hash plaintext) (expiry ttl_days now) capability
                      later s (hash other) ne,
                )
                (judge_found-superseded principal t (find pat_key (hash other) s.pats)),
        )
