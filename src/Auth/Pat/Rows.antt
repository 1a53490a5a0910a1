-- ===== src/Auth/Pat/Rows.antt =====
-- auth/pat.py: the rows that `issue` leaves in the table.
use meme_mcp.Base.{
  ℕ, ◌+◌, ◌≡◌, refl, sym, ◌≢◌, false, Option, none, some, List, ◌∷◌, arith, Text, text_eq_refl,
  text_eq_of_ne, Stamp, All, ok, >>=-eq-ok, if◌then◌else◌,
}
use mathlib.Core.Option
use meme_mcp.Base.Table.{update_where, All-update_where_off}
use meme_mcp.Base.Table.Keyed.{find, find-cons, find-update_where}
use meme_mcp.Auth.Authorization.{normalize_principal}
use meme_mcp.Auth.Pat.{
  Capability, PatRow, PatStore, pat_key, live, revoke, new_row, supersede, issue,
}

module _ (principal pat_hash : Text) (expires_at : Option Stamp) (capability : Capability) (now : ℕ)
    (s : PatStore) where
  abbrev pub retired : List PatRow
  retired = update_where (live principal) (revoke now) s.pats

  abbrev pub row : PatRow
  row = new_row principal pat_hash expires_at capability now s

  abbrev pub issued : PatStore
  issued = record { pats = row ∷ retired; next_id = s.next_id + 1 }

  supersede-inv :
      {s' : PatStore}
      → supersede principal pat_hash expires_at capability now s ≡ ok s'
      → (find pat_key pat_hash retired ≡ none) × (s' ≡ issued)
  unfolding supersede
  supersede-inv h = ground arith

  -- None of the older rows is live.
  pub retired_off : All (λ r. live principal r ≡ false) retired
  retired_off = All-update_where_off (live principal) (revoke now) s.pats (λ r. ground arith)

  pub find-issued_new : find pat_key pat_hash issued.pats ≡ some row
  find-issued_new = rw (find-cons pat_key, text_eq_refl) refl

  abbrev pub superseded : PatRow → PatRow
  superseded r = if live principal r then revoke now r else r

  pub find-issued_other :
      (h : Text)
      → h ≢ pat_hash
      → find pat_key h issued.pats ≡ Option.map superseded (find pat_key h s.pats)
  find-issued_other h ne =
      rw (find-cons pat_key, text_eq_of_ne pat_hash h (λ e. ne (sym e)))
        (find-update_where pat_key (live principal) (revoke now) (λ r. refl) h s.pats)

-- A call that does not raise has normalized the login, and has made these rows.
pub issue-inv :
    (login pat_hash : Text) (expires_at : Option Stamp) (capability : Capability) (now : ℕ)
    (s : PatStore) {s' : PatStore}
    → issue login pat_hash expires_at capability now s ≡ ok s'
    → (principal : Text) × (normalize_principal login ≡ ok principal)
      × (s' ≡ issued principal pat_hash expires_at capability now s)
unfolding issue
issue-inv login pat_hash expires_at capability now s h =
    let (principal, n, m) = >>=-eq-ok (normalize_principal login) _ h in
    (principal, n, (supersede-inv principal pat_hash expires_at capability now s m).1)
