-- ===== src/Examples/Accounts.antt =====
-- Principals, personal tokens and pins at concrete inputs.
use meme_mcp.Base.{
  ◌⊎◌, contains, sorted_set, lower, strip, lower_char, false, text_eq, List, All, partition, ◌++◌,
  ℕ, ◌≡◌, refl, ◌≢◌, ◌↔◌, true, none, some, [], ◌∷◌, arith, Text, codes, ok, expired, if◌then◌else◌,
  is_space, is_empty,
}
use meme_mcp.Base.Table.{update_where}
use meme_mcp.Base.Table.Keyed.{find}
use meme_mcp.Auth.Authorization.{normalize_principal}
use meme_mcp.Auth.Allowlist.{is_line_break, is_allowlisted}
use meme_mcp.Auth.Allowlist.Matching.{Allows, is_allowlisted-line}
use meme_mcp.Auth.Allowlist.Lines.{IsLine}
use meme_mcp.Auth.Allowlist.{add, remove}
use meme_mcp.Auth.Pat.{
  PatStore, read, pat_key, expiry, new_row, issue, supersede, issue_pat, verify_pat,
}
use meme_mcp.Auth.Pat.Issue.{judge_other, issue_pat-verifies, issue_pat-supersedes}
use meme_mcp.Auth.GooglePins.FirstWins.{create_pin-first_wins}
use meme_mcp.Auth.GooglePins.{insert_or_ignore, Pins, create_pin, email_for_sub, sub_for_email}
use meme_mcp.Auth.GooglePins.FirstWins
use meme_mcp.Auth.GooglePins.FirstWins.{pins_are_mutual}

abbrev no_pats : PatStore
no_pats = record { pats = []; next_id = 1 }

abbrev with_pat : PatStore
with_pat = record {
  pats = new_row (codes "github:ada") (9 ∷ []) (expiry (some 1) 0) read 1 no_pats ∷ [];
  next_id = 2;
}

issues : issue_pat (λ t. t) (codes "ada") (some 1) read (9 ∷ []) 0 1 no_pats ≡ ok (9 ∷ [], with_pat)
unfolding issue_pat issue supersede normalize_principal is_space find update_where
issues = refl

issue_pat-verifies_example :
    (principal : Text) × (normalize_principal (codes "ada") ≡ ok principal)
    × ((t : ℕ)
        → (verify_pat (λ h. h) (9 ∷ []) t with_pat).0
          ≡ (if expired (expiry (some 1) 0) t then none else some (principal, read)))
issue_pat-verifies_example =
    issue_pat-verifies (λ t. t) (codes "ada") (9 ∷ []) (some 1) read 0 1 no_pats issues

issue_pat-supersedes_example :
    (principal : Text) × (normalize_principal (codes "ada") ≡ ok principal)
    × ((other : Text) (t : ℕ)
        → other ≢ 9 ∷ []
        → (verify_pat (λ h. h) other t with_pat).0
          ≡ judge_other principal t (find pat_key other no_pats.pats))
issue_pat-supersedes_example =
    issue_pat-supersedes (λ t. t) (codes "ada") (9 ∷ []) (some 1) read 0 1 no_pats issues

abbrev pinned : Pins
pinned = (create_pin (5 ∷ []) (6 ∷ []) 1 []).1

pins_are_mutual_example :
    (email_for_sub (5 ∷ []) pinned ≡ some (6 ∷ []))
    ↔ (sub_for_email (6 ∷ []) pinned ≡ some (5 ∷ []))
pins_are_mutual_example =
    pins_are_mutual pinned (5 ∷ []) (6 ∷ [])
      (FirstWins.Reach.next FirstWins.Reach.here (FirstWins.Step.creates (5 ∷ []) (6 ∷ []) 1 refl))

owner : sub_for_email (6 ∷ []) pinned ≡ some (5 ∷ [])
unfolding sub_for_email create_pin insert_or_ignore find text_eq
owner = refl

create_pin-first_wins_example :
    (create_pin (5 ∷ []) (6 ∷ []) 2 pinned ≡ (true, pinned))
    × (◌≢◌ {A = Text} (8 ∷ []) (5 ∷ []) → create_pin (8 ∷ []) (6 ∷ []) 2 pinned ≡ (false, pinned))
create_pin-first_wins_example =
    create_pin-first_wins pinned (5 ∷ []) (6 ∷ []) (8 ∷ []) 2
      (FirstWins.Reach.next FirstWins.Reach.here (FirstWins.Step.creates (5 ∷ []) (6 ∷ []) 1 refl))
      owner

abbrev invited : List Text
invited = codes "ada" ∷ codes "google:a.b@gmail.com" ∷ []

invited-IsLine : All IsLine invited
unfolding is_line_break
invited-IsLine = (ground arith, (ground arith, tt))

is_allowlisted-line_example :
    (is_allowlisted
        (codes "google:AB+x@gmail.com")
        (some (codes "google:a.b@gmail.com" ++ (10 ∷ codes "ada")))
      ≡ true)
    ↔ (Allows (codes "google:a.b@gmail.com") (codes "google:AB+x@gmail.com")
        ⊎ (is_allowlisted (codes "google:AB+x@gmail.com") (some (codes "ada")) ≡ true))
is_allowlisted-line_example =
    is_allowlisted-line (codes "google:AB+x@gmail.com") (codes "google:a.b@gmail.com") (codes "ada")
      invited-IsLine.1.0

-- The two forms of a GitHub entry are different entries: the removal of one leaves the other.
remove-other_form :
    is_allowlisted (codes "ada") (remove (codes "ada") (add (codes "github:ada") none)) ≡ true
unfolding is_allowlisted text_eq partition contains remove sorted_set add is_empty lower strip
    is_space lower_char
remove-other_form = refl
