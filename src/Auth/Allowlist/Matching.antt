-- ===== src/Auth/Allowlist/Matching.antt =====
-- auth/allowlist.py: which lines of the file `is_allowlisted` goes by.
use meme_mcp.Base.{
  ◌≡◌, ◌≢◌, ◌↔◌, ◌⊎◌, ◌==◌, codes, refl, Bool, true, false, ◌&&◌, ◌||◌, some, List, [], ◌∷◌, ◌++◌,
  Text, text_eq, text_eq_iff, contains, All, strip, lower, partition, partition-absent,
  partition-before, partition-head, parted, unparted, strip-strip, is_empty, sym, ap, ◌∙◌, arith,
  text_eq_refl, ==_iff, lower_char, Bool-cases, inl, inr,
}
use meme_mcp.Auth.Authorization.{colon, github, google}
use meme_mcp.Auth.Allowlist.{
  Entry, nothing, github_login, google_mailbox, canonical_email, splitlines, entry_parts,
  starts_comment, entry_of, add_entry, parsed_lines, parsed, asked, judge, is_allowlisted,
}
use meme_mcp.Auth.Allowlist.Lines.{IsLine, splitlines-line}

-- Whether an entry allows a subject of a provider.
abbrev pub allows : Text × Text → Entry → Bool
allows (provider, subject) nothing = false
allows (provider, subject) (github_login login) =
    text_eq provider github && text_eq (lower (strip subject)) login
allows (provider, subject) (google_mailbox mailbox) =
    text_eq provider google && text_eq (canonical_email subject) mailbox

github-google : (p : Text) → text_eq p github ≡ true → text_eq p google ≡ false
unfolding text_eq
github-google p h = rw ((text_eq_iff p github).0 h) refl

judge-add_entry :
    (q : Text × Text) (e : Entry) (sets : List Text × List Text)
    → judge q (add_entry e sets) ≡ (allows q e || judge q sets)
unfolding contains
judge-add_entry q nothing sets = refl
judge-add_entry (provider, subject) (github_login login) (logins, mailboxes) =
    elim (Bool-cases (text_eq provider github)) [ inl g ↦ rw g refl | inr g ↦ rw g refl ]
judge-add_entry (provider, subject) (google_mailbox mailbox) (logins, mailboxes) =
    elim (Bool-cases (text_eq provider github)) [
      | inl g ↦ rw (g, github-google provider g) refl
      | inr g ↦ elim (Bool-cases (text_eq provider google)) [
        | inl h ↦ rw (g, h) refl
        | inr h ↦ rw (g, h) refl
      ]
    ]

is_allowlisted-entry :
    (value line t : Text)
    → IsLine line
    → is_allowlisted value (some (line ++ (10 ∷ t))) ≡ (
        allows (asked (partition colon value) value) (entry_of line)
        || is_allowlisted value (some t))
unfolding is_allowlisted parsed parsed_lines
is_allowlisted-entry value line t h = rw (splitlines-line line t h) (
    judge-add_entry (asked (partition colon value) value) (entry_of line)
      (parsed_lines (splitlines t)))

-- What a text names, of a provider: behind the first colon, or, without a colon, a GitHub login.
pub data Names (text : Text) (provider subject : Text) : Type 0 where
  bare :
      All (λ c. (c == colon) ≡ false) text
      → provider ≡ codes "github"
      → subject ≡ text
      → Names text provider subject
  namespaced :
      All (λ c. (c == colon) ≡ false) provider
      → text ≡ provider ++ (colon ∷ subject)
      → Names text provider subject

-- The line, which is no comment and not blank, and the value name one subject of one provider: a login
-- of GitHub, without its case and blanks, or a mailbox of Google, in its canonical form. The provider of
-- the line may be in any case.
pub record Allows (line value : Text) : Type 0 where
  pub not_blank : strip line ≢ []
  pub no_comment : (t : Text) → strip line ≢ b'#' ∷ t
  pub line_provider : Text
  pub line_subject : Text
  pub provider : Text
  pub subject : Text
  pub of_line : Names (strip line) line_provider line_subject
  pub of_value : Names value provider subject
  pub same_provider : lower line_provider ≡ provider
  pub same_subject :
      ((provider ≡ codes "github") × (lower (strip subject) ≡ lower (strip line_subject)))
      ⊎ ((provider ≡ codes "google") × (canonical_email subject ≡ canonical_email line_subject))

asked-Names :
    (text : Text)
    → Names text (asked (partition colon text) text).0 (asked (partition colon text) text).1
asked-Names text = elim (Bool-cases (partition colon text).1) [
  | inl e ↦ rw e (namespaced (partition-head colon text) (parted colon text e))
  | inr e ↦ rw e (bare (rw (sym (unparted colon text e).0) (partition-head colon text)) refl refl)
]

Names-asked :
    (text provider subject : Text)
    → Names text provider subject
    → asked (partition colon text) text ≡ (provider, subject)
Names-asked text provider subject (bare n p q) = rw (partition-absent colon text n, p, q) refl
Names-asked text provider subject (namespaced n e) =
    rw e (rw (partition-before colon provider subject n) refl)

-- Two names of one subject, the provider of the first in any case.
abbrev Same : Text × Text → Text × Text → Type 0
Same (line_provider, line_subject) (provider, subject) =
    (lower line_provider ≡ provider)
    × (((provider ≡ codes "github") × (lower (strip subject) ≡ lower (strip line_subject)))
        ⊎ ((provider ≡ codes "google") × (canonical_email subject ≡ canonical_email line_subject)))

lower-github : lower github ≡ github
unfolding lower lower_char
lower-github = refl

google-github : text_eq google github ≡ false
unfolding text_eq
google-github = refl

both : {a b c d : Text} → (text_eq a b && text_eq c d) ≡ true → (a ≡ b) × (c ≡ d)
both {a} {b} {c} {d} h =
    ((text_eq_iff a b).0 (ground (arith, h)), (text_eq_iff c d).0 (ground (arith, h)))

both_equal : {a b c d : Text} → a ≡ b → c ≡ d → (text_eq a b && text_eq c d) ≡ true
both_equal {a} {b} {c} {d} p q = ground (arith, (text_eq_iff a b).1 p, (text_eq_iff c d).1 q)

allows-Same :
    (q : Text × Text) (l : Text) (parts : Text × Bool × Text)
    → strip l ≡ l
    → allows q (entry_parts l parts) ≡ true
    → Same (asked parts l) q
unfolding entry_parts
allows-Same (provider, subject) l (before, false, after) stripped h =
    let (p, e) = both h in (lower-github ∙ sym p, inl (p, e ∙ ap lower (sym stripped)))
allows-Same (provider, subject) l (before, true, after) stripped h =
    elim (Bool-cases (text_eq (lower before) github)) [
      | inl g ↦
          let (p, e) = both (rw g at h) in
          ((text_eq_iff (lower before) github).0 g ∙ sym p, inl (p, e))
      | inr g ↦ elim (Bool-cases (text_eq (lower before) google)) [
        | inl f ↦
            let (p, e) = both (rw (g, f) at h) in
            ((text_eq_iff (lower before) google).0 f ∙ sym p, inr (p, e))
        | inr f ↦ let k : false ≡ true = rw (g, f) at h in absurd (cc)
      ]
    ]

Same-allows :
    (q : Text × Text) (l : Text) (parts : Text × Bool × Text)
    → strip l ≡ l
    → Same (asked parts l) q
    → allows q (entry_parts l parts) ≡ true
unfolding entry_parts
Same-allows (provider, subject) l (before, false, after) stripped (e, inl (p, q)) =
    both_equal p (q ∙ ap lower stripped)
Same-allows (provider, subject) l (before, false, after) stripped (e, inr (p, q)) =
    let same : github ≡ google = sym lower-github ∙ e ∙ p in
    let equal : text_eq google github ≡ true = (text_eq_iff google github).1 (sym same) in
    absurd (cc (equal, google-github))
Same-allows (provider, subject) l (before, true, after) stripped (e, inl (p, q)) =
    let named : text_eq (lower before) github ≡ true =
      (text_eq_iff (lower before) github).1 (e ∙ p) in
    rw named (both_equal p q)
Same-allows (provider, subject) l (before, true, after) stripped (e, inr (p, q)) =
    let named : lower before ≡ google = e ∙ p in
    rw (named, google-github, text_eq_refl google) (both_equal p q)

-- What `entry_of` takes for an entry.
module _ (value line : Text) where
  abbrev asks : Text × Text
  asks = asked (partition colon value) value

  entry_of-Allows : allows asks (entry_of line) ≡ true → Allows line value
  unfolding entry_of is_empty
  entry_of-Allows h = elim (Bool-cases (is_empty (strip line) || starts_comment (strip line))) [
    | inl e ↦ let k : false ≡ true = rw e at h in absurd (cc)
    | inr e ↦
        let same =
          allows-Same asks (strip line) (partition colon (strip line)) (strip-strip line)
            (rw e at h) in
        record {
          not_blank = λ b. absurd (ground (arith, e, b));
          no_comment = λ t c. absurd (ground (arith, e, c));
          line_provider = (asked (partition colon (strip line)) (strip line)).0;
          line_subject = (asked (partition colon (strip line)) (strip line)).1;
          provider = asks.0;
          subject = asks.1;
          of_line = asked-Names (strip line);
          of_value = asked-Names value;
          same_provider = same.0;
          same_subject = same.1;
        }
  ]

  is_entry :
      (l : Text) → l ≢ [] → ((t : Text) → l ≢ b'#' ∷ t) → (is_empty l || starts_comment l) ≡ false
  unfolding is_empty
  is_entry [] n c = absurd (n refl)
  is_entry (x ∷ l) n c = elim (Bool-cases (x == b'#')) [
    | inl e ↦ absurd (c l (ap (λ y. y ∷ l) ((==_iff x b'#').0 e)))
    | inr e ↦ e
  ]

  Allows-entry_of : Allows line value → allows asks (entry_of line) ≡ true
  unfolding entry_of
  Allows-entry_of a =
      let named = Names-asked (strip line) a.line_provider a.line_subject a.of_line in
      let meant = Names-asked value a.provider a.subject a.of_value in
      rw (is_entry (strip line) a.not_blank a.no_comment) (
        Same-allows asks (strip line) (partition colon (strip line)) (strip-strip line)
          (rw (named, meant) (a.same_provider, a.same_subject)))

-- A value is allowlisted by a file with one line more exactly if that line allows it or the rest does. A
-- line that is blank or a comment allows nothing. Any other allows values of its own provider only: a
-- GitHub value by the login, without its case and blanks, and a Google value by the canonical mailbox;
-- what has no colon is a GitHub login. The line holds no line break.
pub is_allowlisted-line :
    (value line t : Text)
    → IsLine line
    → (is_allowlisted value (some (line ++ (10 ∷ t))) ≡ true)
      ↔ (Allows line value ⊎ (is_allowlisted value (some t) ≡ true))
is_allowlisted-line value line t h =
    let entry = is_allowlisted-entry value line t h in
    (
      λ e. elim (Bool-cases (allows (asks value line) (entry_of line))) [
        | inl a ↦ inl (entry_of-Allows value line a)
        | inr a ↦ inr (ground (arith, e, entry, a))
      ],
      λ either. elim either [
        | inl a ↦ entry ∙ rw (Allows-entry_of value line a) refl
        | inr r ↦ entry ∙ ground (arith, r)
      ],
    )
