-- ===== src/Auth/Authorization.antt =====
-- auth/authorization.py: principals, their stored forms, and the authorization predicate.
pub mod Normal
pub mod Forms
use meme_mcp.Base.{
  ℕ, ◌≡◌, Bool, true, false, ◌&&◌, ◌||◌, not, Option, none, some, List, [], ◌∷◌, ◌++◌, arith, codes,
  Text, text_eq, contains, Result, ok, err, value_error, ◌>>=◌, ◌==◌, leb, if◌then◌else◌, strip,
  is_empty, partition,
}

abbrev pub colon : ℕ
colon = b':'

abbrev pub github : Text
github = codes "github"

abbrev pub google : Text
google = codes "google"

-- `f"{provider}:{subject}"`
abbrev pub named : Text → Text → Text
named provider subject = provider ++ (colon ∷ subject)

-- `^[A-Za-z0-9_-]+$`
unfoldable pub is_login_char : ℕ → Bool
is_login_char c =
    (leb b'A' c && leb c b'Z')
    || (leb b'a' c && leb c b'z')
    || (leb b'0' c && leb c b'9')
    || c == b'_'
    || c == b'-'

unfoldable pub all_login_chars : Text → Bool
unfolding is_login_char
all_login_chars [] = true
all_login_chars (c ∷ cs) = is_login_char c && all_login_chars cs

abbrev pub is_login : Text → Bool
is_login s = not (is_empty s) && all_login_chars s

abbrev pub known_provider : Text → Bool
known_provider p = contains p (github ∷ google ∷ [])

-- The two halves of `normalize_principal`: a candidate with a namespace, and a bare one.
unfoldable pub judge_candidate : Text → Text × Bool × Text → Result Text
unfolding is_empty all_login_chars contains
judge_candidate candidate (provider, true, subject) =
    if not (known_provider provider) || is_empty subject then err value_error else ok candidate
judge_candidate candidate (provider, false, subject) =
    if not (is_login candidate) then err value_error else ok (named github candidate)

unfoldable pub normalize_principal : Text → Result Text
unfolding strip is_empty partition judge_candidate
normalize_principal value =
    let candidate = strip value in
    if is_empty candidate
    then err value_error
    else judge_candidate candidate (partition colon candidate)

-- `principal_match_values`, where the value normalizes.
unfoldable pub forms : Text → Text → List Text
unfolding partition contains is_empty text_eq
forms value principal =
    let (provider, _, subject) = partition colon principal in
    let values = if not (text_eq value principal) then principal ∷ value ∷ [] else principal ∷ [] in
    if text_eq provider github && not (is_empty subject) && not (contains subject values)
    then values ++ (subject ∷ [])
    else values

unfoldable pub principal_match_values : Text → List Text
unfolding normalize_principal forms
principal_match_values value = elim (normalize_principal value) [
  | err _ ↦ value ∷ []
  | ok principal ↦ forms value principal
]

-- `pin_store.email_for_sub`, if Google sign-in is on.
abbrev pub PinLookup : Type 0
PinLookup = Option (Text → Option Text)

unfoldable pub display_label : Text → PinLookup → Text
unfolding partition is_empty text_eq
display_label principal pins =
    let (provider, _, subject) = partition colon principal in
    let fallback = if is_empty subject then principal else subject in
    if text_eq provider google
    then elim pins [
      | none ↦ fallback
      | some email_for_sub ↦ elim (email_for_sub subject) [ none ↦ fallback | some email ↦ email ]
    ]
    else fallback

-- The `google` branch of `is_authorized`.
unfoldable pub pinned_mailbox_allowed : Text → (Text → Bool) → PinLookup → Bool
unfolding is_empty
pinned_mailbox_allowed subject is_allowlisted none = false
pinned_mailbox_allowed subject is_allowlisted (some email_for_sub) =
    if is_empty subject then false else elim (email_for_sub subject) [
      | none ↦ false
      | some email ↦ is_allowlisted (named google email)
    ]

unfoldable pub is_authorized : Text → (Text → Bool) → PinLookup → Bool
unfolding partition is_empty text_eq pinned_mailbox_allowed
is_authorized principal is_allowlisted pins =
    let (provider, _, subject) = partition colon principal in
    if text_eq provider github
    then not (is_empty subject) && is_allowlisted subject
    else if text_eq provider google
    then pinned_mailbox_allowed subject is_allowlisted pins
    else false
