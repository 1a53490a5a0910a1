-- ===== src/Auth/Allowlist.antt =====
-- auth/allowlist.py: `FileAllowlist` and `canonical_email`. The file is `none` where it does not exist,
-- and its text otherwise, as `read_text` gives it: every line break of the file is a newline there.
pub mod Matching
pub mod Removal
pub mod Lines
use meme_mcp.Base.{
  ℕ, Bool, true, false, ◌&&◌, ◌||◌, not, Option, none, some, List, [], ◌∷◌, ◌++◌, codes, Text,
  text_eq, contains, sorted_set, ◌==◌, leb, if◌then◌else◌, strip, lower, partition, is_empty,
}
use meme_mcp.Auth.Authorization.{colon, github, google}

abbrev pub gmail_domains : List Text
gmail_domains = codes "gmail.com" ∷ codes "googlemail.com" ∷ []

-- `s.replace(".", "")`
unfoldable pub drop_dots : Text → Text
drop_dots [] = []
drop_dots (c ∷ s) = let rest = drop_dots s in if c == b'.' then rest else c ∷ rest

-- `local.split("+", 1)[0].replace(".", "")`, for a Gmail domain.
abbrev pub canonical_local : Text → Text → Text
canonical_local local domain =
    if contains domain gmail_domains then drop_dots (partition b'+' local).0 else local

unfoldable pub canonical_parts : Text → Text × Bool × Text → Text
unfolding drop_dots
canonical_parts address (local, false, domain) = address
canonical_parts address (local, true, domain) = canonical_local local domain ++ (b'@' ∷ domain)

unfoldable pub canonical_email : Text → Text
unfolding canonical_parts
canonical_email email =
    let address = lower (strip email) in canonical_parts address (partition b'@' address)

-- The line breaks of `splitlines`.
unfoldable pub is_line_break : ℕ → Bool
is_line_break c =
    (leb 10 c && leb c 13) || (leb 28 c && leb c 30) || c == 133 || c == 8232 || c == 8233

abbrev pub begin_line : ℕ → List Text → List Text
begin_line c [] = (c ∷ []) ∷ []
begin_line c (line ∷ lines) = (c ∷ line) ∷ lines

unfoldable pub splitlines : Text → List Text
unfolding is_line_break
splitlines [] = []
splitlines (c ∷ t) =
    let rest = splitlines t in if is_line_break c then [] ∷ rest else begin_line c rest

abbrev pub starts_comment : Text → Bool
starts_comment [] = false
starts_comment (c ∷ t) = c == b'#'

-- What a line of the file allows.
pub data Entry : Type 0 where
  nothing : Entry
  github_login google_mailbox : Text → Entry

unfoldable pub entry_parts : Text → Text × Bool × Text → Entry
unfolding canonical_email
entry_parts line (provider, false, subject) = github_login (lower line)
entry_parts line (provider, true, subject) =
    if text_eq (lower provider) github
    then github_login (lower (strip subject))
    else if text_eq (lower provider) google
    then google_mailbox (canonical_email subject)
    else nothing

unfoldable pub entry_of : Text → Entry
unfolding entry_parts
entry_of raw =
    let line = strip raw in
    if is_empty line || starts_comment line
    then nothing
    else entry_parts line (partition colon line)

abbrev pub add_entry : Entry → List Text × List Text → List Text × List Text
add_entry nothing sets = sets
add_entry (github_login login) (logins, mailboxes) = (login ∷ logins, mailboxes)
add_entry (google_mailbox mailbox) (logins, mailboxes) = (logins, mailbox ∷ mailboxes)

unfoldable pub parsed_lines : List Text → List Text × List Text
unfolding entry_of
parsed_lines [] = ([], [])
parsed_lines (line ∷ lines) = add_entry (entry_of line) (parsed_lines lines)

-- `_parsed`
unfoldable pub parsed : Option Text → List Text × List Text
unfolding parsed_lines splitlines
parsed none = ([], [])
parsed (some text) = parsed_lines (splitlines text)

-- The provider and the subject that a value asks for.
abbrev pub asked : Text × Bool × Text → Text → Text × Text
asked (provider, true, subject) value = (provider, subject)
asked (provider, false, subject) value = (github, value)

-- The test of a provider's subject against the two sets.
abbrev pub judge : Text × Text → List Text × List Text → Bool
judge (provider, subject) (logins, mailboxes) =
    if text_eq provider github
    then contains (lower (strip subject)) logins
    else if text_eq provider google
    then contains (canonical_email subject) mailboxes
    else false

unfoldable pub is_allowlisted : Text → Option Text → Bool
unfolding parsed canonical_email
is_allowlisted value file = judge (asked (partition colon value) value) (parsed file)

unfoldable pub listed : List Text → List Text
listed [] = []
listed (line ∷ lines) =
    let rest = listed lines in
    if not (is_empty (strip line)) && not (starts_comment line)
    then lower (strip line) ∷ rest
    else rest

unfoldable pub entries : Option Text → List Text
unfolding listed splitlines
entries none = []
entries (some text) = sorted_set (listed (splitlines text))

-- `_canonical_entry`
unfoldable pub canonical_entry : Text → Text
unfolding canonical_email
canonical_entry entry =
    let value = lower (strip entry) in
    let (provider, sep, subject) = partition colon value in
    if sep && text_eq provider google then codes "google:" ++ canonical_email subject else value

-- `_write`
unfoldable pub write : List Text → Text
write [] = []
write (entry ∷ entries) = entry ++ (10 ∷ write entries)

unfoldable pub add : Text → Option Text → Option Text
unfolding canonical_entry entries write
add entry file =
    let value = canonical_entry entry in
    if is_empty value then file else some (write (sorted_set (value ∷ entries file)))

unfoldable pub discard : Text → List Text → List Text
discard value [] = []
discard value (x ∷ xs) = let rest = discard value xs in if text_eq x value then rest else x ∷ rest

unfoldable pub remove : Text → Option Text → Option Text
unfolding canonical_entry entries write discard
remove entry file = some (write (sorted_set (discard (canonical_entry entry) (entries file))))
