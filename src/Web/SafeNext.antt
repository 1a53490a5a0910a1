-- ===== src/Web/SafeNext.antt =====
-- web/csrf.py: `safe_next` and `safe_lang_return`, the paths that a login or a language switch may return
-- to. `raw` is `none` where it is no text.
pub mod Local
use meme_mcp.Base.{
  ℕ, Bool, true, false, not, ◌&&◌, ◌||◌, Option, none, some, List, [], ◌∷◌, ◌++◌, codes, ltb, leb,
  ◌==◌, Text, text_eq, contains, is_empty, if◌then◌else◌,
}
use meme_mcp.Oauth.Redirect.{SplitResult, urlsplit}

abbrev pub default_next : Text
default_next = codes "/browse"

abbrev pub allowed_next_paths : List Text
allowed_next_paths = codes "/upload" ∷ codes "/browse" ∷ codes "/account" ∷ []

abbrev pub template_detail_prefix : Text
template_detail_prefix = codes "/templates/"

abbrev pub oauth_consent_prefix : Text
oauth_consent_prefix = codes "/oauth/consent/"

abbrev pub lang_return_paths : List Text
lang_return_paths = codes "/" ∷ codes "/upload" ∷ codes "/browse" ∷ codes "/account" ∷ []

abbrev pub lang_default_next : Text
lang_default_next = codes "/"

-- What follows the prefix, if the text starts with it.
unfoldable pub remove_prefix : Text → Text → Option Text
remove_prefix [] s = some s
remove_prefix (c ∷ p) [] = none
remove_prefix (c ∷ p) (x ∷ s) = let rest = remove_prefix p s in if c == x then rest else none

-- `c in s`
unfoldable pub has_char : ℕ → Text → Bool
has_char c [] = false
has_char c (x ∷ s) = x == c || has_char c s

-- `bool(rest) and "/" not in rest and rest not in {".", ".."}`
abbrev pub is_segment : Text → Bool
is_segment rest =
    not (is_empty rest)
    && not (has_char b'/' rest)
    && not (contains rest (codes "." ∷ codes ".." ∷ []))

-- The body of `_is_template_detail` and of `_is_oauth_consent`.
unfoldable pub is_below : Text → Text → Bool
unfolding remove_prefix is_empty has_char contains
is_below prefix path = elim (remove_prefix prefix path) [
  | none ↦ false
  | some rest ↦ is_segment rest
]

unfoldable pub is_template_detail : Text → Bool
unfolding is_below
is_template_detail path = is_below template_detail_prefix path

unfoldable pub is_oauth_consent : Text → Bool
unfolding is_below
is_oauth_consent path = is_below oauth_consent_prefix path

-- `ord(char) <= 0x20 or ord(char) == 0x7F`
abbrev pub is_control : ℕ → Bool
is_control c = leb c 32 || c == 127

unfoldable pub has_control : Text → Bool
has_control [] = false
has_control (c ∷ s) = is_control c || has_control s

-- `raw.startswith("/") and not raw.startswith(("//", "/\\"))`
unfoldable pub is_server_relative : Text → Bool
is_server_relative [] = false
is_server_relative (a ∷ []) = a == b'/'
is_server_relative (a ∷ b ∷ s) = a == b'/' && not (b == b'/' || b == b'\\')

-- The checks on the parts of the URL.
unfoldable pub judge_parts : SplitResult → List Text → Text → Bool → Text
unfolding is_empty contains is_template_detail is_oauth_consent
judge_parts parts allowlist default keep_query =
    if not (is_empty parts.scheme) || not (is_empty parts.netloc)
    then default
    else if not (contains parts.path allowlist)
        && not (is_template_detail parts.path)
        && not (is_oauth_consent parts.path)
    then default
    else if keep_query && not (is_empty parts.query)
    then parts.path ++ (b'?' ∷ parts.query)
    else parts.path

unfoldable pub safe_next : Option Text → List Text → Text → Bool → Text
unfolding is_empty has_control is_server_relative urlsplit judge_parts
safe_next none allowlist default keep_query = default
safe_next (some raw) allowlist default keep_query =
    if is_empty raw
    then default
    else if has_control raw
    then default
    else if not (is_server_relative raw)
    then default
    else judge_parts (urlsplit raw) allowlist default keep_query

unfoldable pub safe_lang_return : Option Text → Text
unfolding safe_next
safe_lang_return raw = safe_next raw lang_return_paths lang_default_next true
