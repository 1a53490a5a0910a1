-- ===== src/Oauth/Redirect.antt =====
-- oauth/provider.py: `_validate_redirect_uri`, with what it uses of `urllib.parse.urlsplit`. The text is
-- what pydantic's URL type prints, which has no blanks and no control characters, and whose brackets
-- match, so that `urlsplit` strips nothing and does not raise.
use meme_mcp.Base.{
  ℕ, Bool, true, false, ◌&&◌, ◌||◌, not, List, [], ◌∷◌, ◌++◌, codes, Text, text_eq, contains, ◌==◌,
  leb, lower, partition, is_empty, Result, ok, err, invalid_redirect_uri, ◌>>=◌, if◌then◌else◌,
}

abbrev pub is_letter : ℕ → Bool
is_letter c = (leb b'A' c && leb c b'Z') || (leb b'a' c && leb c b'z')

-- `scheme_chars`
abbrev pub is_scheme_char : ℕ → Bool
is_scheme_char c = is_letter c || (leb b'0' c && leb c b'9') || c == b'+' || c == b'-' || c == b'.'

unfoldable pub all_scheme_chars : Text → Bool
all_scheme_chars [] = true
all_scheme_chars (c ∷ s) = is_scheme_char c && all_scheme_chars s

abbrev pub is_scheme : Text → Bool
is_scheme [] = false
is_scheme (c ∷ s) = is_letter c && all_scheme_chars (c ∷ s)

-- The scheme and the rest, from the parts before and after the first `:`.
unfoldable pub split_scheme : Text → Text × Bool × Text → Text × Text
unfolding lower all_scheme_chars
split_scheme url (before, found, after) =
    if found && is_scheme before then (lower before, after) else ([], url)

abbrev pub ends_netloc : ℕ → Bool
ends_netloc c = c == b'/' || c == b'?' || c == b'#'

unfoldable pub cut_netloc : Text → Text × Text
cut_netloc [] = ([], [])
cut_netloc (c ∷ s) =
    let (netloc, rest) = cut_netloc s in if ends_netloc c then ([], c ∷ s) else (c ∷ netloc, rest)

-- `_splitnetloc`, where the rest begins with `//`.
unfoldable pub split_netloc : Text → Text × Text
unfolding cut_netloc
split_netloc [] = ([], [])
split_netloc (a ∷ []) = ([], a ∷ [])
split_netloc (a ∷ b ∷ s) = if a == b'/' && b == b'/' then cut_netloc s else ([], a ∷ b ∷ s)

pub record SplitResult : Type 0 where
  pub scheme : Text
  pub netloc : Text
  pub path : Text
  pub query : Text
  pub fragment : Text

unfoldable pub urlsplit : Text → SplitResult
unfolding split_scheme split_netloc partition
urlsplit url =
    let (scheme, rest) = split_scheme url (partition b':' url) in
    let (netloc, reference) = split_netloc rest in
    let (target, _, fragment) = partition b'#' reference in
    let (path, _, query) = partition b'?' target in
    record { scheme = scheme; netloc = netloc; path = path; query = query; fragment = fragment }

-- `netloc.rpartition("@")[2]`
unfoldable pub after_last : ℕ → Text → Text
unfolding partition
after_last c [] = []
after_last c (x ∷ s) =
    let rest = after_last c s in
    let (_, found, _) = partition c s in if found then rest else if x == c then s else x ∷ s

-- `hostname` of a host, with its port or its brackets.
abbrev pub bare_host : Text × Bool × Text → Text
bare_host (host, false, _) = (partition b':' host).0
bare_host (_, true, bracketed) = (partition b']' bracketed).0

-- `parsed.hostname`; no host is the empty text here. A zone behind `%` keeps its case.
unfoldable pub hostname : Text → Text
unfolding after_last partition lower
hostname netloc =
    let host = bare_host (partition b'[' (after_last b'@' netloc)) in
    let (name, found, zone) = partition b'%' host in
    if found then lower name ++ (b'%' ∷ zone) else lower name

abbrev pub loopback_hosts : List Text
loopback_hosts = codes "localhost" ∷ codes "127.0.0.1" ∷ codes "::1" ∷ []

unfoldable pub has_wildcard : Text → Bool
has_wildcard [] = false
has_wildcard (c ∷ s) = c == b'*' || has_wildcard s

abbrev pub secure : SplitResult → Bool
secure parsed =
    text_eq parsed.scheme (codes "https")
    || (text_eq parsed.scheme (codes "http") && contains (hostname parsed.netloc) loopback_hosts)

unfoldable pub validate_redirect_uri : Text → Result (Unit {0})
unfolding has_wildcard urlsplit hostname is_empty
validate_redirect_uri raw =
    if has_wildcard raw
    then err invalid_redirect_uri
    else let parsed = urlsplit raw in
      if not (is_empty parsed.fragment)
      then err invalid_redirect_uri
      else if not (is_empty parsed.query)
      then err invalid_redirect_uri
      else if secure parsed
      then ok tt
      else err invalid_redirect_uri

-- The loop of `register_client`.
unfoldable pub validate_all : List Text → Result (Unit {0})
unfolding validate_redirect_uri
validate_all [] = ok tt
validate_all (uri ∷ uris) = do checked ← validate_redirect_uri uri; validate_all uris
