-- ===== src/Vlm/Sanitize.antt =====
-- vlm/sanitize.py: the cleaning of one text, and the flags for metadata. `Library` is what it uses of
-- Python's unicodedata, of `str` on values that are no texts, and of `urllib.parse.urlsplit`.
pub mod Clean
pub mod Metadata
use meme_mcp.Base.{
  ℕ, zero, suc, ◌+◌, Bool, true, false, not, ◌&&◌, ◌||◌, Option, none, some, List, [], ◌∷◌, ◌++◌,
  codes, ltb, ◌==◌, Text, text_eq, contains, length, strip, lower, is_empty, sorted_set, Result, ok,
  err, ◌>>=◌, if◌then◌else◌,
}
use meme_mcp.Base.Json.{
  Json, null, boolean, number, string, array, object, Items, no_items, item, Dict, no_entries,
  entry,
}
use meme_mcp.Base.Table.Listing.{any}
use meme_mcp.Web.SafeNext.{has_char, remove_prefix}

-- What `urlsplit` gives; an absent part is the empty text, as the caller's tests have it.
pub record UrlParts : Type 0 where
  pub scheme : Text
  pub netloc : Text
  pub hostname : Text
  pub username : Text
  pub password : Text

pub record Library : Type 0 where
  pub nfkc : Text → Text
  pub str_of : Json → Text
  pub split_url : Text → Result UrlParts

-- The length of the rest of a match of `<[^>]+>` behind its `<`: up to the first `>`, if something stands
-- before it.
unfoldable pub to_close : Text → Option ℕ
to_close [] = none
to_close (c ∷ s) =
    let rest = to_close s in
    if c == b'>' then some 1 else elim rest [ none ↦ none | some n ↦ some (suc n) ]

unfoldable pub tag_length : Text → Option ℕ
unfolding to_close
tag_length [] = none
tag_length (c ∷ s) = if c == b'>' then none else to_close (c ∷ s)

-- `MARKUP_RE.sub("", s)`, where the first characters of `s` may belong to a match already.
unfoldable pub strip_markup : ℕ → Text → Text
unfolding tag_length
strip_markup skip [] = []
strip_markup (suc skip) (c ∷ s) = strip_markup skip s
strip_markup zero (c ∷ s) = elim (if c == b'<' then tag_length s else none) [
  | none ↦ c ∷ strip_markup zero s
  | some n ↦ strip_markup n s
]

-- `MARKUP_RE.search(s)`
unfoldable pub has_markup : Text → Bool
unfolding tag_length
has_markup [] = false
has_markup (c ∷ s) =
    (c == b'<' && (elim (tag_length s) [ none ↦ false | some _ ↦ true ])) || has_markup s

-- `ZERO_WIDTH`
unfoldable pub is_zero_width : ℕ → Bool
is_zero_width c = c == 8203 || c == 8204 || c == 8205 || c == 65279 || c == 8238 || c == 8237

unfoldable pub drop_zero_width : Text → Text
unfolding is_zero_width
drop_zero_width [] = []
drop_zero_width (c ∷ s) = let rest = drop_zero_width s in if is_zero_width c then rest else c ∷ rest

-- `s[:n]`
unfoldable pub take : ℕ → Text → Text
take zero s = []
take (suc n) [] = []
take (suc n) (c ∷ s) = c ∷ take n s

-- `marker in s`
unfoldable pub is_infix : Text → Text → Bool
unfolding remove_prefix
is_infix marker [] = is_empty marker
is_infix marker (c ∷ s) =
    (elim (remove_prefix marker (c ∷ s)) [ none ↦ false | some _ ↦ true ]) || is_infix marker s

abbrev pub imperative_markers : List Text
imperative_markers =
    codes "ignore previous"
    ∷ codes "ignore all previous"
    ∷ codes "disregard previous"
    ∷ codes "disregard prior"
    ∷ codes "new instructions"
    ∷ codes "system:"
    ∷ codes "user:"
    ∷ codes "assistant:"
    ∷ codes "</"
    ∷ codes "忽略之前"
    ∷ codes "忽略以上"
    ∷ codes "忽略先前"
    ∷ codes "無視之前"
    ∷ codes "系統:"
    ∷ codes "系統："
    ∷ codes "使用者:"
    ∷ codes "使用者："
    ∷ codes "助理:"
    ∷ codes "助理："
    ∷ []

abbrev pub flag_if : Bool → Text → List Text
flag_if true flag = flag ∷ []
flag_if false flag = []

unfoldable pub has_zero_width : Text → Bool
unfolding is_zero_width
has_zero_width [] = false
has_zero_width (c ∷ s) = is_zero_width c || has_zero_width s

-- The flags of one text.
unfoldable pub flags_of : Text → List Text
unfolding has_markup is_infix has_char has_zero_width any lower
flags_of value =
    flag_if (has_markup value || is_infix (codes "${") value || has_char b'`' value)
      (codes "markup")
    ++ flag_if (has_zero_width value) (codes "zero_width_unicode")
    ++ flag_if (any (λ marker. is_infix marker (lower value)) imperative_markers)
        (codes "imperative_prompt")
    ++ flag_if (ltb 512 (length value)) (codes "length_overflow")

-- `str(key).startswith("_")`
abbrev pub is_private : Text → Bool
is_private [] = false
is_private (c ∷ s) = c == b'_'

unfoldable mutual
  pub walk_strings : Json → List Text
  walk_strings null = []
  walk_strings (boolean b) = []
  walk_strings (number n) = []
  walk_strings (string s) = s ∷ []
  walk_strings (array xs) = walk_items xs
  walk_strings (object d) = walk_dict d

  pub walk_items : Items → List Text
  walk_items no_items = []
  walk_items (item x xs) = walk_strings x ++ walk_items xs

  pub walk_dict : Dict → List Text
  walk_dict no_entries = []
  walk_dict (entry k v d) =
      let rest = walk_dict d in if is_private k then rest else walk_strings v ++ rest

unfoldable pub all_flags : List Text → List Text
unfolding flags_of
all_flags [] = []
all_flags (value ∷ values) = flags_of value ++ all_flags values

unfoldable pub flag_anomalies : Dict → List Text
unfolding walk_strings all_flags sorted_set
flag_anomalies metadata = sorted_set (all_flags (walk_dict metadata))

module _ (lib : Library) where
  unfoldable pub clean_string : Text → ℕ → Text
  unfolding drop_zero_width strip_markup take
  clean_string value cap = take cap (strip_markup 0 (drop_zero_width (lib.nfkc value)))

  unfoldable pub clean_and_guard : Text → ℕ → Text
  unfolding clean_string flag_anomalies
  clean_and_guard value cap =
      let cleaned = clean_string value cap in
      elim (flag_anomalies (entry (codes "value") (string cleaned) no_entries)) [
        | [] ↦ cleaned
        | _ ∷ _ ↦ []
      ]

  abbrev pub url_max_len : ℕ
  url_max_len = 2048

  -- The checks of `sanitize_url` on what `urlsplit` gives.
  unfoldable pub judge_url : Text → UrlParts → Text
  unfolding text_eq is_empty has_char
  judge_url normalized parsed =
      if not (text_eq parsed.scheme (codes "https")) || is_empty parsed.hostname
      then []
      else if not (is_empty parsed.username)
          || not (is_empty parsed.password)
          || has_char b'@' parsed.netloc
      then []
      else normalized

  unfoldable pub sanitize_url : Text → Result Text
  unfolding drop_zero_width strip judge_url is_empty
  sanitize_url value =
      let normalized = drop_zero_width (strip (lib.nfkc value)) in
      if is_empty normalized || ltb url_max_len (length normalized)
      then ok []
      else lib.split_url normalized >>= (λ parsed. ok (judge_url normalized parsed))
