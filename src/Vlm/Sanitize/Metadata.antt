-- ===== src/Vlm/Sanitize/Metadata.antt =====
-- vlm/sanitize.py: `hard_sanitize_metadata` with its blocks, and the text for the vision model.
pub mod Origin
use meme_mcp.Base.{
  ℕ, zero, suc, Bool, true, false, not, ◌&&◌, ◌||◌, Option, none, some, List, [], ◌∷◌, ◌++◌, map,
  codes, Text, text_eq, contains, is_empty, Result, ok, err, ◌>>=◌, if◌then◌else◌,
}
use meme_mcp.Base.Json.{
  Json, null, boolean, number, string, array, object, Items, no_items, item, Dict, no_entries,
  entry, get,
}
use meme_mcp.Metadata.Locales.{
  supported_content_locales, localized_fields, source_key, drift_key, meta_key, locales_key,
  as_text,
}
use meme_mcp.Vlm.Sanitize.{Library, is_private, clean_string, clean_and_guard, sanitize_url}

abbrev pub source_url_key : Text
source_url_key = codes "source_url"

abbrev pub tags_key : Text
tags_key = codes "tags"

abbrev pub origin_key : Text
origin_key = codes "origin"

-- `FIELD_CAPS.get(key, 128)`
unfoldable pub field_cap : Text → ℕ
unfolding text_eq
field_cap key =
    if text_eq key (codes "description")
    then 512
    else if text_eq key (codes "emotion")
    then 64
    else if text_eq key (codes "usage_context")
    then 256
    else if text_eq key source_url_key
    then 2048
    else 128

abbrev pub allowed_origin_keys : List Text
allowed_origin_keys = codes "name" ∷ source_url_key ∷ codes "status" ∷ []

-- `key in URL_FIELDS`
abbrev pub is_url_field : Text → Bool
is_url_field key = text_eq key source_url_key

abbrev pub with_entry : Text → Text → Dict → Dict
with_entry key value rest = entry key (string value) rest

-- `if value in allowed: entry[key] = value`
unfoldable pub keep_allowed : Text → List Text → Option Text → Dict → Dict
unfolding contains
keep_allowed key allowed none rest = rest
keep_allowed key allowed (some value) rest =
    if contains value allowed then with_entry key value rest else rest

-- The entry of one field in `_sanitize_locale_meta`.
unfoldable pub clean_provenance : Dict → Dict
unfolding get keep_allowed
clean_provenance value =
    keep_allowed source_key (codes "human" ∷ codes "machine" ∷ []) (as_text (get source_key value))
      (keep_allowed drift_key (codes "pass" ∷ codes "failed" ∷ []) (as_text (get drift_key value))
        no_entries)

-- `if block: cleaned[key] = block`
unfoldable pub keep_filled : Text → Dict → Dict → Dict
keep_filled key no_entries rest = rest
keep_filled key (entry k v d) rest = entry key (object (entry k v d)) rest

unfoldable pub sanitize_locale_meta : Dict → Dict
unfolding contains clean_provenance keep_filled
sanitize_locale_meta no_entries = no_entries
sanitize_locale_meta (entry field (object value) d) =
    let rest = sanitize_locale_meta d in
    if contains field localized_fields
    then keep_filled field (clean_provenance value) rest
    else rest
sanitize_locale_meta (entry field _ d) = sanitize_locale_meta d

module _ (lib : Library) where
  -- `[_clean_string(str(item), 32) for item in value]`
  unfoldable pub clean_items : Items → Items
  unfolding clean_string
  clean_items no_items = no_items
  clean_items (item (string s) xs) = item (string (clean_string lib s 32)) (clean_items xs)
  clean_items (item v xs) = item (string (clean_string lib (lib.str_of v) 32)) (clean_items xs)

  -- One field of a locale block; what has another shape is dropped.
  unfoldable pub clean_locale_field : Text → Json → Dict → Dict
  unfolding text_eq contains clean_string clean_items sanitize_locale_meta keep_filled field_cap
  clean_locale_field key (object value) rest =
      if text_eq key meta_key then keep_filled key (sanitize_locale_meta value) rest else rest
  clean_locale_field key (array xs) rest =
      if text_eq key tags_key then entry key (array (clean_items xs)) rest else rest
  clean_locale_field key (string s) rest =
      if contains key localized_fields && not (text_eq key tags_key)
      then with_entry key (clean_string lib s (field_cap key)) rest
      else rest
  clean_locale_field key _ rest = rest

  unfoldable pub clean_locale : Dict → Dict
  unfolding clean_locale_field
  clean_locale no_entries = no_entries
  clean_locale (entry key value d) = clean_locale_field key value (clean_locale d)

  unfoldable pub sanitize_locales_block : Dict → Dict
  unfolding contains clean_locale keep_filled
  sanitize_locales_block no_entries = no_entries
  sanitize_locales_block (entry locale (object block) d) =
      let rest = sanitize_locales_block d in
      if contains locale supported_content_locales
      then keep_filled locale (clean_locale block) rest
      else rest
  sanitize_locales_block (entry locale _ d) = sanitize_locales_block d

  unfoldable pub clean_origin_value : Text → Text → Result Text
  unfolding is_empty text_eq sanitize_url clean_and_guard field_cap
  clean_origin_value key value =
      if is_empty value
      then ok []
      else if is_url_field key
      then sanitize_url lib value
      else ok (clean_and_guard lib value (field_cap key))

  -- The loop of `_sanitize_origin_block` over the allowed keys.
  unfoldable pub clean_origin : Dict → List Text → Result Dict
  unfolding get clean_origin_value
  clean_origin origin [] = ok no_entries
  clean_origin origin (key ∷ keys) = clean_origin origin keys >>= (λ rest.
      elim (as_text (get key origin)) [
        | none ↦ ok rest
        | some value ↦
            clean_origin_value key value >>= (λ cleaned. ok (with_entry key cleaned rest))
      ])

  unfoldable pub sanitize_origin_block : Dict → Result Dict
  unfolding clean_origin
  sanitize_origin_block origin = clean_origin origin allowed_origin_keys

  -- `hard_sanitize_metadata`; a nested dict is cleaned as it is.
  unfoldable mutual
    unfolding text_eq sanitize_origin_block sanitize_locales_block sanitize_url clean_string
        clean_items field_cap

    pub hard_sanitize_metadata : Dict → Result Dict
    hard_sanitize_metadata no_entries = ok no_entries
    hard_sanitize_metadata (entry key value d) =
        if is_private key
        then hard_sanitize_metadata d
        else sanitize_value key value
          >>= (λ cleaned. hard_sanitize_metadata d >>= (λ rest. ok (entry key cleaned rest)))

    pub sanitize_value : Text → Json → Result Json
    sanitize_value key (string s) =
        if is_url_field key
        then sanitize_url lib s >>= (λ url. ok (string url))
        else ok (string (clean_string lib s (field_cap key)))
    sanitize_value key (array xs) = ok (array (clean_items xs))
    sanitize_value key (object d) =
        if text_eq key origin_key
        then sanitize_origin_block d >>= (λ block. ok (object block))
        else if text_eq key locales_key
        then ok (object (sanitize_locales_block d))
        else hard_sanitize_metadata d >>= (λ nested. ok (object nested))
    sanitize_value key null = ok null
    sanitize_value key (boolean b) = ok (boolean b)
    sanitize_value key (number n) = ok (number n)

  -- The pieces that `_clean_and_guard` leaves.
  unfoldable pub clean_pieces : ℕ → List Text → List Text
  unfolding clean_and_guard is_empty
  clean_pieces cap [] = []
  clean_pieces cap (x ∷ xs) =
      let rest = clean_pieces cap xs in
      let piece = clean_and_guard lib x cap in if is_empty piece then rest else piece ∷ rest

-- `xs[:n]`
unfoldable pub first_pieces : ℕ → List Text → List Text
first_pieces zero xs = []
first_pieces (suc n) [] = []
first_pieces (suc n) (x ∷ xs) = x ∷ first_pieces n xs

-- `separator.join(xs)`
unfoldable pub join : Text → List Text → Text
join separator [] = []
join separator (x ∷ []) = x
join separator (x ∷ y ∷ ys) = x ++ separator ++ join separator (y ∷ ys)

-- `if pieces: lines.append(label + …)`
abbrev pub line_of : Text → Text → List Text → List Text
line_of label separator [] = []
line_of label separator (x ∷ xs) = (label ++ join separator (x ∷ xs)) ∷ []

unfoldable pub sanitize_web_results : Library → Text → List Text → List Text → Text
unfolding clean_and_guard clean_pieces first_pieces join
sanitize_web_results lib best_guess entities page_titles = join (b'\n' ∷ []) (
    line_of (codes "Likely meme identity: ") [] (clean_pieces lib 128 (best_guess ∷ []))
    ++ line_of (codes "Related concepts: ") (codes ", ")
        (first_pieces 8 (clean_pieces lib 64 entities))
    ++ line_of (codes "Web page titles: ") (codes " | ")
        (first_pieces 5 (clean_pieces lib 128 page_titles)))
