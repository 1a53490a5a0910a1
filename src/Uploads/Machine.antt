-- ===== src/Uploads/Machine.antt =====
-- upload/service.py: the machine's half of the metadata, `_prepare_machine_locales` and
-- `_resolve_machine_locales`, and `_reverse_image_lookup`.
pub mod Gate
use meme_mcp.Base.{
  ℕ, Bool, true, false, not, ◌&&◌, ◌||◌, Option, none, some, List, [], ◌∷◌, ◌++◌, map, codes, Text,
  ◌==◌, text_eq, contains, partition, sorted_set, is_empty, Result, ok, err, ◌>>=◌, if◌then◌else◌,
}
use meme_mcp.Base.Table.{select_where}
use meme_mcp.Base.Json.{
  Json, null, boolean, number, string, array, object, Items, no_items, item, Dict, no_entries,
  entry, get, has_key, set, pop,
}
use meme_mcp.Metadata.Locales.{
  localized_fields, locales_key, meta_key, machine, as_dict, locale_block, stamp_locale_provenance,
  provenance,
}
use meme_mcp.Vlm.Sanitize.{Library}
use meme_mcp.Vlm.Sanitize.Metadata.{clean_origin_value, sanitize_web_results, source_url_key}
use meme_mcp.Vlm.Drift.{check_metadata_drift}

abbrev pub zh_tw : Text
zh_tw = codes "zh-TW"

abbrev pub drift_pass : Text
drift_pass = codes "pass"

abbrev pub drift_failed : Text
drift_failed = codes "failed"

-- A literal of zero: no digit but 0 stands before the exponent. `NaN` and `Infinity` are none.
unfoldable pub is_zero : Text → Bool
is_zero [] = true
is_zero (c ∷ s) =
    let rest = is_zero s in
    if c == b'e' || c == b'E' then true else (c == b'0' || c == b'-' || c == b'.') && rest

-- `bool(value)`
abbrev pub truthy : Json → Bool
truthy null = false
truthy (boolean b) = b
truthy (number n) = not (is_zero n)
truthy (string s) = not (is_empty s)
truthy (array no_items) = false
truthy (array (item x xs)) = true
truthy (object no_entries) = false
truthy (object (entry k v d)) = true

unfoldable pub any_field : Dict → List Text → Bool
unfolding get
any_field block [] = false
any_field block (field ∷ fields) = truthy (get field block) || any_field block fields

unfoldable pub has_locale_content : Dict → Bool
unfolding locale_block any_field
has_locale_content metadata = elim (locale_block metadata (some zh_tw)) [
  | none ↦ false
  | some block ↦ any_field block localized_fields
]

-- `sorted({reason.split(":", 1)[0] …} & set(LOCALIZED_FIELDS))`
unfoldable pub failed_fields : List Text → List Text
unfolding partition sorted_set contains
failed_fields reasons =
    sorted_set
      (select_where (λ f. contains f localized_fields) (map (λ r. (partition b':' r).0) reasons))

unfoldable pub failed_meta : List Text → Dict
unfolding provenance
failed_meta [] = no_entries
failed_meta (field ∷ fields) =
    entry field (provenance machine (some drift_failed)) (failed_meta fields)

abbrev pub with_failed : List Text → Dict → Dict
with_failed [] copy = copy
with_failed (f ∷ fields) copy =
    set locales_key
      (object (
        entry zh_tw (object (entry meta_key (object (failed_meta (f ∷ fields))) no_entries))
          no_entries))
      copy

-- `_prepare_machine_locales`, where `reasons` are those of the gate.
unfoldable pub prepare_with : List Text → Dict → Dict
unfolding stamp_locale_provenance pop failed_fields failed_meta set
prepare_with [] metadata =
    stamp_locale_provenance metadata zh_tw localized_fields machine (some drift_pass)
prepare_with (r ∷ reasons) metadata =
    with_failed (failed_fields (r ∷ reasons)) (pop locales_key metadata)

unfoldable pub prepare_machine_locales : (Text → Option Bool) → Dict → Dict
unfolding prepare_with check_metadata_drift
prepare_machine_locales verdict metadata =
    prepare_with (check_metadata_drift verdict metadata zh_tw) metadata

-- The statuses of a call to the model, and what it gives.
pub record Enrichment : Type 0 where
  pub status : Text
  pub metadata : Option Dict
  pub suspect_flags : List Text

abbrev pub succeeded : Enrichment → Option Dict
succeeded e = if text_eq e.status (codes "success") then e.metadata else none

-- The first proposal with the locales of the second.
unfoldable pub retried_candidate : Dict → Dict → Dict
unfolding get set pop
retried_candidate metadata retried = elim (as_dict (get locales_key retried)) [
  | some locales ↦ set locales_key (object locales) metadata
  | none ↦ pop locales_key metadata
]

abbrev pub passes : List Text → Bool
passes [] = true
passes (r ∷ reasons) = false

-- `_resolve_machine_locales`; `retry` is the one further call of the model.
unfoldable pub resolve_machine_locales : (Text → Option Bool) → Dict → Enrichment → Dict
unfolding has_locale_content check_metadata_drift prepare_machine_locales retried_candidate text_eq
resolve_machine_locales verdict metadata retry =
    if not (has_locale_content metadata)
    then metadata
    else if passes (check_metadata_drift verdict metadata zh_tw)
    then prepare_machine_locales verdict metadata
    else elim (succeeded retry) [
      | none ↦ prepare_machine_locales verdict metadata
      | some retried ↦
          let candidate = retried_candidate metadata retried in
          if passes (check_metadata_drift verdict candidate zh_tw)
          then prepare_machine_locales verdict candidate
          else prepare_machine_locales verdict metadata
    ]

-- What the reverse-image service gives.
pub record Detection : Type 0 where
  pub status : Text
  pub grounding : Option (Text × List Text × List Text)
  pub origin : Option (Text × Text)

pub record Lookup : Type 0 where
  pub grounding : Option Text
  pub origin_block : Option Dict
  pub status : Text

abbrev pub nothing_found : Text → Lookup
nothing_found status = record { grounding = none; origin_block = none; status = status }

abbrev pub success : Text
success = codes "success"

-- `text or None`
abbrev pub or_none : Text → Option Text
or_none [] = none
or_none (c ∷ s) = some (c ∷ s)

abbrev pub grounding_text : Library → Option (Text × List Text × List Text) → Text
grounding_text lib none = []
grounding_text lib (some (best_guess, entities, page_titles)) =
    sanitize_web_results lib best_guess entities page_titles

abbrev pub origin_dict : Text → Text → Bool → Dict
origin_dict name source_url authoritative = entry (codes "name") (string name) (
    entry source_url_key (string source_url) (
      entry (codes "status") (string (if authoritative then codes "high" else codes "low"))
        no_entries))

unfoldable pub origin_block_of : Library → Option (Text × Text) → Bool → Result (Option Dict)
unfolding clean_origin_value is_empty
origin_block_of lib none authoritative = ok none
origin_block_of lib (some (raw_name, raw_url)) authoritative = do
  name ← clean_origin_value lib (codes "name") raw_name
  source_url ← clean_origin_value lib source_url_key raw_url
  ok (
      if is_empty name && is_empty source_url
      then none
      else some (origin_dict name source_url authoritative))

-- `_reverse_image_lookup`; `client` is what the service detects in the image, if there is a client.
unfoldable pub reverse_image_lookup : Library → Bool → Option Detection → Result Lookup
unfolding text_eq contains sanitize_web_results origin_block_of
reverse_image_lookup lib false client = ok (nothing_found (codes "skipped"))
reverse_image_lookup lib true none = ok (nothing_found (codes "unavailable"))
reverse_image_lookup lib true (some result) =
    if not (contains result.status (success ∷ codes "low_confidence" ∷ []))
    then ok (nothing_found (codes "no_match"))
    else origin_block_of lib result.origin (text_eq result.status success) >>= (λ block. ok record {
      grounding = or_none (grounding_text lib result.grounding);
      origin_block = block;
      status = result.status;
    })
