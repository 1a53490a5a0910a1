-- ===== src/Uploads/Validation.antt =====
-- upload/service.py: the metadata that a friend sends, its checks and the marks of his edits. `str(value)`
-- of what is no text is `str_of` of the library.
pub mod Checked
use meme_mcp.Base.{
  ℕ, zero, suc, Bool, true, false, not, ◌&&◌, ◌||◌, Option, none, some, List, [], ◌∷◌, ◌++◌, codes,
  leb, ◌==◌, Text, text_eq, contains, strip, lower, is_empty, sorted_set, Result, ok, err, ◌>>=◌,
  invalid_input, vlm_output_suspect, if◌then◌else◌,
}
use meme_mcp.Base.Json.{
  Json, null, boolean, number, string, array, object, Items, no_items, item, Dict, no_entries,
  entry, get, has_key, set,
}
use meme_mcp.Metadata.Locales.{
  supported_content_locales, localized_fields, locales_key, human, as_dict, as_text,
  stamp_locale_provenance, merge_locales,
}
use meme_mcp.Vlm.Sanitize.{Library, flag_anomalies, take}
use meme_mcp.Vlm.Sanitize.Metadata.{hard_sanitize_metadata, origin_key}
use meme_mcp.Auth.Sessions.{Friend, require_write}
use meme_mcp.Db.Templates.{Template, upsert, get_template}
use meme_mcp.Uploads.Pending.{PendingUpload, UploadRow, delete_pending}

abbrev pub placeholder_name : Text
placeholder_name = codes "Uploaded Meme"

abbrev pub name_key : Text
name_key = codes "name"

abbrev pub slots_key : Text
slots_key = codes "slot_definitions"

-- The items that are dicts.
unfoldable pub typed_slots : Items → Items
typed_slots no_items = no_items
typed_slots (item (object d) xs) = item (object d) (typed_slots xs)
typed_slots (item _ xs) = typed_slots xs

abbrev pub slot : Text → Json
slot position =
    object
      (entry name_key (string position) (entry (codes "position") (string position) no_entries))

abbrev pub default_slots : Items
default_slots = item (slot (codes "top")) (item (slot (codes "bottom")) no_items)

abbrev pub or_default : Items → Items
or_default no_items = default_slots
or_default (item x xs) = item x xs

abbrev pub slots_of : Json → Items
slots_of (array xs) = or_default (typed_slots xs)
slots_of _ = default_slots

unfoldable pub slot_definitions_for : Dict → Items
unfolding get typed_slots
slot_definitions_for metadata = slots_of (get slots_key metadata)

-- `str(value)`
unfoldable pub text_of : Library → Json → Text
text_of lib (string t) = t
text_of lib v = lib.str_of v

-- `str(d.get("name", ""))`
unfoldable pub name_of : Library → Dict → Text
unfolding get has_key text_of
name_of lib d = if has_key name_key d then text_of lib (get name_key d) else []

-- `_promote_origin_status`
unfoldable pub promote_origin_status : Library → Dict → Bool → Dict
unfolding get set strip is_empty name_of
promote_origin_status lib cleaned origin_reviewed =
    if not origin_reviewed then cleaned else elim (as_dict (get origin_key cleaned)) [
      | none ↦ cleaned
      | some origin ↦
          if is_empty (strip (name_of lib origin))
          then cleaned
          else set origin_key (object (set (codes "status") (string (codes "high")) origin)) cleaned
    ]

abbrev pub required_keys : List Text
required_keys =
    name_key
    ∷ codes "description"
    ∷ codes "emotion"
    ∷ codes "usage_context"
    ∷ codes "tags"
    ∷ codes "format"
    ∷ []

unfoldable pub has_all : List Text → Dict → Bool
unfolding has_key
has_all [] d = true
has_all (key ∷ keys) d = has_key key d && has_all keys d

abbrev pub is_text : Text → Json → Bool
is_text t (string s) = text_eq s t
is_text t _ = false

abbrev pub is_list : Json → Bool
is_list (array xs) = true
is_list _ = false

-- What `_validated_metadata` checks of the cleaned metadata, behind the flags.
unfoldable pub judge_cleaned : Library → Dict → Bool → Result Dict
unfolding name_of strip is_empty text_eq has_all get set slot_definitions_for promote_origin_status
judge_cleaned lib cleaned origin_reviewed =
    let name = strip (name_of lib cleaned) in
    if is_empty name || text_eq name placeholder_name
    then err invalid_input
    else if not (has_all required_keys cleaned)
    then err invalid_input
    else if not (is_text (codes "static") (get (codes "format") cleaned))
    then err invalid_input
    else if not (is_list (get (codes "tags") cleaned))
    then err invalid_input
    else ok (
        promote_origin_status lib (set slots_key (array (slot_definitions_for cleaned)) cleaned)
          origin_reviewed)

-- `flags` of `_validated_metadata`
unfoldable pub raised_flags : List Text → Dict → Dict → List Text
unfolding sorted_set flag_anomalies
raised_flags suspect_flags metadata cleaned =
    sorted_set (suspect_flags ++ flag_anomalies metadata ++ flag_anomalies cleaned)

abbrev pub has_flags : List Text → Bool
has_flags [] = false
has_flags (x ∷ xs) = true

unfoldable pub validated_metadata : Library → Dict → List Text → Bool → Bool → Result Dict
unfolding hard_sanitize_metadata raised_flags judge_cleaned
validated_metadata lib metadata suspect_flags ack_suspect origin_reviewed =
    hard_sanitize_metadata lib metadata >>= (λ cleaned.
      if has_flags (raised_flags suspect_flags metadata cleaned) && not ack_suspect
      then err vlm_output_suspect
      else judge_cleaned lib cleaned origin_reviewed)

-- `==` on JSON values. The values that are compared are texts and lists of texts, so that the order of
-- a dict and the forms of a number do not matter.
unfoldable mutual
  unfolding text_eq

  pub json_eq : Json → Json → Bool
  json_eq null null = true
  json_eq (boolean true) (boolean b) = b
  json_eq (boolean false) (boolean b) = not b
  json_eq (number m) (number n) = text_eq m n
  json_eq (string s) (string t) = text_eq s t
  json_eq (array xs) (array ys) = items_eq xs ys
  json_eq (object d) (object e) = dict_eq d e
  json_eq _ _ = false

  pub items_eq : Items → Items → Bool
  items_eq no_items no_items = true
  items_eq (item x xs) (item y ys) = json_eq x y && items_eq xs ys
  items_eq _ _ = false

  pub dict_eq : Dict → Dict → Bool
  dict_eq no_entries no_entries = true
  dict_eq (entry k v d) (entry l w e) = text_eq k l && json_eq v w && dict_eq d e
  dict_eq _ _ = false

-- The comprehension of the edited fields.
unfoldable pub edited_fields : Dict → Dict → List Text → List Text
unfolding has_key get json_eq
edited_fields incoming_block baseline_block [] = []
edited_fields incoming_block baseline_block (field ∷ fields) =
    let rest = edited_fields incoming_block baseline_block fields in
    if has_key field incoming_block
      && not (json_eq (get field incoming_block) (get field baseline_block))
    then field ∷ rest
    else rest

abbrev pub stamp_edited : Dict → Text → List Text → Dict
stamp_edited result locale [] = result
stamp_edited result locale (f ∷ fields) =
    stamp_locale_provenance result locale (f ∷ fields) human none

-- The block of a locale, empty where the baseline has none.
abbrev pub baseline_block_of : Dict → Text → Dict
baseline_block_of baseline locale = elim (as_dict (get locales_key baseline)) [
  | none ↦ no_entries
  | some locales ↦ elim (as_dict (get locale locales)) [ none ↦ no_entries | some block ↦ block ]
]

-- The loop of `_stamp_human_locale_edits` over the supported locales.
unfoldable pub stamp_locales : Dict → Dict → List Text → Dict → Dict
unfolding get edited_fields stamp_locale_provenance
stamp_locales incoming_locales baseline [] result = result
stamp_locales incoming_locales baseline (locale ∷ locales) result =
    stamp_locales incoming_locales baseline locales (elim (as_dict (get locale incoming_locales)) [
      | none ↦ result
      | some incoming_block ↦
          stamp_edited result locale
            (edited_fields incoming_block (baseline_block_of baseline locale) localized_fields)
    ])

unfoldable pub stamp_human_locale_edits : Dict → Dict → Dict
unfolding get stamp_locales
stamp_human_locale_edits metadata baseline = elim (as_dict (get locales_key metadata)) [
  | none ↦ metadata
  | some incoming_locales ↦
      stamp_locales incoming_locales baseline supported_content_locales metadata
]
