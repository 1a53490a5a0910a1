-- ===== src/Metadata/Locales.antt =====
-- metadata_locales.py: reading, stamping and merging the locale blocks of a template's metadata.
pub mod Merging
pub mod HumanWins
pub mod Display
pub mod Edits
pub mod Fields
pub mod Blocks
use meme_mcp.Base.{
  Bool, true, false, not, ◌&&◌, ◌||◌, Option, none, some, List, [], ◌∷◌, codes, Text, text_eq,
  contains, if◌then◌else◌, strip, is_empty,
}
use meme_mcp.Base.Json.{
  Json, null, boolean, number, string, array, object, Items, no_items, item, Dict, no_entries,
  entry, get, has_key, set, pop,
}

abbrev pub supported_content_locales : List Text
supported_content_locales = codes "zh-TW" ∷ []

abbrev pub localized_fields : List Text
localized_fields =
    codes "name" ∷ codes "description" ∷ codes "emotion" ∷ codes "usage_context" ∷ codes "tags" ∷ []

abbrev pub meta_key : Text
meta_key = codes "_meta"

abbrev pub locales_key : Text
locales_key = codes "locales"

abbrev pub source_key : Text
source_key = codes "source"

abbrev pub drift_key : Text
drift_key = codes "drift"

abbrev pub human : Text
human = codes "human"

abbrev pub machine : Text
machine = codes "machine"

unfoldable pub has_value : Json → Bool
unfolding strip is_empty
has_value null = false
has_value (string s) = not (is_empty (strip s))
has_value (array no_items) = false
has_value (array (item x xs)) = true
has_value (boolean b) = true
has_value (number n) = true
has_value (object d) = true

-- `value if isinstance(value, dict) else None`
abbrev pub as_dict : Json → Option Dict
as_dict (object d) = some d
as_dict _ = none

-- `source if isinstance(source, str) else None`
abbrev pub as_text : Json → Option Text
as_text (string s) = some s
as_text _ = none

unfoldable pub field_source : Dict → Text → Option Text
unfolding get
field_source block field = elim (as_dict (get meta_key block)) [
  | none ↦ none
  | some meta ↦ elim (as_dict (get field meta)) [
    | none ↦ none
    | some e ↦ as_text (get source_key e)
  ]
]

unfoldable pub locale_block : Dict → Option Text → Option Dict
unfolding get
locale_block metadata none = none
locale_block metadata (some locale) = elim (as_dict (get locales_key metadata)) [
  | none ↦ none
  | some locales ↦ as_dict (get locale locales)
]

-- `locale in SUPPORTED_CONTENT_LOCALES`
unfoldable pub supported : Option Text → Bool
unfolding contains
supported none = false
supported (some locale) = contains locale supported_content_locales

unfoldable pub localize : Dict → Text → Option Text → Json
unfolding get has_value locale_block supported
localize metadata field locale =
    if supported locale
    then elim (locale_block metadata locale) [
      | none ↦ get field metadata
      | some localized ↦
          if has_value (get field localized) then get field localized else get field metadata
    ]
    else get field metadata

abbrev pub is_none : Json → Bool
is_none null = true
is_none _ = false

-- The loop of `localized_metadata` over the fields.
unfoldable pub overlay : Dict → Option Text → List Text → Dict → Dict
unfolding localize set
overlay metadata locale [] copy = copy
overlay metadata locale (field ∷ fields) copy =
    let value = localize metadata field locale in
    overlay metadata locale fields (if is_none value then copy else set field value copy)

unfoldable pub localized_metadata : Dict → Option Text → Dict
unfolding overlay
localized_metadata metadata locale = overlay metadata locale localized_fields metadata

unfoldable pub english_metadata : Dict → Dict
unfolding pop
english_metadata metadata = pop locales_key metadata

unfoldable pub provenance : Text → Option Text → Json
unfolding set
provenance source none = object (entry source_key (string source) no_entries)
provenance source (some drift) =
    object (set drift_key (string drift) (entry source_key (string source) no_entries))

-- `_dict_slot`: the dict in the slot, which the caller writes back with its changes.
unfoldable pub dict_slot : Dict → Text → Dict
unfolding get
dict_slot container key = elim (as_dict (get key container)) [ none ↦ no_entries | some d ↦ d ]

-- The loop of `stamp_locale_provenance` over the fields.
unfoldable pub stamp_fields : Dict → Json → List Text → Dict → Dict
unfolding contains has_value get set
stamp_fields block stamp [] meta = meta
stamp_fields block stamp (field ∷ fields) meta = stamp_fields block stamp fields (
    if contains field localized_fields && has_value (get field block)
    then set field stamp meta
    else meta)

unfoldable pub stamp_locale_provenance : Dict → Text → List Text → Text → Option Text → Dict
unfolding contains dict_slot stamp_fields provenance set
stamp_locale_provenance metadata locale fields source drift =
    if not (contains locale supported_content_locales)
    then metadata
    else let locales = dict_slot metadata locales_key in
      let block = dict_slot locales locale in
      let meta = stamp_fields block (provenance source drift) fields (dict_slot block meta_key) in
      set locales_key (object (set locale (object (set meta_key (object meta) block)) locales))
        metadata

abbrev pub is_human : Option Text → Bool
is_human none = false
is_human (some s) = text_eq s human

-- One turn of the loop of `merge_locales` over the localized fields of a block.
unfoldable pub merge_field : Dict → Text → Dict → Dict
unfolding has_key field_source get set
merge_field incoming_block field result_block =
    if not (has_key field incoming_block)
    then result_block
    else if is_human (field_source result_block field)
        && not (is_human (field_source incoming_block field))
    then result_block
    else set field (get field incoming_block) result_block

unfoldable pub merge_fields : Dict → List Text → Dict → Dict
unfolding merge_field
merge_fields incoming_block [] result_block = result_block
merge_fields incoming_block (field ∷ fields) result_block =
    merge_fields incoming_block fields (merge_field incoming_block field result_block)

-- The loop over the entries of the incoming provenance, and one turn of it.
unfoldable pub merge_entry : Dict → Text → Json → Dict → Dict
unfolding contains field_source get set
merge_entry result_block field e result_meta = elim (as_dict e) [
  | none ↦ result_meta
  | some d ↦
      if not (contains field localized_fields)
      then result_meta
      else if is_human (field_source result_block field)
          && not (is_human (as_text (get source_key d)))
      then result_meta
      else set field (object d) result_meta
]

unfoldable pub merge_meta : Dict → Dict → Dict → Dict
unfolding merge_entry
merge_meta result_block no_entries result_meta = result_meta
merge_meta result_block (entry field e incoming_meta) result_meta =
    merge_meta result_block incoming_meta (merge_entry result_block field e result_meta)

-- `if result_meta: result_block["_meta"] = result_meta`
unfoldable pub write_meta : Dict → Dict → Dict
unfolding set
write_meta no_entries result_block = result_block
write_meta (entry k v d) result_block = set meta_key (object (entry k v d)) result_block

-- One locale that both sides have.
unfoldable pub merge_block : Dict → Dict → Dict
unfolding merge_fields merge_meta write_meta dict_slot get
merge_block result_block incoming_block =
    let filled = merge_fields incoming_block localized_fields result_block in
    elim (as_dict (get meta_key incoming_block)) [
      | none ↦ filled
      | some incoming_meta ↦
          write_meta (merge_meta filled incoming_meta (dict_slot filled meta_key)) filled
    ]

-- The loop over the incoming locales, and one turn of it.
unfoldable pub merge_locale : Text → Json → Dict → Dict
unfolding contains merge_block get set
merge_locale locale raw result_locales =
    if not (contains locale supported_content_locales) then result_locales else elim (as_dict raw) [
      | none ↦ result_locales
      | some incoming_block ↦ elim (as_dict (get locale result_locales)) [
        | none ↦ set locale (object incoming_block) result_locales
        | some result_block ↦
            set locale (object (merge_block result_block incoming_block)) result_locales
      ]
    ]

unfoldable pub merge_blocks : Dict → Dict → Dict
unfolding merge_locale
merge_blocks no_entries result_locales = result_locales
merge_blocks (entry locale raw incoming_locales) result_locales =
    merge_blocks incoming_locales (merge_locale locale raw result_locales)

-- `merge_locales`; `None` and an empty dict are one to the caller's `not stored`.
unfoldable pub merge_locales : Option Dict → Dict → Dict
unfolding merge_blocks get set
merge_locales none incoming = incoming
merge_locales (some no_entries) incoming = incoming
merge_locales (some (entry k v d)) incoming = elim (as_dict (get locales_key (entry k v d))) [
  | none ↦ incoming
  | some stored_locales ↦ elim (as_dict (get locales_key incoming)) [
    | none ↦ set locales_key (object stored_locales) incoming
    | some incoming_locales ↦
        set locales_key (object (merge_blocks incoming_locales stored_locales)) incoming
  ]
]
