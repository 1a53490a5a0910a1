-- ===== src/Metadata/Locales/Display.antt =====
-- metadata_locales.py, `localized_metadata`, `english_metadata` and `stamp_locale_provenance`.
use meme_mcp.Base.{
  ◌≡◌, ◌∙◌, refl, inl, inr, true, false, not, ◌&&◌, Option, none, some, List, [], ◌∷◌, arith, Text,
  text_eq, text_eq_iff, text_eq_refl, contains, if◌then◌else◌, Bool-cases,
}
use meme_mcp.Base.Json.{Json, null, boolean, number, string, array, object, Dict, get, set, get-set}
use meme_mcp.Metadata.Locales.{
  supported_content_locales, localized_fields, meta_key, locales_key, has_value, field_source,
  locale_block, dict_slot, localize, supported, is_none, overlay, localized_metadata, provenance,
  stamp_fields, stamp_locale_provenance,
}
use meme_mcp.Metadata.Locales.Fields.{
  field_source-entry, entry_source, localized_not_meta, field_source-slot,
}
use meme_mcp.Metadata.Locales.Blocks.{locale_block-some, as_dict-set}

get-overlay :
    (metadata : Dict) (locale : Option Text) (fields : List Text) (copy : Dict) (f : Text)
    → get f (overlay metadata locale fields copy) ≡ (
        if contains f fields && not (is_none (localize metadata f locale))
        then localize metadata f locale
        else get f copy)
unfolding overlay contains
get-overlay metadata locale [] copy f = refl
get-overlay metadata locale (k ∷ fields) copy f = elim (Bool-cases (text_eq f k)) [
  | inl e ↦
      let same : f ≡ k = (text_eq_iff f k).0 e in
      rw (get-overlay metadata locale fields _ f, ← same, text_eq_refl f)
        (ground (arith, text_eq_refl f, get-set f f (localize metadata f locale) copy))
  | inr e ↦
      rw (get-overlay metadata locale fields _ f, e)
        (ground
          (arith, get-set f k (localize metadata k locale) copy, text_eq_iff f k, text_eq_iff k f))
]

has_value-null : (v : Json) → is_none v ≡ true → has_value v ≡ false
unfolding has_value
has_value-null null h = refl
has_value-null (boolean b) h = absurd (cc)
has_value-null (number n) h = absurd (cc)
has_value-null (string s) h = absurd (cc)
has_value-null (array xs) h = absurd (cc)
has_value-null (object d) h = absurd (cc)

both_null : (v w : Json) → is_none v ≡ true → is_none w ≡ true → v ≡ w
both_null null null h k = refl
both_null null (boolean b) h k = absurd (cc)
both_null null (number n) h k = absurd (cc)
both_null null (string s) h k = absurd (cc)
both_null null (array xs) h k = absurd (cc)
both_null null (object d) h k = absurd (cc)
both_null (boolean b) w h k = absurd (cc)
both_null (number n) w h k = absurd (cc)
both_null (string s) w h k = absurd (cc)
both_null (array xs) w h k = absurd (cc)
both_null (object d) w h k = absurd (cc)

module _ (metadata : Dict) (f : Text) where
  -- A field that reads as `None` has no English value.
  localize-null :
      (locale : Option Text)
      → is_none (localize metadata f locale) ≡ true
      → get f metadata ≡ localize metadata f locale
  unfolding localize
  localize-null locale h = elim (Bool-cases (supported locale)) [
    | inl e ↦ let k = rw e at h in rw e (picked (locale_block metadata locale) k)
    | inr e ↦ rw e refl
  ]
    where
      picked :
          (o : Option Dict)
          → is_none (elim o [
            | none ↦ get f metadata
            | some localized ↦
                if has_value (get f localized) then get f localized else get f metadata
          ])
            ≡ true
          → get f metadata ≡ (elim o [
            | none ↦ get f metadata
            | some localized ↦
                if has_value (get f localized) then get f localized else get f metadata
          ])
      picked none n = refl
      picked (some localized) n = elim (Bool-cases (has_value (get f localized))) [
        | inl v ↦
            let n' : is_none (get f localized) ≡ true = rw v at n in
            let v' : has_value (get f localized) ≡ false = has_value-null (get f localized) n' in
            absurd (cc)
        | inr v ↦ rw v refl
      ]

  -- The display copy holds for each localized field what `localize` reads, and for every other key what
  -- the metadata holds.
  pub get-localized_metadata :
      (locale : Option Text)
      → get f (localized_metadata metadata locale)
        ≡ (if contains f localized_fields then localize metadata f locale else get f metadata)
  unfolding localized_metadata
  get-localized_metadata locale =
      get-overlay metadata locale localized_fields metadata f ∙ ground (arith, localize-null locale)

source-provenance :
    (source : Text) (drift : Option Text) → entry_source (provenance source drift) ≡ some source
unfolding provenance get set text_eq
source-provenance source none = refl
source-provenance source (some drift) = refl

module _ (block : Dict) (stamp : Json) where
  get-stamp_fields :
      (fields : List Text) (meta : Dict) (f : Text)
      → contains f localized_fields ≡ true
      → get f (stamp_fields block stamp fields meta)
        ≡ (if contains f fields && has_value (get f block) then stamp else get f meta)
  unfolding stamp_fields contains
  get-stamp_fields [] meta f h = refl
  get-stamp_fields (k ∷ fields) meta f h = elim (Bool-cases (text_eq f k)) [
    | inl e ↦
        let same : f ≡ k = (text_eq_iff f k).0 e in
        rw (get-stamp_fields fields _ f h, ← same, text_eq_refl f, h)
          (ground (arith, get-set f f stamp meta, text_eq_refl f))
    | inr e ↦
        rw (get-stamp_fields fields _ f h, e)
          (ground (arith, get-set f k stamp meta, text_eq_iff f k, text_eq_iff k f))
  ]

-- The block of a locale, empty where there is none.
abbrev pub block_of : Dict → Text → Dict
block_of metadata locale = dict_slot (dict_slot metadata locales_key) locale

module _ (metadata : Dict) (locale : Text)
    (known : contains locale supported_content_locales ≡ true) (fields : List Text) (source : Text)
    (drift : Option Text) where
  unfoldable pub stamped_meta : Dict
  stamped_meta =
      stamp_fields (block_of metadata locale) (provenance source drift) fields
        (dict_slot (block_of metadata locale) meta_key)

  unfoldable pub stamped_block : Dict
  stamped_block = set meta_key (object stamped_meta) (block_of metadata locale)

  pub locale_block-stamp :
      locale_block (stamp_locale_provenance metadata locale fields source drift) (some locale)
      ≡ some stamped_block
  unfolding stamp_locale_provenance stamped_block stamped_meta
  locale_block-stamp = rw known (
      locale_block-some _ locale _ (as_dict-set locales_key _ metadata)
      ∙ as_dict-set locale _ (dict_slot metadata locales_key))

  get-stamped_block :
      (f : Text)
      → contains f localized_fields ≡ true
      → get f stamped_block ≡ get f (block_of metadata locale)
  unfolding stamped_block
  get-stamped_block f h =
      let other : text_eq meta_key f ≡ false =
        ground (arith, localized_not_meta f h, text_eq_iff f meta_key, text_eq_iff meta_key f) in
      rw (get-set f meta_key (object stamped_meta) (block_of metadata locale), other) refl

  field_source-stamped_block :
      (f : Text)
      → contains f localized_fields ≡ true
      → field_source stamped_block f ≡ (
          if contains f fields && has_value (get f (block_of metadata locale))
          then some source
          else field_source (block_of metadata locale) f)
  unfolding stamped_block stamped_meta
  field_source-stamped_block f h =
      field_source-entry stamped_block f stamped_meta
        (rw (get-set meta_key meta_key, text_eq_refl meta_key) refl)
      ∙ rw (get-stamp_fields _ _ fields _ f h, field_source-slot (block_of metadata locale) f)
          (ground (arith, source-provenance source drift))

  -- Stamping marks exactly the listed localized fields that have a value in the block, and changes no
  -- value of the block.
  pub stamp_locale_provenance-source :
      (f : Text)
      → contains f localized_fields ≡ true
      → (block : Dict) × (locale_block
            (stamp_locale_provenance metadata locale fields source drift)
            (some locale)
          ≡ some block)
        × (get f block ≡ get f (block_of metadata locale))
        × (field_source block f ≡ (
            if contains f fields && has_value (get f (block_of metadata locale))
            then some source
            else field_source (block_of metadata locale) f))
  stamp_locale_provenance-source f h =
      (stamped_block, locale_block-stamp, get-stamped_block f h, field_source-stamped_block f h)
