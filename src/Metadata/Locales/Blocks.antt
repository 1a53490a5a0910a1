-- ===== src/Metadata/Locales/Blocks.antt =====
-- metadata_locales.py, `merge_locales`: the loop over the locales.
use meme_mcp.Base.{
  ◌≡◌, refl, inl, inr, true, false, Option, none, some, arith, Text, text_eq, text_eq_iff,
  text_eq_refl, contains, if◌then◌else◌, Bool-cases,
}
use meme_mcp.Base.Json.{
  Json, null, object, Dict, no_entries, entry, get, set, DistinctKeys, get-set, get-absent,
}
use meme_mcp.Metadata.Locales.{
  supported_content_locales, locales_key, as_dict, locale_block, merge_block, merge_locale,
  merge_blocks,
}

-- What a locale holds after the incoming value of this locale was merged into it.
abbrev pub merged_value : Json → Json → Json
merged_value raw stored = elim (as_dict raw) [
  | none ↦ stored
  | some incoming_block ↦ elim (as_dict stored) [
    | none ↦ object incoming_block
    | some stored_block ↦ object (merge_block stored_block incoming_block)
  ]
]

module _ (locale : Text) (known : contains locale supported_content_locales ≡ true) where
  merge_locale-own :
      (raw : Json) (locales : Dict)
      → get locale (merge_locale locale raw locales) ≡ merged_value raw (get locale locales)
  unfolding merge_locale
  merge_locale-own raw locales =
      rw known (written (as_dict raw) (as_dict (get locale locales)) locales)
    where
      slot : (v : Json) (d : Dict) → get locale (set locale v d) ≡ v
      slot v d = rw (get-set, text_eq_refl locale) refl

      written :
          (o p : Option Dict) (d : Dict)
          → get locale (elim o [
            | none ↦ d
            | some incoming_block ↦ elim p [
              | none ↦ set locale (object incoming_block) d
              | some result_block ↦ set locale (object (merge_block result_block incoming_block)) d
            ]
          ])
            ≡ (elim o [
              | none ↦ get locale d
              | some incoming_block ↦ elim p [
                | none ↦ object incoming_block
                | some stored_block ↦ object (merge_block stored_block incoming_block)
              ]
            ])
      written none p d = refl
      written (some incoming_block) none d = slot (object incoming_block) d
      written (some incoming_block) (some stored_block) d =
          slot (object (merge_block stored_block incoming_block)) d

  merge_locale-other :
      (k : Text) (raw : Json) (locales : Dict)
      → text_eq k locale ≡ false
      → get locale (merge_locale k raw locales) ≡ get locale locales
  unfolding merge_locale
  merge_locale-other k raw locales other =
      elim (Bool-cases (contains k supported_content_locales)) [
        | inl c ↦ rw c (untouched (as_dict raw) (as_dict (get k locales)))
        | inr c ↦ rw c refl
      ]
    where
      elsewhere : (v : Json) → get locale (set k v locales) ≡ get locale locales
      elsewhere v = rw (get-set locale k v locales, other) refl

      untouched :
          (o p : Option Dict)
          → get locale (elim o [
            | none ↦ locales
            | some incoming_block ↦ elim p [
              | none ↦ set k (object incoming_block) locales
              | some result_block ↦ set k (object (merge_block result_block incoming_block)) locales
            ]
          ])
            ≡ get locale locales
      untouched none p = refl
      untouched (some incoming_block) none = elsewhere (object incoming_block)
      untouched (some incoming_block) (some result_block) =
          elsewhere (object (merge_block result_block incoming_block))

  get-merge_locale :
      (k : Text) (raw : Json) (locales : Dict)
      → get locale (merge_locale k raw locales)
        ≡ (if text_eq locale k then merged_value raw (get locale locales) else get locale locales)
  get-merge_locale k raw locales = elim (Bool-cases (text_eq locale k)) [
    | inl e ↦
        let same : locale ≡ k = (text_eq_iff locale k).0 e in
        rw (← same, text_eq_refl locale) (merge_locale-own raw locales)
    | inr e ↦ rw e (
        merge_locale-other k raw locales
          (ground (arith, text_eq_iff locale k, text_eq_iff k locale)))
  ]

  pub get-merge_blocks :
      (incoming locales : Dict)
      → DistinctKeys incoming
      → get locale (merge_blocks incoming locales)
        ≡ merged_value (get locale incoming) (get locale locales)
  unfolding merge_blocks get
  get-merge_blocks no_entries locales d = refl
  get-merge_blocks (entry k raw rest) locales d = elim (Bool-cases (text_eq locale k)) [
    | inl e ↦
        let same : locale ≡ k = (text_eq_iff locale k).0 e in
        let gone : get locale rest ≡ null = get-absent locale rest (rw same d.0) in
        rw
          (
            get-merge_blocks rest (merge_locale k raw locales) d.1,
            gone,
            get-merge_locale k raw locales,
            e,
            ← same,
            text_eq_refl locale,
          )
          refl
    | inr e ↦
        let other : text_eq k locale ≡ false =
          ground (arith, text_eq_iff locale k, text_eq_iff k locale) in
        rw
          (
            get-merge_blocks rest (merge_locale k raw locales) d.1,
            get-merge_locale k raw locales,
            e,
            other,
          )
          refl
  ]

-- The block of one locale after a merge.
abbrev pub merged_block : Option Dict → Option Dict → Option Dict
merged_block none stored = stored
merged_block (some incoming_block) none = some incoming_block
merged_block (some incoming_block) (some stored_block) =
    some (merge_block stored_block incoming_block)

pub merged_block-none : (o : Option Dict) → merged_block o none ≡ o
merged_block-none none = refl
merged_block-none (some b) = refl

pub as_dict-merged_value :
    (raw stored : Json)
    → as_dict (merged_value raw stored) ≡ merged_block (as_dict raw) (as_dict stored)
as_dict-merged_value raw stored = picked (as_dict raw) (as_dict stored) refl
  where
    picked :
        (o p : Option Dict)
        → as_dict stored ≡ p
        → as_dict (elim o [
          | none ↦ stored
          | some incoming_block ↦ elim p [
            | none ↦ object incoming_block
            | some stored_block ↦ object (merge_block stored_block incoming_block)
          ]
        ])
          ≡ merged_block o p
    picked none p e = e
    picked (some incoming_block) none e = refl
    picked (some incoming_block) (some stored_block) e = refl

pub as_dict-set : (k : Text) (d m : Dict) → as_dict (get k (set k (object d) m)) ≡ some d
as_dict-set k d m = rw (get-set k k (object d) m, text_eq_refl k) refl

module _ (m : Dict) (locale : Text) where
  pub locale_block-none : as_dict (get locales_key m) ≡ none → locale_block m (some locale) ≡ none
  unfolding locale_block
  locale_block-none q = rw (locale_block, q) refl

  pub locale_block-some :
      (ls : Dict)
      → as_dict (get locales_key m) ≡ some ls
      → locale_block m (some locale) ≡ as_dict (get locale ls)
  unfolding locale_block
  locale_block-some ls q = rw (locale_block, q) refl
