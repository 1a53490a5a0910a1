-- ===== src/Metadata/Locales/HumanWins.antt =====
-- metadata_locales.py, `merge_locales` on whole metadata.
use meme_mcp.Base.{
  ◌≡◌, ◌∙◌, refl, sym, inl, inr, true, false, Option, none, some, arith, Text, text_eq, contains,
  Option-cases,
}
use meme_mcp.Base.Json.{Json, object, Dict, no_entries, entry, get, set, DistinctKeys, get-set}
use meme_mcp.Metadata.Locales.{
  supported_content_locales, localized_fields, locales_key, as_dict, field_source, locale_block,
  dict_slot, is_human, merge_block, merge_blocks, merge_locales,
}
use meme_mcp.Metadata.Locales.Merging.{incoming_entries, get-merge_block, field_source-merge_block}
use meme_mcp.Metadata.Locales.Fields.{dict_slot-some, field_source-slot}
use meme_mcp.Metadata.Locales.Blocks.{
  get-merge_blocks, merged_block, merged_block-none, as_dict-merged_value, as_dict-set,
  locale_block-none, locale_block-some,
}

-- The dict of the locales, if it is one, has no key twice.
abbrev pub HasDistinctLocales : Dict → Type 0
HasDistinctLocales m = DistinctKeys (dict_slot m locales_key)

module _ (locale : Text) (known : contains locale supported_content_locales ≡ true) where
  -- A locale block of merged metadata is the merge of the blocks.
  pub locale_block-merge_locales :
      (stored incoming : Dict)
      → HasDistinctLocales incoming
      → locale_block (merge_locales (some stored) incoming) (some locale)
        ≡ merged_block (locale_block incoming (some locale)) (locale_block stored (some locale))
  unfolding merge_locales
  locale_block-merge_locales no_entries incoming d =
      rw (locale_block-none no_entries locale refl) (sym (merged_block-none _))
  locale_block-merge_locales (entry k v s) incoming d =
      elim (Option-cases (as_dict (get locales_key (entry k v s)))) [
        | inl q ↦
            rw (merge_locales, q, locale_block-none (entry k v s) locale q)
              (sym (merged_block-none _))
        | inr (ls, q) ↦ elim (Option-cases (as_dict (get locales_key incoming))) [
          | inl r ↦
              rw
                (
                  merge_locales,
                  q,
                  r,
                  locale_block-none incoming locale r,
                  locale_block-some (entry k v s) locale ls q,
                )
                (locale_block-some (set locales_key (object ls) incoming) locale ls
                  (as_dict-set locales_key ls incoming))
          | inr (is, r) ↦
              let keys : DistinctKeys is = rw (dict_slot-some incoming locales_key is r) at d in
              rw
                (
                  merge_locales,
                  q,
                  r,
                  locale_block-some incoming locale is r,
                  locale_block-some (entry k v s) locale ls q,
                )
                (locale_block-some (set locales_key (object (merge_blocks is ls)) incoming) locale
                    (merge_blocks is ls) (as_dict-set locales_key (merge_blocks is ls) incoming)
                  ∙ rw (get-merge_blocks locale known is ls keys)
                      (as_dict-merged_value (get locale is) (get locale ls)))
        ]
      ]

  -- A stored human value of a localized field survives every merge whose incoming block does not say
  -- that a human wrote its own: the merged metadata has the stored value, still marked as human. The keys
  -- of the incoming dicts are distinct, as those of every Python dict.
  pub merge_locales-human_wins :
      (stored incoming stored_block : Dict) (f : Text)
      → locale_block stored (some locale) ≡ some stored_block
      → contains f localized_fields ≡ true
      → is_human (field_source stored_block f) ≡ true
      → HasDistinctLocales incoming
      → ((b : Dict)
          → locale_block incoming (some locale) ≡ some b
          → DistinctKeys (incoming_entries b))
      → ((b : Dict)
          → locale_block incoming (some locale) ≡ some b
          → is_human (field_source b f) ≡ false)
      → (merged : Dict) × (locale_block (merge_locales (some stored) incoming) (some locale)
          ≡ some merged)
        × (get f merged ≡ get f stored_block)
        × (is_human (field_source merged f) ≡ true)
  merge_locales-human_wins stored incoming stored_block f q h human d e m =
      elim (Option-cases (locale_block incoming (some locale))) [
        | inl r ↦ (
          stored_block,
          locale_block-merge_locales stored incoming d ∙ rw (r, q) refl,
          refl,
          human,
        )
        | inr (b, r) ↦ (
          merge_block stored_block b,
          locale_block-merge_locales stored incoming d ∙ rw (r, q) refl,
          rw (get-merge_block stored_block b f h, human, m b r) (ground arith),
          rw
              (
                field_source-merge_block stored_block b f h (e b r),
                ← field_source-slot b f,
                human,
                m b r,
              )
              (ground (arith, human)),
        )
      ]

-- The canonical English fields, and every other top-level key, are the incoming ones.
pub merge_locales-english :
    (stored : Option Dict) (incoming : Dict) (k : Text)
    → text_eq locales_key k ≡ false
    → get k (merge_locales stored incoming) ≡ get k incoming
unfolding merge_locales
merge_locales-english none incoming k h = refl
merge_locales-english (some no_entries) incoming k h = refl
merge_locales-english (some (entry x v s)) incoming k h =
    written (as_dict (get locales_key (entry x v s))) (as_dict (get locales_key incoming))
  where
    elsewhere : (v : Json) → get k (set locales_key v incoming) ≡ get k incoming
    elsewhere v = rw (get-set k locales_key v incoming, h) refl

    written :
        (o p : Option Dict)
        → get k (elim o [
          | none ↦ incoming
          | some stored_locales ↦ elim p [
            | none ↦ set locales_key (object stored_locales) incoming
            | some incoming_locales ↦
                set locales_key (object (merge_blocks incoming_locales stored_locales)) incoming
          ]
        ])
          ≡ get k incoming
    written none p = refl
    written (some stored_locales) none = elsewhere (object stored_locales)
    written (some stored_locales) (some incoming_locales) =
        elsewhere (object (merge_blocks incoming_locales stored_locales))
