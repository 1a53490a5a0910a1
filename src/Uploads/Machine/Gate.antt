-- ===== src/Uploads/Machine/Gate.antt =====
-- upload/service.py, `_resolve_machine_locales` behind the gate of vlm/drift.py.
use meme_mcp.Base.{
  ◌≡◌, ◌∙◌, refl, inl, inr, Bool, true, false, Option, none, some, List, [], ◌∷◌, arith, Text,
  text_eq, text_eq_iff, text_eq_refl, contains, if◌then◌else◌, Bool-cases, Option-cases,
}
use meme_mcp.Base.Json.{
  Json, object, Dict, no_entries, entry, get, has_key, set, pop, DistinctKeys, get-pop, has_key-set,
}
use meme_mcp.Metadata.Locales.{
  localized_fields, locales_key, meta_key, machine, as_dict, locale_block,
}
use meme_mcp.Metadata.Locales.Fields.{dict_slot-some, dict_slot-none}
use meme_mcp.Metadata.Locales.Blocks.{locale_block-none, locale_block-some, as_dict-set}
use meme_mcp.Metadata.Locales.Display.{block_of, stamped_block, locale_block-stamp}
use meme_mcp.Vlm.Sanitize.{is_private}
use meme_mcp.Vlm.Drift.{check_block, check_metadata_drift}
use meme_mcp.Uploads.Machine.{
  zh_tw, drift_pass, has_locale_content, failed_fields, failed_meta, with_failed, prepare_with,
  prepare_machine_locales, Enrichment, succeeded, retried_candidate, passes,
  resolve_machine_locales,
}

has_key-pop : (k l : Text) (d : Dict) → has_key k d ≡ false → has_key k (pop l d) ≡ false
unfolding has_key pop
has_key-pop k l no_entries h = refl
has_key-pop k l (entry x v d) h = ground (arith, has_key-pop k l d, h)

DistinctKeys-pop : (k : Text) (d : Dict) → DistinctKeys d → DistinctKeys (pop k d)
unfolding pop
DistinctKeys-pop k no_entries h = tt
DistinctKeys-pop k (entry x v d) h = elim (Bool-cases (text_eq x k)) [
  | inl e ↦ rw e h.1
  | inr e ↦ rw e (has_key-pop x k d h.0, DistinctKeys-pop k d h.1)
]

DistinctKeys-set : (k : Text) (v : Json) (d : Dict) → DistinctKeys d → DistinctKeys (set k v d)
unfolding set has_key
DistinctKeys-set k v no_entries h = (refl, tt)
DistinctKeys-set k v (entry x w d) h = elim (Bool-cases (text_eq x k)) [
  | inl e ↦ rw e h
  | inr e ↦ rw e (
    has_key-set x k v d ∙ ground (arith, e, h.0, text_eq_iff x k, text_eq_iff k x),
    DistinctKeys-set k v d h.1,
  )
]

module _ (verdict : Text → Option Bool) where
  -- Private keys are not checked.
  check_block-set :
      (k : Text) (v : Json) (d : Dict)
      → is_private k ≡ true
      → check_block verdict (set k v d) ≡ check_block verdict d
  unfolding check_block set
  check_block-set k v no_entries h = rw h refl
  check_block-set k v (entry x w d) h = elim (Bool-cases (text_eq x k)) [
    | inl e ↦ let same : x ≡ k = (text_eq_iff x k).0 e in rw (e, same, h) refl
    | inr e ↦ rw (e, check_block-set k v d h) refl
  ]

  drift-some :
      (m block : Dict)
      → locale_block m (some zh_tw) ≡ some block
      → check_metadata_drift verdict m zh_tw ≡ check_block verdict block
  unfolding check_metadata_drift
  drift-some m block e = rw (check_metadata_drift, e) refl

  drift-none :
      (m : Dict) → locale_block m (some zh_tw) ≡ none → check_metadata_drift verdict m zh_tw ≡ []
  unfolding check_metadata_drift
  drift-none m e = rw (check_metadata_drift, e) refl

  -- What the metadata has for the locale, as a dict, has the same reasons.
  drift-block_of :
      (m : Dict) → check_block verdict (block_of m zh_tw) ≡ check_metadata_drift verdict m zh_tw
  unfolding check_block get
  drift-block_of m = elim (Option-cases (as_dict (get locales_key m))) [
    | inl e ↦
        rw
          (
            dict_slot-none m locales_key e,
            dict_slot-none no_entries zh_tw refl,
            drift-none m (locale_block-none m zh_tw e),
          )
          refl
    | inr (locales, e) ↦ elim (Option-cases (as_dict (get zh_tw locales))) [
      | inl q ↦
          rw
            (
              dict_slot-some m locales_key locales e,
              dict_slot-none locales zh_tw q,
              drift-none m (locale_block-some m zh_tw locales e ∙ q),
            )
            refl
      | inr (block, q) ↦
          rw
            (
              dict_slot-some m locales_key locales e,
              dict_slot-some locales zh_tw block q,
              drift-some m block (locale_block-some m zh_tw locales e ∙ q),
            )
            refl
    ]
  ]

  -- A block that has only its provenance passes.
  drift-marked :
      (meta : Json) (copy : Dict)
      → check_metadata_drift verdict
          (set locales_key
            (object (entry zh_tw (object (entry meta_key meta no_entries)) no_entries))
            copy)
          zh_tw
        ≡ []
  unfolding check_block get text_eq
  drift-marked meta copy = drift-some _ (entry meta_key meta no_entries) (
      locale_block-some _ zh_tw (entry zh_tw (object (entry meta_key meta no_entries)) no_entries) (
        as_dict-set locales_key (entry zh_tw (object (entry meta_key meta no_entries)) no_entries)
          copy))

  drift-popped :
      (m : Dict) → DistinctKeys m → check_metadata_drift verdict (pop locales_key m) zh_tw ≡ []
  drift-popped m d = drift-none (pop locales_key m) (
      locale_block-none (pop locales_key m) zh_tw
        (rw (get-pop locales_key locales_key m d, text_eq_refl locales_key) refl))

  -- What is prepared passes the gate, whether its half is kept or dropped.
  prepare_with-passes :
      (reasons : List Text) (m : Dict)
      → DistinctKeys m
      → check_metadata_drift verdict m zh_tw ≡ reasons
      → check_metadata_drift verdict (prepare_with reasons m) zh_tw ≡ []
  unfolding prepare_with stamped_block text_eq contains
  prepare_with-passes [] m d e =
      drift-some _ (stamped_block m zh_tw refl localized_fields machine (some drift_pass))
        (locale_block-stamp m zh_tw refl localized_fields machine (some drift_pass))
      ∙ check_block-set meta_key _ (block_of m zh_tw) refl
      ∙ drift-block_of m
      ∙ e
  prepare_with-passes (r ∷ reasons) m d e = failed (failed_fields (r ∷ reasons))
    where
      failed :
          (fields : List Text)
          → check_metadata_drift verdict (with_failed fields (pop locales_key m)) zh_tw ≡ []
      failed [] = drift-popped m d
      failed (f ∷ fields) = drift-marked (object (failed_meta (f ∷ fields))) (pop locales_key m)

  prepare-passes :
      (m : Dict)
      → DistinctKeys m
      → check_metadata_drift verdict (prepare_machine_locales verdict m) zh_tw ≡ []
  unfolding prepare_machine_locales
  prepare-passes m d = prepare_with-passes (check_metadata_drift verdict m zh_tw) m d refl

  DistinctKeys-candidate :
      (m retried : Dict) → DistinctKeys m → DistinctKeys (retried_candidate m retried)
  unfolding retried_candidate
  DistinctKeys-candidate m retried d = picked (as_dict (get locales_key retried))
    where
      picked :
          (o : Option Dict)
          → DistinctKeys (elim o [
            | some locales ↦ set locales_key (object locales) m
            | none ↦ pop locales_key m
          ])
      picked none = DistinctKeys-pop locales_key m d
      picked (some locales) = DistinctKeys-set locales_key (object locales) m d

  -- Whatever the model proposes, and whatever it answers to the one retry, the zh-TW half that is stored
  -- passes the gate, if the first proposal has such content at all. The keys of the proposal are distinct,
  -- as those of every Python dict.
  pub resolve_machine_locales-passes :
      (metadata : Dict) (retry : Enrichment)
      → DistinctKeys metadata
      → has_locale_content metadata ≡ true
      → check_metadata_drift verdict (resolve_machine_locales verdict metadata retry) zh_tw ≡ []
  unfolding resolve_machine_locales
  resolve_machine_locales-passes metadata retry d c =
      elim (Bool-cases (passes (check_metadata_drift verdict metadata zh_tw))) [
        | inl e ↦ rw (resolve_machine_locales, c, e) (prepare-passes metadata d)
        | inr e ↦ rw (resolve_machine_locales, c, e) (answered (succeeded retry))
      ]
    where
      answered :
          (o : Option Dict)
          → check_metadata_drift verdict
              (elim o [
                | none ↦ prepare_machine_locales verdict metadata
                | some retried ↦
                    if passes
                      (check_metadata_drift verdict (retried_candidate metadata retried) zh_tw)
                    then prepare_machine_locales verdict (retried_candidate metadata retried)
                    else prepare_machine_locales verdict metadata
              ])
              zh_tw
            ≡ []
      answered none = prepare-passes metadata d
      answered (some retried) =
          elim (Bool-cases
            (passes (check_metadata_drift verdict (retried_candidate metadata retried) zh_tw))) [
              | inl e ↦ rw e (
                  prepare-passes (retried_candidate metadata retried)
                    (DistinctKeys-candidate metadata retried d))
              | inr e ↦ rw e (prepare-passes metadata d)
            ]
