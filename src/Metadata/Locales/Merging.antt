-- ===== src/Metadata/Locales/Merging.antt =====
-- metadata_locales.py, `merge_locales`: what each field and its provenance are after a merge.
use meme_mcp.Base.{
  ◌≡◌, ◌∙◌, refl, inl, inr, true, not, ◌&&◌, none, some, arith, Text, text_eq, contains,
  if◌then◌else◌, Option-cases,
}
use meme_mcp.Base.Json.{null, Dict, no_entries, get, has_key, DistinctKeys}
use meme_mcp.Metadata.Locales.{
  localized_fields, meta_key, as_dict, field_source, dict_slot, merge_fields, merge_meta,
  write_meta, merge_block,
}
use meme_mcp.Metadata.Locales.Fields.{
  kept, is_dict, entry_source, localized_not_meta, NotMeta, field_source-merge_fields,
  get-merge_fields, get-merge_meta, field_source-slot, dict_slot-none, dict_slot-some,
  field_source-write_meta, get-write_meta,
}

-- The provenance that the incoming block has for its fields, if it has any.
abbrev pub incoming_entries : Dict → Dict
incoming_entries incoming_block = dict_slot incoming_block meta_key

module _ (stored_block incoming_block : Dict) where
  filled : Dict
  filled = merge_fields incoming_block localized_fields stored_block

  localized_NotMeta : NotMeta localized_fields
  unfolding text_eq
  localized_NotMeta = (refl, (refl, (refl, (refl, (refl, tt)))))

  merge_block-bare :
      as_dict (get meta_key incoming_block) ≡ none
      → merge_block stored_block incoming_block ≡ filled
  unfolding merge_block filled
  merge_block-bare q = rw (merge_block, q) refl

  merge_block-meta :
      (m : Dict)
      → as_dict (get meta_key incoming_block) ≡ some m
      → merge_block stored_block incoming_block
        ≡ write_meta (merge_meta filled m (dict_slot filled meta_key)) filled
  unfolding merge_block filled
  merge_block-meta m q = rw (merge_block, q) refl

  get-merge_block-filled :
      (f : Text)
      → contains f localized_fields ≡ true
      → get f (merge_block stored_block incoming_block) ≡ get f filled
  get-merge_block-filled f h = elim (Option-cases (as_dict (get meta_key incoming_block))) [
    | inl q ↦ rw (merge_block-bare q) refl
    | inr (m, q) ↦ rw (merge_block-meta m q) (
        get-write_meta (merge_meta filled m (dict_slot filled meta_key)) filled f
          (localized_not_meta f h))
  ]

  source-filled : (f : Text) → field_source filled f ≡ field_source stored_block f
  unfolding filled
  source-filled f =
      field_source-merge_fields incoming_block localized_fields stored_block f localized_NotMeta

  module _ (m : Dict) (f : Text) (h : contains f localized_fields ≡ true) (d : DistinctKeys m) where
    merged_meta : Dict
    merged_meta = merge_meta filled m (dict_slot filled meta_key)

    entry_source-merged_meta : entry_source (get f merged_meta) ≡ (
        if is_dict (get f m) && not (kept (field_source stored_block f) (entry_source (get f m)))
        then entry_source (get f m)
        else field_source stored_block f)
    unfolding merged_meta
    entry_source-merged_meta =
        rw (get-merge_meta filled m (dict_slot filled meta_key) f h d)
          (ground (arith, source-filled f, field_source-slot filled f))

    source-empty : merged_meta ≡ no_entries → field_source filled f ≡ none
    unfolding merged_meta get
    source-empty e =
        let null_entry : null ≡ get f merged_meta = rw e refl in
        ground (
          arith,
          get-merge_meta filled m (dict_slot filled meta_key) f h d,
          null_entry,
          source-filled f,
          field_source-slot filled f,
        )

  -- The value of a field after a merge: the incoming one where there is one, unless the stored is human
  -- and the incoming is not.
  pub get-merge_block :
      (f : Text)
      → contains f localized_fields ≡ true
      → get f (merge_block stored_block incoming_block) ≡ (
          if has_key f incoming_block
            && not (kept (field_source stored_block f) (field_source incoming_block f))
          then get f incoming_block
          else get f stored_block)
  unfolding filled
  get-merge_block f h =
      get-merge_block-filled f h
      ∙ rw (get-merge_fields incoming_block localized_fields stored_block f localized_NotMeta, h)
          refl

  -- The source of a field after a merge, in the same way.
  pub field_source-merge_block :
      (f : Text)
      → contains f localized_fields ≡ true
      → DistinctKeys (incoming_entries incoming_block)
      → field_source (merge_block stored_block incoming_block) f ≡ (
          if is_dict (get f (incoming_entries incoming_block))
            && not (
                kept
                  (field_source stored_block f)
                  (entry_source (get f (incoming_entries incoming_block))))
          then entry_source (get f (incoming_entries incoming_block))
          else field_source stored_block f)
  unfolding get merged_meta
  field_source-merge_block f h d = elim (Option-cases (as_dict (get meta_key incoming_block))) [
    | inl q ↦ rw (merge_block-bare q, dict_slot-none incoming_block meta_key q) (source-filled f)
    | inr (m, q) ↦
        let slot = dict_slot-some incoming_block meta_key m q in
        let keys : DistinctKeys m = rw slot at d in
        rw (merge_block-meta m q, slot)
          (field_source-write_meta (merged_meta m f h keys) filled f (source-empty m f h keys)
            ∙ entry_source-merged_meta m f h keys)
  ]
