-- ===== src/Metadata/Locales/Fields.antt =====
-- metadata_locales.py, `merge_locales`: the loops over the fields and over their provenance.
use meme_mcp.Base.{
  ◌≡◌, ◌∙◌, refl, inl, inr, Bool, true, false, not, ◌&&◌, Option, none, some, List, [], ◌∷◌, arith,
  Text, text_eq, text_eq_iff, text_eq_refl, contains, contains-All, if◌then◌else◌, Bool-cases,
  Option-cases, All,
}
use meme_mcp.Base.Json.{
  Json, null, boolean, number, string, array, object, Dict, no_entries, entry, get, has_key, set,
  DistinctKeys, get-set, get-absent,
}
use meme_mcp.Metadata.Locales.{
  localized_fields, meta_key, source_key, as_dict, as_text, field_source, dict_slot, is_human,
  merge_field, merge_fields, merge_entry, merge_meta, write_meta,
}

-- A human value is kept from one that does not say that a human wrote it.
abbrev pub kept : Option Text → Option Text → Bool
kept stored incoming = is_human stored && not (is_human incoming)

-- `isinstance(entry, dict)`
abbrev pub is_dict : Json → Bool
is_dict v = elim (as_dict v) [ none ↦ false | some _ ↦ true ]

-- The source that an entry of the provenance names.
abbrev pub entry_source : Json → Option Text
entry_source v = elim (as_dict v) [ none ↦ none | some d ↦ as_text (get source_key d) ]

pub localized_not_meta :
    (f : Text) → contains f localized_fields ≡ true → text_eq f meta_key ≡ false
unfolding text_eq
localized_not_meta f h =
    contains-All (λ k. text_eq k meta_key ≡ false) f localized_fields h
      (refl, (refl, (refl, (refl, (refl, tt)))))

pub field_source-set :
    (k : Text) (v : Json) (b : Dict) (f : Text)
    → text_eq k meta_key ≡ false
    → field_source (set k v b) f ≡ field_source b f
unfolding field_source
field_source-set k v b f h = rw (field_source, get-set meta_key k v b, h) refl

pub field_source-entry :
    (b : Dict) (f : Text) (meta : Dict)
    → get meta_key b ≡ object meta
    → field_source b f ≡ entry_source (get f meta)
unfolding field_source
field_source-entry b f meta h = rw (field_source, h) refl

abbrev pub NotMeta : List Text → Type 0
NotMeta fields = All (λ k. text_eq k meta_key ≡ false) fields

module _ (incoming_block : Dict) where
  field_source-merge_field :
      (k : Text) (b : Dict) (f : Text)
      → text_eq k meta_key ≡ false
      → field_source (merge_field incoming_block k b) f ≡ field_source b f
  unfolding merge_field
  field_source-merge_field k b f n = ground (arith, field_source-set k (get k incoming_block) b f n)

  get-merge_field :
      (k : Text) (b : Dict) (f : Text)
      → get f (merge_field incoming_block k b) ≡ (
          if text_eq f k
            && has_key f incoming_block
            && not (kept (field_source b f) (field_source incoming_block f))
          then get f incoming_block
          else get f b)
  unfolding merge_field
  get-merge_field k b f = elim (Bool-cases (text_eq f k)) [
    | inl e ↦
        let same : f ≡ k = (text_eq_iff f k).0 e in
        rw (← same, text_eq_refl f)
          (ground (arith, get-set f f (get f incoming_block) b, text_eq_refl f))
    | inr e ↦
        rw e
          (ground (arith, get-set f k (get k incoming_block) b, text_eq_iff f k, text_eq_iff k f))
  ]

  pub field_source-merge_fields :
      (fields : List Text) (b : Dict) (f : Text)
      → NotMeta fields
      → field_source (merge_fields incoming_block fields b) f ≡ field_source b f
  unfolding merge_fields
  field_source-merge_fields [] b f n = refl
  field_source-merge_fields (k ∷ fields) b f n =
      field_source-merge_fields fields (merge_field incoming_block k b) f n.1
      ∙ field_source-merge_field k b f n.0

  pub get-merge_fields :
      (fields : List Text) (b : Dict) (f : Text)
      → NotMeta fields
      → get f (merge_fields incoming_block fields b) ≡ (
          if contains f fields
            && has_key f incoming_block
            && not (kept (field_source b f) (field_source incoming_block f))
          then get f incoming_block
          else get f b)
  unfolding merge_fields contains
  get-merge_fields [] b f n = refl
  get-merge_fields (k ∷ fields) b f n =
      rw
        (
          get-merge_fields fields (merge_field incoming_block k b) f n.1,
          field_source-merge_field k b f n.0,
          get-merge_field k b f,
        )
        (ground arith)

pub as_dict-object : (v : Json) (d : Dict) → as_dict v ≡ some d → v ≡ object d
as_dict-object null d h = absurd (cc)
as_dict-object (boolean b) d h = absurd (cc)
as_dict-object (number n) d h = absurd (cc)
as_dict-object (string s) d h = absurd (cc)
as_dict-object (array xs) d h = absurd (cc)
as_dict-object (object x) d h = cc

module _ (result_block : Dict) where
  get-merge_entry :
      (k : Text) (e : Json) (m : Dict) (f : Text)
      → contains f localized_fields ≡ true
      → get f (merge_entry result_block k e m) ≡ (
          if text_eq f k && is_dict e && not (kept (field_source result_block f) (entry_source e))
          then e
          else get f m)
  unfolding merge_entry
  get-merge_entry k e m f h = elim (Option-cases (as_dict e)) [
    | inl q ↦ rw (merge_entry, q) (ground arith)
    | inr (d, q) ↦
        let written : e ≡ object d = as_dict-object e d q in
        rw (written, merge_entry)
          (elim (Bool-cases (text_eq f k)) [
            | inl p ↦
                let same : f ≡ k = (text_eq_iff f k).0 p in
                rw (← same, text_eq_refl f, h)
                  (ground (arith, text_eq_refl f, get-set f f (object d) m))
            | inr p ↦
                rw p (ground (arith, get-set f k (object d) m, text_eq_iff f k, text_eq_iff k f))
          ])
  ]

  -- The provenance of a field after the loop over the incoming entries.
  pub get-merge_meta :
      (incoming_meta m : Dict) (f : Text)
      → contains f localized_fields ≡ true
      → DistinctKeys incoming_meta
      → get f (merge_meta result_block incoming_meta m) ≡ (
          if is_dict (get f incoming_meta)
            && not (kept (field_source result_block f) (entry_source (get f incoming_meta)))
          then get f incoming_meta
          else get f m)
  unfolding merge_meta
  get-merge_meta no_entries m f h d = refl
  get-merge_meta (entry k e rest) m f h d = elim (Bool-cases (text_eq f k)) [
    | inl p ↦
        let same : f ≡ k = (text_eq_iff f k).0 p in
        let gone : get f rest ≡ null = get-absent f rest (rw same d.0) in
        rw
          (
            get-merge_meta rest (merge_entry result_block k e m) f h d.1,
            gone,
            get-merge_entry k e m f h,
            p,
          )
          (rw (get, same, text_eq_refl k) refl)
    | inr p ↦
        let other : text_eq k f ≡ false = ground (arith, text_eq_iff f k, text_eq_iff k f) in
        rw
          (
            get-merge_meta rest (merge_entry result_block k e m) f h d.1,
            get-merge_entry k e m f h,
            p,
          )
          (rw (get, other) refl)
  ]

pub field_source-slot :
    (b : Dict) (f : Text) → field_source b f ≡ entry_source (get f (dict_slot b meta_key))
unfolding field_source dict_slot get
field_source-slot b f = elim (Option-cases (as_dict (get meta_key b))) [
  | inl q ↦ rw (field_source, q, dict_slot) refl
  | inr (d, q) ↦ rw (field_source, q, dict_slot) refl
]

pub dict_slot-none : (d : Dict) (k : Text) → as_dict (get k d) ≡ none → dict_slot d k ≡ no_entries
unfolding dict_slot
dict_slot-none d k q = rw (dict_slot, q) refl

pub dict_slot-some :
    (d : Dict) (k : Text) (m : Dict) → as_dict (get k d) ≡ some m → dict_slot d k ≡ m
unfolding dict_slot
dict_slot-some d k m q = rw (dict_slot, q) refl

pub field_source-write_meta :
    (m b : Dict) (f : Text)
    → (m ≡ no_entries → field_source b f ≡ none)
    → field_source (write_meta m b) f ≡ entry_source (get f m)
unfolding write_meta get text_eq
field_source-write_meta no_entries b f h = h refl
field_source-write_meta (entry k v m) b f h =
    field_source-entry (set meta_key (object (entry k v m)) b) f (entry k v m)
      (rw (get-set meta_key meta_key (object (entry k v m)) b) refl)

pub get-write_meta :
    (m b : Dict) (f : Text) → text_eq f meta_key ≡ false → get f (write_meta m b) ≡ get f b
unfolding write_meta
get-write_meta no_entries b f h = refl
get-write_meta (entry k v m) b f h = ground (
  arith,
  get-set f meta_key (object (entry k v m)) b,
  text_eq_iff f meta_key,
  text_eq_iff meta_key f,
)
