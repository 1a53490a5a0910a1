-- ===== src/Uploads/Validation/Checked.antt =====
-- upload/service.py, `_validated_metadata`: what passes.
use meme_mcp.Base.{
  ◌≡◌, ◌∙◌, refl, ◌⊎◌, inl, inr, Bool, true, false, not, ◌&&◌, ◌||◌, Option, none, some, List, [],
  ◌∷◌, ◌++◌, ◌≢◌, ap, arith, codes, Text, text_eq, text_eq_iff, text_eq_refl, contains,
  contains-sorted_set, sorted_set, All, strip, is_empty, ok, err, invalid_input, vlm_output_suspect,
  >>=-eq-ok, if◌then◌else◌, Bool-cases,
}
use meme_mcp.Base.Json.{
  Json, null, boolean, number, string, array, object, Items, has_key, Dict, get, set, get-set,
  has_key-set,
}
use meme_mcp.Metadata.Locales.{as_dict}
use meme_mcp.Vlm.Sanitize.{Library, flag_anomalies}
use meme_mcp.Vlm.Sanitize.Metadata.{hard_sanitize_metadata, origin_key}
use meme_mcp.Uploads.Validation.{
  placeholder_name, name_key, slots_key, slot_definitions_for, name_of, text_of,
  promote_origin_status, required_keys, has_all, is_text, is_list, judge_cleaned, raised_flags,
  has_flags, validated_metadata,
}

name_of-set :
    (lib : Library) (k : Text) (v : Json) (d : Dict)
    → text_eq k name_key ≡ false
    → name_of lib (set k v d) ≡ name_of lib d
unfolding name_of
name_of-set lib k v d n = rw (name_of, get-set name_key k v d, has_key-set name_key k v d, n) refl

name_of-promote :
    (lib : Library) (d : Dict) (b : Bool)
    → name_of lib (promote_origin_status lib d b) ≡ name_of lib d
unfolding promote_origin_status text_eq
name_of-promote lib d false = refl
name_of-promote lib d true = promoted (as_dict (get origin_key d))
  where
    promoted :
        (o : Option Dict)
        → name_of lib (elim o [
          | none ↦ d
          | some origin ↦
              if is_empty (strip (name_of lib origin))
              then d
              else set origin_key (object (set (codes "status") (string (codes "high")) origin)) d
        ])
          ≡ name_of lib d
    promoted none = refl
    promoted (some origin) = elim (Bool-cases (is_empty (strip (name_of lib origin)))) [
      | inl e ↦ rw e refl
      | inr e ↦ rw e (name_of-set lib origin_key _ d refl)
    ]

is_text-string : (t : Text) (v : Json) → is_text t v ≡ true → v ≡ string t
is_text-string t null h = absurd (cc)
is_text-string t (boolean b) h = absurd (cc)
is_text-string t (number n) h = absurd (cc)
is_text-string t (string s) h = ap string ((text_eq_iff s t).0 h)
is_text-string t (array xs) h = absurd (cc)
is_text-string t (object d) h = absurd (cc)

is_list-array : (v : Json) → is_list v ≡ true → (xs : Items) × (v ≡ array xs)
is_list-array null h = absurd (cc)
is_list-array (boolean b) h = absurd (cc)
is_list-array (number n) h = absurd (cc)
is_list-array (string s) h = absurd (cc)
is_list-array (array xs) h = (xs, refl)
is_list-array (object d) h = absurd (cc)

module _ (lib : Library) (cleaned c : Dict) (reviewed : Bool)
    (h : judge_cleaned lib cleaned reviewed ≡ ok c) where
  judged_name :
      (is_empty (strip (name_of lib c)) ≡ false)
      × (text_eq (strip (name_of lib c)) placeholder_name ≡ false)
      × (has_all required_keys cleaned ≡ true)
      × (get (codes "format") cleaned ≡ string (codes "static"))
      × ((tags : Items) × (get (codes "tags") cleaned ≡ array tags))
  unfolding judge_cleaned text_eq
  judged_name =
      let named : name_of lib (
            promote_origin_status lib (set slots_key (array (slot_definitions_for cleaned)) cleaned)
              reviewed)
          ≡ name_of lib cleaned =
        name_of-promote lib (set slots_key (array (slot_definitions_for cleaned)) cleaned) reviewed
        ∙ name_of-set lib slots_key (array (slot_definitions_for cleaned)) cleaned refl in
      elim (Bool-cases (
        is_empty (strip (name_of lib cleaned))
        || text_eq (strip (name_of lib cleaned)) placeholder_name)) [
          | inl e ↦ let k : err invalid_input ≡ ok c = rw (judge_cleaned, e) at h in absurd (cc)
          | inr e ↦ elim (Bool-cases (has_all required_keys cleaned)) [
            | inr f ↦
                let k : err invalid_input ≡ ok c = rw (judge_cleaned, e, f) at h in absurd (cc)
            | inl f ↦ elim (Bool-cases (is_text (codes "static") (get (codes "format") cleaned))) [
              | inr g ↦
                  let k : err invalid_input ≡ ok c = rw (judge_cleaned, e, f, g) at h in absurd (cc)
              | inl g ↦ elim (Bool-cases (is_list (get (codes "tags") cleaned))) [
                | inr l ↦
                    let k : err invalid_input ≡ ok c = rw (judge_cleaned, e, f, g, l) at h in
                    absurd (cc)
                | inl l ↦
                    let k : ok (
                          promote_origin_status lib
                            (set slots_key (array (slot_definitions_for cleaned)) cleaned) reviewed)
                        ≡ ok c =
                      rw (judge_cleaned, e, f, g, l) at h in
                    let same : promote_origin_status lib
                          (set slots_key (array (slot_definitions_for cleaned)) cleaned) reviewed
                        ≡ c =
                      cc in
                    rw (← same, named)
                      (
                        ground (arith, e),
                        ground (arith, e),
                        f,
                        is_text-string _ _ g,
                        is_list-array _ l,
                      )
              ]
            ]
          ]
        ]

-- `str` of a value: a text is its own.
abbrev pub IsStr : Library → Json → Text → Type 0
IsStr lib (string t) n = n ≡ t
IsStr lib v n = n ≡ lib.str_of v

-- What `str(d.get("name", ""))` gives for a name that is there.
abbrev pub IsNamed : Library → Dict → Text → Type 0
IsNamed lib d n = (has_key (codes "name") d ≡ true) × IsStr lib (get (codes "name") d) n

text_of-IsStr : (lib : Library) (v : Json) → IsStr lib v (text_of lib v)
unfolding text_of
text_of-IsStr lib null = refl
text_of-IsStr lib (boolean b) = refl
text_of-IsStr lib (number n) = refl
text_of-IsStr lib (string t) = refl
text_of-IsStr lib (array xs) = refl
text_of-IsStr lib (object o) = refl

name_of-IsNamed :
    (lib : Library) (d : Dict)
    → is_empty (strip (name_of lib d)) ≡ false
    → IsNamed lib d (name_of lib d)
unfolding name_of strip is_empty
name_of-IsNamed lib d h = elim (Bool-cases (has_key name_key d)) [
  | inl e ↦ rw e (refl, text_of-IsStr lib (get name_key d))
  | inr e ↦ let k : is_empty (strip []) ≡ false = rw e at h in absurd (cc)
]

has_all-All :
    (keys : List Text) (d : Dict) → has_all keys d ≡ true → All (λ key. has_key key d ≡ true) keys
unfolding has_all
has_all-All [] d h = tt
has_all-All (key ∷ keys) d h = (ground (arith, h), has_all-All keys d (ground (arith, h)))

sorted_set-empty : (xs : List Text) → sorted_set xs ≡ [] → xs ≡ []
unfolding contains
sorted_set-empty [] h = refl
sorted_set-empty (x ∷ xs) h =
    let there : contains x (sorted_set (x ∷ xs)) ≡ true =
      contains-sorted_set x (x ∷ xs) ∙ rw text_eq_refl refl in
    let gone : contains x [] ≡ true = rw h at there in absurd (cc)

append-empty : (xs ys : List Text) → xs ++ ys ≡ [] → (xs ≡ []) × (ys ≡ [])
append-empty [] ys h = (refl, h)
append-empty (x ∷ xs) ys h = absurd (cc)

raised_flags-none :
    (suspect_flags : List Text) (metadata cleaned : Dict)
    → raised_flags suspect_flags metadata cleaned ≡ []
    → (suspect_flags ≡ []) × (flag_anomalies metadata ≡ []) × (flag_anomalies cleaned ≡ [])
unfolding raised_flags
raised_flags-none suspect_flags metadata cleaned h =
    let (both, after) =
      append-empty (suspect_flags ++ flag_anomalies metadata) (flag_anomalies cleaned)
        (sorted_set-empty _ h) in
    let (own, given) = append-empty suspect_flags (flag_anomalies metadata) both in
    (own, given, after)

-- Metadata that passes has a name that is neither blank nor the placeholder; what was cleaned of it has
-- every required key, the format `static` and a list of tags; and either no flag was raised, of the
-- model's, of the given metadata or of the cleaned, or the friend has acknowledged them.
pub validated_metadata-checked :
    (lib : Library) (metadata c : Dict) (suspect_flags : List Text) (ack_suspect reviewed : Bool)
    → validated_metadata lib metadata suspect_flags ack_suspect reviewed ≡ ok c
    → ((name : Text) × IsNamed lib c name
        × (is_empty (strip name) ≡ false)
        × (strip name ≢ codes "Uploaded Meme"))
      × ((cleaned : Dict) × (hard_sanitize_metadata lib metadata ≡ ok cleaned)
          × All
              (λ key. has_key key cleaned ≡ true)
              (codes "name"
                ∷ codes "description"
                ∷ codes "emotion"
                ∷ codes "usage_context"
                ∷ codes "tags"
                ∷ codes "format"
                ∷ [])
          × (get (codes "format") cleaned ≡ string (codes "static"))
          × ((tags : Items) × (get (codes "tags") cleaned ≡ array tags))
          × ((ack_suspect ≡ true)
              ⊎ ((suspect_flags ≡ [])
                  × (flag_anomalies metadata ≡ [])
                  × (flag_anomalies cleaned ≡ []))))
unfolding validated_metadata
validated_metadata-checked lib metadata c suspect_flags ack_suspect reviewed h =
    let (cleaned, done, k) = >>=-eq-ok (hard_sanitize_metadata lib metadata) _ h in
    elim (Bool-cases (has_flags (raised_flags suspect_flags metadata cleaned) && not ack_suspect)) [
      | inl e ↦ let f : err vlm_output_suspect ≡ ok c = rw e at k in absurd (cc)
      | inr e ↦
          let (named, proper, keys, static, tags) =
            judged_name lib cleaned c reviewed (rw e at k) in
          (
            (
              name_of lib c,
              name_of-IsNamed lib c named,
              named,
              λ same.
                  absurd
                    (cc ((text_eq_iff (strip (name_of lib c)) placeholder_name).1 same, proper)),
            ),
            (
              cleaned,
              done,
              has_all-All required_keys cleaned keys,
              static,
              tags,
              cleared cleaned (raised_flags suspect_flags metadata cleaned) refl e,
            ),
          )
    ]
  where
    cleared :
        (cleaned : Dict) (flags : List Text)
        → raised_flags suspect_flags metadata cleaned ≡ flags
        → (has_flags flags && not ack_suspect) ≡ false
        → (ack_suspect ≡ true)
          ⊎ ((suspect_flags ≡ []) × (flag_anomalies metadata ≡ []) × (flag_anomalies cleaned ≡ []))
    cleared cleaned [] r e = inr (raised_flags-none suspect_flags metadata cleaned r)
    cleared cleaned (x ∷ xs) r e = inl (ground (arith, e))
