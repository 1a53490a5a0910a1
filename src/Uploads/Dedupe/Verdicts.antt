-- ===== src/Uploads/Dedupe/Verdicts.antt =====
-- upload/dedupe.py: what the three actions mean.
use meme_mcp.Base.{
  ℕ, ◌≡◌, ◌≤◌, refl, ◌⊎◌, inl, inr, true, false, Option, none, some, List, [], ◌∷◌, arith, leb,
  leb→le, Text, text_eq, ok, >>=-eq-ok, if◌then◌else◌, All, All-map, Bool-cases, Option-cases,
}
use meme_mcp.Uploads.Dedupe.{
  DuplicateRecord, DuplicateCheck, block, warn, accept, hamming_hex, find_exact, nearest,
  judge_nearest, check_duplicates,
}

-- Every known image is at least so far from this one.
abbrev pub AtLeast : Text → ℕ → List DuplicateRecord → Type 0
AtLeast p d records =
    All (λ r. (e : ℕ) × (hamming_hex r.perceptual_hash p ≡ ok e) × (d ≤ e)) records

abbrev pub NoExact : Text → List DuplicateRecord → Type 0
NoExact h records = All (λ r. text_eq r.exact_hash h ≡ false) records

-- Some known image has the property.
abbrev pub Some : (DuplicateRecord → Type 0) → List DuplicateRecord → Type 0
Some P [] = ⊥
Some P (r ∷ records) = P r ⊎ Some P records

-- What an action says of the index.
abbrev pub Meaning : List DuplicateRecord → Text → Text → DuplicateCheck → Type 0
Meaning index h p (block t) =
    Some (λ r. (r.template_id ≡ t) × (text_eq r.exact_hash h ≡ true)) index
Meaning index h p (warn t) =
    NoExact h index
    × ((d : ℕ) × (d ≤ 5)
        × AtLeast p d index
        × Some (λ r. (r.template_id ≡ t) × (hamming_hex r.perceptual_hash p ≡ ok d)) index)
Meaning index h p accept = NoExact h index × AtLeast p 6 index

find_exact-some :
    (h t : Text) (records : List DuplicateRecord)
    → find_exact h records ≡ some t
    → Some (λ r. (r.template_id ≡ t) × (text_eq r.exact_hash h ≡ true)) records
unfolding find_exact
find_exact-some h t [] e = absurd (cc)
find_exact-some h t (r ∷ records) e = elim (Bool-cases (text_eq r.exact_hash h)) [
  | inl q ↦ let k : some r.template_id ≡ some t = rw q at e in inl (cc, q)
  | inr q ↦ inr (find_exact-some h t records (rw q at e))
]

find_exact-none :
    (h : Text) (records : List DuplicateRecord) → find_exact h records ≡ none → NoExact h records
unfolding find_exact
find_exact-none h [] e = tt
find_exact-none h (r ∷ records) e = elim (Bool-cases (text_eq r.exact_hash h)) [
  | inl q ↦ let k : some r.template_id ≡ none = rw q at e in absurd (cc)
  | inr q ↦ (q, find_exact-none h records (rw q at e))
]

-- The result of `min`.
abbrev Nearest : Text → List DuplicateRecord → Option (DuplicateRecord × ℕ) → Type 0
Nearest p records none = records ≡ []
Nearest p records (some (s, d)) =
    AtLeast p d records
    × Some (λ r. (r.template_id ≡ s.template_id) × (hamming_hex r.perceptual_hash p ≡ ok d)) records

nearest-Nearest :
    (p : Text) (records : List DuplicateRecord) (found : Option (DuplicateRecord × ℕ))
    → nearest p records ≡ ok found
    → Nearest p records found
unfolding nearest
nearest-Nearest p [] found h = let same : none ≡ found = cc in rw (← same) refl
nearest-Nearest p (r ∷ records) found h =
    let (d, measured, k) = >>=-eq-ok (hamming_hex r.perceptual_hash p) _ h in
    let (best, done, m) = >>=-eq-ok (nearest p records) _ k in
    closer d measured best (nearest-Nearest p records best done) m
  where
    closer :
        (d : ℕ)
        → hamming_hex r.perceptual_hash p ≡ ok d
        → (best : Option (DuplicateRecord × ℕ)) → Nearest p records best
        → (elim best [
          | none ↦ ok (some (r, d))
          | some (s, e) ↦ if leb d e then ok (some (r, d)) else ok (some (s, e))
        ])
          ≡ ok found
        → Nearest p (r ∷ records) found
    closer d measured none empty m =
        let same : some (r, d) ≡ found = cc in
        let none_left : records ≡ [] = empty in
        rw (← same, none_left) (((d, measured, omega arith), tt), inl (refl, measured))
    closer d measured (some (s, e)) (far, some_one) m = elim (Bool-cases (leb d e)) [
      | inl q ↦
          let k : ok (some (r, d)) ≡ ok found = rw q at m in
          let same : some (r, d) ≡ found = cc in
          rw (← same) (
            (
              (d, measured, omega arith),
              All-map _ _ records
                  (λ x far_x. (far_x.0, far_x.1, omega (arith, leb→le d e q, far_x.2))) far,
            ),
            inl (refl, measured),
          )
      | inr q ↦
          let k : ok (some (s, e)) ≡ ok found = rw q at m in
          let same : some (s, e) ≡ found = cc in
          rw (← same) (((d, measured, ground (arith, q)), far), inr some_one)
    ]

-- An image is refused exactly where its hash is known, it is held against a known image at a distance of
-- at most five bits where there is one, the nearest, and accepted where every known image is further.
pub check_duplicates-Meaning :
    (index : List DuplicateRecord) (exact_hash perceptual_hash : Text) (verdict : DuplicateCheck)
    → check_duplicates index exact_hash perceptual_hash ≡ ok verdict
    → Meaning index exact_hash perceptual_hash verdict
unfolding check_duplicates
check_duplicates-Meaning index h p verdict k = elim (Option-cases (find_exact h index)) [
  | inr (t, e) ↦
      let done : ok (block t) ≡ ok verdict = rw (check_duplicates, e) at k in
      let same : block t ≡ verdict = cc in rw (← same) (find_exact-some h t index e)
  | inl e ↦
      let (found, near, done) = >>=-eq-ok (nearest p index) _ (rw (check_duplicates, e) at k) in
      let same : judge_nearest found ≡ verdict = cc in
      rw (← same) (judged (find_exact-none h index e) found (nearest-Nearest p index found near))
]
  where
    judged :
        NoExact h index
        → (found : Option (DuplicateRecord × ℕ)) → Nearest p index found
        → Meaning index h p (judge_nearest found)
    judged unknown none empty = (unknown, rw empty tt)
    judged unknown (some (s, d)) (far, there) = elim (Bool-cases (leb d 5)) [
      | inl q ↦ rw q (unknown, (d, leb→le d 5 q, far, there))
      | inr q ↦ rw q (
        unknown,
        All-map _ _ index (λ x far_x. (far_x.0, far_x.1, ground (arith, q, far_x.2))) far,
      )
    ]
