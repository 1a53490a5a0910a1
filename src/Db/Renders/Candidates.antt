-- ===== src/Db/Renders/Candidates.antt =====
-- cli/gc_renders.py, `_gc`: the candidates by age and by size.
use meme_mcp.Base.{
  ℕ, ◌+◌, ◌-◌, ◌*◌, ◌≡◌, ◌≤◌, refl, ap, inl, inr, Bool, true, false, Option, none, some, List, [],
  ◌∷◌, ◌++◌, map, arith, ltb, leb, leb→le, Text, text_eq_refl, contains, ok, err, >>=-eq-ok,
  overflow_error, value_error, from_isoformat, if◌then◌else◌, Bool-cases, Option-cases,
}
use meme_mcp.Base.Table.Listing.{sum_by, order_by, sum_by_mono}
use meme_mcp.Db.Receipts.{
  Receipt, receipt_key, older_receipt, parse_hashes, all_hashes_oldest_first, hashes_older_than,
}
use meme_mcp.Db.Renders.{
  File, size_of, Candidate, candidate_of, day, by_age, evict, by_size, unique, Collected, collect,
  gc_renders,
}
use meme_mcp.Db.Renders.Deleting.{candidate_key, Sized}

-- What the hashes hold that no candidate has.
abbrev pub left_over : List File → List Candidate → Text → ℕ
left_over files candidates h =
    if contains h (map candidate_key candidates) then 0 else size_of files h

module _ (files : List File) (m : ℕ) where
  evict-fits :
      (total : ℕ) (h : Text) (hashes : List Text)
      → leb total m ≡ true
      → evict files m total (h ∷ hashes) ≡ []
  unfolding evict
  evict-fits total h hashes e = rw e refl

  evict-exceeds :
      (rest : ℕ) (h : Text) (hashes : List Text)
      → leb (size_of files h + rest) m ≡ false
      → evict files m (size_of files h + rest) (h ∷ hashes)
        ≡ candidate_of files h ∷ evict files m rest hashes
  unfolding evict
  evict-exceeds rest h hashes e =
      let left : size_of files h + rest - size_of files h ≡ rest = omega arith in rw (e, left) refl

  left_over-cons :
      (c : Candidate) (candidates : List Candidate) (x : Text)
      → left_over files (c ∷ candidates) x ≤ left_over files candidates x
  unfolding contains
  left_over-cons c candidates x = ground arith

  left_over-own :
      (h : Text) (candidates : List Candidate)
      → left_over files (candidate_of files h ∷ candidates) h ≡ 0
  unfolding contains
  left_over-own h candidates = rw (text_eq_refl h) refl

  -- What the loop leaves fits the budget.
  pub evict_bound :
      (hashes : List Text)
      → sum_by (left_over files (evict files m (sum_by (size_of files) hashes) hashes)) hashes ≤ m
  unfolding sum_by contains
  evict_bound [] = omega arith
  evict_bound (h ∷ hashes) =
      elim (Bool-cases (leb (size_of files h + sum_by (size_of files) hashes) m)) [
        | inl e ↦
            fits _ (evict-fits (size_of files h + sum_by (size_of files) hashes) h hashes e)
              (leb→le (size_of files h + sum_by (size_of files) hashes) m e)
        | inr e ↦
            exceeds _ (evict-exceeds (sum_by (size_of files) hashes) h hashes e)
              (evict_bound hashes)
      ]
    where
      fits :
          (out : List Candidate)
          → out ≡ []
          → size_of files h + sum_by (size_of files) hashes ≤ m
          → sum_by (left_over files out) (h ∷ hashes) ≤ m
      fits out e l =
          let same = ap (λ o. sum_by (left_over files o) (h ∷ hashes)) e in omega (arith, same, l)

      exceeds :
          (out : List Candidate)
          → out ≡ candidate_of files h ∷ evict files m (sum_by (size_of files) hashes) hashes
          → sum_by (left_over files (evict files m (sum_by (size_of files) hashes) hashes)) hashes
            ≤ m
          → sum_by (left_over files out) (h ∷ hashes) ≤ m
      exceeds out e l =
          let rest = evict files m (sum_by (size_of files) hashes) hashes in
          let fewer =
            sum_by_mono (left_over files (candidate_of files h ∷ rest)) (left_over files rest)
              hashes (left_over-cons (candidate_of files h) rest) in
          let same = ap (λ o. sum_by (left_over files o) (h ∷ hashes)) e in
          omega (arith, same, left_over-own h rest, fewer, l)

parse_hashes-map :
    (rows : List Receipt) (hashes : List Text)
    → parse_hashes rows ≡ ok hashes
    → hashes ≡ map receipt_key rows
unfolding parse_hashes
parse_hashes-map [] hashes h = cc
parse_hashes-map (r ∷ rows) hashes h = elim (Option-cases (from_isoformat r.created_at)) [
  | inl e ↦ let failed : err value_error ≡ ok hashes = rw (parse_hashes, e) at h in absurd (cc)
  | inr (t, e) ↦
      let (rest, parsed, done) = >>=-eq-ok (parse_hashes rows) _ (rw (parse_hashes, e) at h) in
      let tail : rest ≡ map receipt_key rows = parse_hashes-map rows rest parsed in rw (← tail) cc
]

pub gc_renders-inv :
    (ttl max_bytes : Option ℕ) (dry_run : Bool) (now : ℕ) (receipts : List Receipt)
    (files : List File) (result : Collected)
    → gc_renders ttl max_bytes dry_run now receipts files ≡ ok result
    → (old large : List Candidate) × (by_age ttl now receipts files ≡ ok old)
      × (by_size max_bytes receipts files ≡ ok large)
      × (collect dry_run (unique [] (old ++ large)) receipts files ≡ result)
unfolding gc_renders
gc_renders-inv ttl max_bytes dry_run now receipts files result h =
    let (old, a, k) = >>=-eq-ok (by_age ttl now receipts files) _ h in
    let (large, b, m) = >>=-eq-ok (by_size max_bytes receipts files) _ k in (old, large, a, b, cc m)

Sized-map : (files : List File) (hashes : List Text) → Sized files (map (candidate_of files) hashes)
Sized-map files [] = tt
Sized-map files (h ∷ hashes) = (refl, Sized-map files hashes)

Sized-evict :
    (files : List File) (m total : ℕ) (hashes : List Text)
    → Sized files (evict files m total hashes)
unfolding evict
Sized-evict files m total [] = tt
Sized-evict files m total (h ∷ hashes) = elim (Bool-cases (leb total m)) [
  | inl e ↦ rw e tt
  | inr e ↦ rw e (refl, Sized-evict files m (total - size_of files h) hashes)
]

pub Sized-append :
    (files : List File) (a b : List Candidate)
    → Sized files a
    → Sized files b
    → Sized files (a ++ b)
Sized-append files [] b p q = q
Sized-append files (c ∷ a) b p q = (p.0, Sized-append files a b p.1 q)

pub by_age-Sized :
    (ttl : Option ℕ) (now : ℕ) (receipts : List Receipt) (files : List File) (old : List Candidate)
    → by_age ttl now receipts files ≡ ok old
    → Sized files old
unfolding by_age
by_age-Sized none now receipts files old h = let e : old ≡ [] = cc in rw e tt
by_age-Sized (some d) now receipts files old h = elim (Bool-cases (ltb now (d * day))) [
  | inl e ↦ let k : err overflow_error ≡ ok old = rw e at h in absurd (cc)
  | inr e ↦
      let k : ok (map (candidate_of files) (hashes_older_than (now - d * day) receipts)) ≡ ok old =
        rw e at h in
      let same : map (candidate_of files) (hashes_older_than (now - d * day) receipts) ≡ old = cc in
      rw (← same) (Sized-map files (hashes_older_than (now - d * day) receipts))
]

pub by_size-evict :
    (m : ℕ) (receipts : List Receipt) (files : List File) (large : List Candidate)
    → by_size (some m) receipts files ≡ ok large
    → large
      ≡ evict files m
          (sum_by (size_of files) (map receipt_key (order_by older_receipt receipts)))
          (map receipt_key (order_by older_receipt receipts))
unfolding by_size all_hashes_oldest_first
by_size-evict m receipts files large h =
    let (hashes, parsed, done) = >>=-eq-ok (all_hashes_oldest_first receipts) _ h in
    let listed : hashes ≡ map receipt_key (order_by older_receipt receipts) =
      parse_hashes-map (order_by older_receipt receipts) hashes parsed in
    rw (← listed) cc

pub by_size-Sized :
    (max_bytes : Option ℕ) (receipts : List Receipt) (files : List File) (large : List Candidate)
    → by_size max_bytes receipts files ≡ ok large
    → Sized files large
unfolding by_size
by_size-Sized none receipts files large h = let e : large ≡ [] = cc in rw e tt
by_size-Sized (some m) receipts files large h =
    rw (by_size-evict m receipts files large h) (Sized-evict files m _ _)
