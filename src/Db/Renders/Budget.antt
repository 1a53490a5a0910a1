-- ===== src/Db/Renders/Budget.antt =====
-- cli/gc_renders.py, `_gc` with its candidates.
use meme_mcp.Base.{
  ℕ, ◌≡◌, ◌≤◌, ◌∙◌, refl, ap, true, false, ◌||◌, Option, some, List, [], ◌∷◌, ◌++◌, map, arith,
  Text, contains, ok,
}
use meme_mcp.Base.Table.Listing.{
  sum_by, order_by, sum_by-order_by, sum_by-delete_where, sum_by_mono, sum_by-map,
}
use meme_mcp.Db.Receipts.{Receipt, receipt_key, older_receipt}
use meme_mcp.Db.Renders.{
  File, size_of, Candidate, unique, Collected, delete_all, collect, gc_renders,
}
use meme_mcp.Db.Renders.Deleting.{
  candidate_key, receipts-delete_all, size_of-delete_all, deleted-delete_all, freed-delete_all,
  contains-unique, unique-Distinct, Sized-unique,
}
use meme_mcp.Db.Renders.Candidates.{
  left_over, evict_bound, gc_renders-inv, Sized-append, by_age-Sized, by_size-evict, by_size-Sized,
}

contains-map_append :
    (h : Text) (a b : List Candidate)
    → contains h (map candidate_key (a ++ b))
      ≡ (contains h (map candidate_key a) || contains h (map candidate_key b))
unfolding contains
contains-map_append h [] b = refl
contains-map_append h (c ∷ a) b = ground (arith, contains-map_append h a b)

module _ (files : List File) (old large : List Candidate) where
  -- Both lists of candidates are among the unique ones.
  left_over-unique :
      (h : Text) → left_over files (unique [] (old ++ large)) h ≤ left_over files large h
  unfolding contains
  left_over-unique h =
      ground (arith, contains-unique (old ++ large) [] h, contains-map_append h old large)

  abbrev kept_size : Receipt → ℕ
  kept_size r = size_of files r.hash

  remaining_size :
      (receipts : List Receipt)
      → sum_by
          (λ r. size_of (collect false (unique [] (old ++ large)) receipts files).files r.hash)
          (collect false (unique [] (old ++ large)) receipts files).receipts
        ≤ sum_by (left_over files large) (map receipt_key (order_by older_receipt receipts))
  unfolding collect
  remaining_size receipts =
      let out = unique [] (old ++ large) in
      let start : Collected = record {
        deleted = 0;
        freed = 0;
        receipts = receipts;
        files = files;
      } in
      let smaller =
        sum_by_mono (λ r. size_of (delete_all out start).files r.hash) kept_size
          (delete_all out start).receipts (λ r. size_of-delete_all out start r.hash) in
      let rows : sum_by kept_size (delete_all out start).receipts
          ≡ sum_by (λ r. left_over files out r.hash) receipts =
        ap (sum_by kept_size) (receipts-delete_all out start)
        ∙ sum_by-delete_where kept_size _ receipts in
      let fewer =
        sum_by_mono (λ r. left_over files out r.hash) (λ r. left_over files large r.hash) receipts
          (λ r. left_over-unique r.hash) in
      let ordered = sum_by-order_by (λ r. left_over files large r.hash) older_receipt receipts in
      let hashes =
        sum_by-map (left_over files large) receipt_key (order_by older_receipt receipts) in
      omega (arith, smaller, rows, fewer, ordered, hashes)

module _ (ttl : Option ℕ) (now : ℕ) (receipts : List Receipt) (files : List File) where
  -- After a collection with a budget, what the remaining receipts refer to takes at most the budget.
  pub gc_renders-budget :
      (m : ℕ) (result : Collected)
      → gc_renders ttl (some m) false now receipts files ≡ ok result
      → sum_by (λ r. size_of result.files r.hash) result.receipts ≤ m
  gc_renders-budget m result h =
      let (old, large, a, b, r) = gc_renders-inv ttl (some m) false now receipts files result h in
      let hashes = map receipt_key (order_by older_receipt receipts) in
      let evicted = by_size-evict m receipts files large b in
      let bound : sum_by (left_over files large) hashes ≤ m =
        rw evicted (evict_bound files m hashes) in
      rw (← r) (omega (arith, remaining_size files old large receipts, bound))

  -- A dry run changes nothing, and announces the number of renders and of bytes that the real run at
  -- the same time deletes.
  pub gc_renders-dry_run :
      (max_bytes : Option ℕ) (dry real : Collected)
      → gc_renders ttl max_bytes true now receipts files ≡ ok dry
      → gc_renders ttl max_bytes false now receipts files ≡ ok real
      → (dry.deleted ≡ real.deleted)
        × (dry.freed ≡ real.freed)
        × (dry.receipts ≡ receipts)
        × (dry.files ≡ files)
  unfolding collect
  gc_renders-dry_run max_bytes dry real h k =
      let (old, large, a, b, r) = gc_renders-inv ttl max_bytes true now receipts files dry h in
      let (old', large', a', b', r') =
        gc_renders-inv ttl max_bytes false now receipts files real k in
      let same_old : old' ≡ old = cc (a, a') in
      let same_large : large' ≡ large = cc (b, b') in
      let out = unique [] (old ++ large) in
      let start : Collected = record {
        deleted = 0;
        freed = 0;
        receipts = receipts;
        files = files;
      } in
      let done : delete_all out start ≡ real = rw (← same_old, ← same_large) r' in
      let sized = Sized-unique files (old ++ large) [] (
        Sized-append files old large (by_age-Sized ttl now receipts files old a)
          (by_size-Sized max_bytes receipts files large b)) in
      rw (← r, ← done)
        (
          omega (arith, deleted-delete_all out start),
          omega (arith, freed-delete_all out start (unique-Distinct (old ++ large) []).0 sized),
          refl,
          refl,
        )
