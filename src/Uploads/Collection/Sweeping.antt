-- ===== src/Uploads/Collection/Sweeping.antt =====
-- cli/gc_uploads.py, the loop of `_gc`, and its dry run.
use meme_mcp.Base.{
  ◌+◌, ◌≡◌, ◌∙◌, refl, ap, sym, inl, inr, true, false, ◌&&◌, ◌||◌, not, List, [], ◌∷◌, map, arith,
  Text, text_eq, text_eq_iff, contains, length, Bool-cases,
}
use meme_mcp.Base.Table.{select_where, delete_where}
use meme_mcp.Base.Table.Listing.{any, set_add, set_of, delete_where_none, delete_where-delete_where}
use meme_mcp.Uploads.Pending.{UploadRow, ExpiredPending, upload_key, delete_pending}
use meme_mcp.Uploads.Collection.{Sweep, delete_blob, sweep_one, sweep, orphaned_paths, collect}

pub contains-delete_blob :
    (x path : Text) (blobs : List Text)
    → contains x (delete_blob path blobs) ≡ (contains x blobs && not (text_eq x path))
unfolding delete_blob delete_where contains
contains-delete_blob x path [] = refl
contains-delete_blob x path (b ∷ blobs) = ground (
  arith,
  contains-delete_blob x path blobs,
  text_eq_iff x path,
  text_eq_iff x b,
  text_eq_iff path b,
)

contains-set_add :
    (x y : Text) (xs : List Text) → contains x (set_add y xs) ≡ (text_eq x y || contains x xs)
unfolding set_add contains
contains-set_add x y xs = ground (arith, text_eq_iff x y)

module _ (protected : List Text) where
  -- What is protected stays.
  pub sweep-protected :
      (candidates : List ExpiredPending) (s : Sweep) (x : Text)
      → contains x protected ≡ true
      → contains x (sweep protected candidates s).blobs ≡ contains x s.blobs
  unfolding sweep sweep_one
  sweep-protected [] s x h = refl
  sweep-protected (c ∷ candidates) s x h =
      sweep-protected candidates (sweep_one protected c s) x h
      ∙ ground (arith, contains-delete_blob x c.image_path s.blobs, text_eq_iff x c.image_path)

  -- An image that no candidate refers to stays.
  pub sweep_other :
      (candidates : List ExpiredPending) (s : Sweep) (x : Text)
      → any (λ c. text_eq x c.image_path) candidates ≡ false
      → contains x (sweep protected candidates s).blobs ≡ contains x s.blobs
  unfolding sweep sweep_one any
  sweep_other [] s x h = refl
  sweep_other (c ∷ candidates) s x h =
      sweep_other candidates (sweep_one protected c s) x (ground arith)
      ∙ ground (arith, contains-delete_blob x c.image_path s.blobs)

  -- The rows of the candidates go, and no others.
  pub rows-sweep :
      (candidates : List ExpiredPending) (s : Sweep)
      → (sweep protected candidates s).rows
        ≡ delete_where (λ r. contains (upload_key r) (map (λ c. c.upload_id) candidates)) s.rows
  unfolding sweep sweep_one contains delete_pending
  rows-sweep [] s = sym (delete_where_none s.rows)
  rows-sweep (c ∷ candidates) s =
      rows-sweep candidates (sweep_one protected c s) ∙ delete_where-delete_where _ _ s.rows

  pub deleted-sweep :
      (candidates : List ExpiredPending) (s : Sweep)
      → (sweep protected candidates s).deleted_rows ≡ length candidates + s.deleted_rows
  unfolding sweep sweep_one
  deleted-sweep [] s = omega arith
  deleted-sweep (c ∷ candidates) s =
      grind (arith, deleted-sweep candidates (sweep_one protected c s))

  reclaimed-sweep_one :
      (c : ExpiredPending) (s : Sweep)
      → contains c.image_path protected ≡ false
      → (sweep_one protected c s).reclaimed ≡ set_add c.image_path s.reclaimed
  unfolding sweep_one set_add
  reclaimed-sweep_one c s e = ground arith

  pub reclaimed-sweep :
      (candidates : List ExpiredPending) (s : Sweep)
      → (sweep protected candidates s).reclaimed
        ≡ set_of
            (map
              (λ c. c.image_path)
              (select_where (λ c. not (contains c.image_path protected)) candidates))
            s.reclaimed
  unfolding sweep sweep_one select_where set_of set_add
  reclaimed-sweep [] s = refl
  reclaimed-sweep (c ∷ candidates) s = elim (Bool-cases (contains c.image_path protected)) [
    | inl e ↦ rw e (reclaimed-sweep candidates (sweep_one protected c s) ∙ rw e refl)
    | inr e ↦
        rw e (
          reclaimed-sweep candidates (sweep_one protected c s)
          ∙ rw (reclaimed-sweep_one c s e) refl)
  ]

  -- No image comes back.
  sweep_gone :
      (candidates : List ExpiredPending) (s : Sweep) (x : Text)
      → contains x s.blobs ≡ false
      → contains x (sweep protected candidates s).blobs ≡ false
  unfolding sweep sweep_one
  sweep_gone [] s x h = h
  sweep_gone (c ∷ candidates) s x h =
      sweep_gone candidates (sweep_one protected c s) x
        (ground (arith, contains-delete_blob x c.image_path s.blobs, h))

  module _ (c : ExpiredPending) (s : Sweep) (x : Text)
      (i : contains x s.reclaimed ≡ true → contains x s.blobs ≡ false) where
    reclaimed_gone :
        contains x (sweep_one protected c s).reclaimed ≡ true
        → contains x (sweep_one protected c s).blobs ≡ false
    unfolding sweep_one
    reclaimed_gone r = ground (
      arith,
      contains-delete_blob x c.image_path s.blobs,
      contains-set_add x c.image_path s.reclaimed,
      i,
    )

    own_gone :
        text_eq x c.image_path ≡ true
        → contains x protected ≡ false
        → contains x (sweep_one protected c s).blobs ≡ false
    unfolding sweep_one
    own_gone e n =
        ground (arith, contains-delete_blob x c.image_path s.blobs, text_eq_iff x c.image_path, i)

  -- What a candidate refers to goes, unless it is protected.
  pub sweep_orphan :
      (candidates : List ExpiredPending) (s : Sweep) (x : Text)
      → any (λ c. text_eq x c.image_path) candidates ≡ true
      → contains x protected ≡ false
      → (contains x s.reclaimed ≡ true → contains x s.blobs ≡ false)
      → contains x (sweep protected candidates s).blobs ≡ false
  unfolding sweep any
  sweep_orphan [] s x h n i = absurd (cc)
  sweep_orphan (c ∷ candidates) s x h n i = elim (Bool-cases (text_eq x c.image_path)) [
    | inl e ↦ sweep_gone candidates (sweep_one protected c s) x (own_gone c s x i e n)
    | inr e ↦
        sweep_orphan candidates (sweep_one protected c s) x (rw e at h) n (reclaimed_gone c s x i)
  ]

module _ (protected : List Text) (rows : List UploadRow) (blobs : List Text) where
  start : Sweep
  start = record { rows = rows; blobs = blobs; reclaimed = []; deleted_rows = 0 }

  -- The counts of a dry run are those of a real one.
  pub collect_dry :
      (candidates : List ExpiredPending)
      → ((collect true protected candidates rows blobs).deleted
          ≡ (collect false protected candidates rows blobs).deleted)
        × ((collect true protected candidates rows blobs).freed
            ≡ (collect false protected candidates rows blobs).freed)
  unfolding collect orphaned_paths start
  collect_dry [] = (refl, refl)
  collect_dry (c ∷ candidates) = (
    omega (arith, deleted-sweep protected (c ∷ candidates) start),
    ap length (sym (reclaimed-sweep protected (c ∷ candidates) start)),
  )

  pub collect_unchanged :
      (candidates : List ExpiredPending)
      → ((collect true protected candidates rows blobs).rows ≡ rows)
        × ((collect true protected candidates rows blobs).blobs ≡ blobs)
  unfolding collect
  collect_unchanged [] = (refl, refl)
  collect_unchanged (c ∷ candidates) = (refl, refl)

  pub rows-collect :
      (candidates : List ExpiredPending)
      → (collect false protected candidates rows blobs).rows
        ≡ delete_where (λ r. contains (upload_key r) (map (λ c. c.upload_id) candidates)) rows
  unfolding collect start contains
  rows-collect [] = sym (delete_where_none rows)
  rows-collect (c ∷ candidates) = rows-sweep protected (c ∷ candidates) start

  pub collect-protected :
      (candidates : List ExpiredPending) (x : Text)
      → contains x protected ≡ true
      → contains x (collect false protected candidates rows blobs).blobs ≡ contains x blobs
  unfolding collect start
  collect-protected [] x h = refl
  collect-protected (c ∷ candidates) x h = sweep-protected protected (c ∷ candidates) start x h

  pub collect_other :
      (candidates : List ExpiredPending) (x : Text)
      → any (λ c. text_eq x c.image_path) candidates ≡ false
      → contains x (collect false protected candidates rows blobs).blobs ≡ contains x blobs
  unfolding collect start
  collect_other [] x h = refl
  collect_other (c ∷ candidates) x h = sweep_other protected (c ∷ candidates) start x h

  pub collect_orphan :
      (candidates : List ExpiredPending) (x : Text)
      → any (λ c. text_eq x c.image_path) candidates ≡ true
      → contains x protected ≡ false
      → contains x (collect false protected candidates rows blobs).blobs ≡ false
  unfolding collect start any contains
  collect_orphan [] x h n = absurd (cc)
  collect_orphan (c ∷ candidates) x h n =
      sweep_orphan protected (c ∷ candidates) start x h n (λ (e : false ≡ true). absurd (cc))
