-- ===== src/Uploads/Collection.antt =====
-- cli/gc_uploads.py, `_gc`: the sweep of the expired uploads and of the images that nothing refers to.
pub mod Sweeping
pub mod Queries
pub mod Safety
use meme_mcp.Base.{
  ℕ, suc, ◌-◌, ◌*◌, Bool, true, false, ◌&&◌, not, Option, none, some, List, [], ◌∷◌, ◌++◌, map, ltb,
  Text, text_eq, contains, length, DateTime, aware, unaware, Result, ok, err, ◌>>=◌, type_error,
  if◌then◌else◌,
}
use meme_mcp.Base.Table.{select_where, delete_where}
use meme_mcp.Base.Table.Listing.{set_add, set_of}
use meme_mcp.Db.Templates.{Template, list_rows}
use meme_mcp.Uploads.Pending.{
  UploadRow, ExpiredPending, expired_uploads, live_image_paths, delete_pending,
}

-- `DEFAULT_GRACE_WINDOW`, in microseconds
abbrev pub default_grace_window : ℕ
default_grace_window = 15 * 60 * 1000000

-- The comprehension of the candidates; a time without a zone does not compare with the cutoff.
unfoldable pub older : ℕ → List ExpiredPending → Result (List ExpiredPending)
older cutoff [] = ok []
older cutoff (row ∷ rows) = elim row.expires_at [
  | unaware t ↦ err type_error
  | aware t ↦ older cutoff rows >>= (λ rest. ok (if ltb t cutoff then row ∷ rest else rest))
]

-- The paths that the sweep may not reclaim, a set of which only the members matter.
unfoldable pub protected_paths :
    List Template → List Text → List ExpiredPending → List ExpiredPending → List Text
unfolding list_rows select_where contains
protected_paths templates live_paths all_expired candidates =
    let candidate_ids = map (λ c. c.upload_id) candidates in
    map (λ row. row.image_path) (list_rows templates)
    ++ live_paths
    ++ map (λ row. row.image_path)
        (select_where (λ row. not (contains row.upload_id candidate_ids)) all_expired)

-- The state of the loop: the two stores and the two counters.
pub record Sweep : Type 0 where
  pub rows : List UploadRow
  pub blobs : List Text
  pub reclaimed : List Text
  pub deleted_rows : ℕ

-- `store.delete(path)` on the paths that the store holds
unfoldable pub delete_blob : Text → List Text → List Text
unfolding delete_where text_eq
delete_blob path blobs = delete_where (text_eq path) blobs

-- One turn of the loop.
unfoldable pub sweep_one : List Text → ExpiredPending → Sweep → Sweep
unfolding contains delete_blob set_add delete_pending
sweep_one protected candidate s =
    let path = candidate.image_path in
    let orphaned = not (contains path protected) && not (contains path s.reclaimed) in
    record {
      rows = delete_pending candidate.upload_id s.rows;
      blobs = if orphaned then delete_blob path s.blobs else s.blobs;
      reclaimed = if orphaned then set_add path s.reclaimed else s.reclaimed;
      deleted_rows = suc s.deleted_rows;
    }

unfoldable pub sweep : List Text → List ExpiredPending → Sweep → Sweep
unfolding sweep_one
sweep protected [] s = s
sweep protected (candidate ∷ candidates) s =
    sweep protected candidates (sweep_one protected candidate s)

-- `{c.image_path for c in candidates if c.image_path not in protected}`
unfoldable pub orphaned_paths : List Text → List ExpiredPending → List Text
unfolding set_of select_where contains
orphaned_paths protected candidates =
    set_of
      (map (λ c. c.image_path)
        (select_where (λ c. not (contains c.image_path protected)) candidates))
      []

-- The printed counts, with the two stores after the run.
pub record Collected : Type 0 where
  pub deleted : ℕ
  pub freed : ℕ
  pub rows : List UploadRow
  pub blobs : List Text

-- `_gc` after its queries.
unfoldable pub collect :
    Bool → List Text → List ExpiredPending → List UploadRow → List Text → Collected
unfolding orphaned_paths sweep
collect dry_run protected [] rows blobs = record {
  deleted = 0;
  freed = 0;
  rows = rows;
  blobs = blobs;
}
collect true protected (c ∷ candidates) rows blobs = record {
  deleted = length (c ∷ candidates);
  freed = length (orphaned_paths protected (c ∷ candidates));
  rows = rows;
  blobs = blobs;
}
collect false protected (c ∷ candidates) rows blobs =
    let done =
      sweep protected (c ∷ candidates)
        record { rows = rows; blobs = blobs; reclaimed = []; deleted_rows = 0 } in
    record {
      deleted = done.deleted_rows;
      freed = length done.reclaimed;
      rows = done.rows;
      blobs = done.blobs;
    }

-- The readings of the clock: by `_gc`, by `expired` and by `live_image_paths`.
pub record Clocks : Type 0 where
  pub at_cutoff : ℕ
  pub at_expired : ℕ
  pub at_live : ℕ

unfoldable pub gc_uploads :
    Clocks → ℕ → Bool → List Template → List UploadRow → List Text → Result Collected
unfolding expired_uploads older protected_paths live_image_paths collect
gc_uploads now grace_window dry_run templates rows blobs =
    expired_uploads now.at_expired rows >>= (λ all_expired.
      older (now.at_cutoff - grace_window) all_expired >>= (λ candidates. ok (
        collect dry_run
          (protected_paths templates (live_image_paths now.at_live rows) all_expired candidates)
          candidates rows blobs)))
