-- ===== src/Uploads/Collection/Safety.antt =====
-- cli/gc_uploads.py, `_gc` with its queries.
use meme_mcp.Base.{
  ℕ, ◌-◌, ◌≡◌, ◌∙◌, refl, ap, ◌⊎◌, inl, inr, Bool, true, false, ◌&&◌, not, none, some, List, map,
  arith, Text, text_eq, contains, ok, >>=-eq-ok, Bool-cases, Option-cases,
}
use meme_mcp.Base.Table.Keyed.{find, find-key, find-delete_where, unless, Distinct}
use meme_mcp.Base.Table.Listing.{any}
use meme_mcp.Db.Templates.{Template}
use meme_mcp.Uploads.Pending.{
  UploadRow, ExpiredPending, upload_key, expired_uploads, live_image_paths,
}
use meme_mcp.Uploads.Collection.{older, protected_paths, Collected, collect, Clocks, gc_uploads}
use meme_mcp.Uploads.Collection.Queries.{
  due, referenced, any-candidates, due_candidate, contains-protected_paths,
}
use meme_mcp.Uploads.Collection.Sweeping.{
  collect_dry, collect_unchanged, rows-collect, collect-protected, collect_orphan, collect_other,
}

gc_uploads-inv :
    (now : Clocks) (grace_window : ℕ) (dry_run : Bool) (templates : List Template)
    (rows : List UploadRow) (blobs : List Text) (result : Collected)
    → gc_uploads now grace_window dry_run templates rows blobs ≡ ok result
    → (all_expired candidates : List ExpiredPending) × (expired_uploads now.at_expired rows
        ≡ ok all_expired)
      × (older (now.at_cutoff - grace_window) all_expired ≡ ok candidates)
      × (collect dry_run
            (protected_paths templates (live_image_paths now.at_live rows) all_expired candidates)
            candidates
            rows
            blobs
          ≡ result)
unfolding gc_uploads
gc_uploads-inv now grace_window dry_run templates rows blobs result h =
    let (all_expired, e, k) = >>=-eq-ok (expired_uploads now.at_expired rows) _ h in
    let (candidates, o, m) = >>=-eq-ok (older (now.at_cutoff - grace_window) all_expired) _ k in
    (all_expired, candidates, e, o, cc m)

module _ (now : Clocks) (grace_window : ℕ) (templates : List Template) (rows : List UploadRow)
    (blobs : List Text) (d : Distinct upload_key rows) (result : Collected)
    (h : gc_uploads now grace_window false templates rows blobs ≡ ok result) where
  -- After a sweep exactly those rows are gone that were due: expired, and before the grace window.
  pub gc_uploads-rows :
      (k : Text)
      → find upload_key k result.rows ≡ unless (due now grace_window) (find upload_key k rows)
  gc_uploads-rows k =
      let (all_expired, candidates, e, o, r) =
        gc_uploads-inv now grace_window false templates rows blobs result h in
      rw (← r) (
        ap (find upload_key k) (rows-collect _ rows blobs candidates)
        ∙ find-delete_where upload_key _ k rows d
        ∙ same_rows all_expired candidates e o (Option-cases (find upload_key k rows)))
    where
      same_rows :
          (all_expired candidates : List ExpiredPending)
          → expired_uploads now.at_expired rows ≡ ok all_expired
          → older (now.at_cutoff - grace_window) all_expired ≡ ok candidates
          → (find upload_key k rows ≡ none) ⊎ ((r : UploadRow) × (find upload_key k rows ≡ some r))
          → unless
              (λ r. contains (upload_key r) (map (λ c. c.upload_id) candidates))
              (find upload_key k rows)
            ≡ unless (due now grace_window) (find upload_key k rows)
      same_rows all_expired candidates e o (inl n) = rw n refl
      same_rows all_expired candidates e o (inr (r, f)) =
          let own : upload_key r ≡ k = find-key upload_key k rows f in
          rw
            (
              f,
              own,
              due_candidate now grace_window templates rows all_expired candidates e o d k r f,
            )
            refl

  -- After a sweep exactly those images are gone that a due row refers to and nothing else does: no
  -- template, no live upload, and no expired one that is not due. The ids of the uploads are distinct.
  pub gc_uploads-blobs :
      (x : Text)
      → contains x result.blobs ≡ (
          contains x blobs
          && not (
              any (λ r. due now grace_window r && text_eq x r.upload.image_path) rows
              && not (referenced now grace_window templates rows x)))
  gc_uploads-blobs x =
      let (all_expired, candidates, e, o, r) =
        gc_uploads-inv now grace_window false templates rows blobs result h in
      let protected =
        protected_paths templates (live_image_paths now.at_live rows) all_expired candidates in
      let guard : contains x protected ≡ referenced now grace_window templates rows x =
        contains-protected_paths now grace_window templates rows all_expired candidates e o d x in
      let due_path : any (λ c. text_eq x c.image_path) candidates
          ≡ any (λ u. due now grace_window u && text_eq x u.upload.image_path) rows =
        any-candidates now grace_window templates rows all_expired candidates e o
          (λ c. text_eq x c.image_path) in
      rw (← r, ← guard, ← due_path)
        (decide protected candidates (Bool-cases (contains x protected))
          (Bool-cases (any (λ c. text_eq x c.image_path) candidates)))
    where
      decide :
          (protected : List Text) (candidates : List ExpiredPending)
          → (contains x protected ≡ true) ⊎ (contains x protected ≡ false)
          → (any (λ c. text_eq x c.image_path) candidates ≡ true)
            ⊎ (any (λ c. text_eq x c.image_path) candidates ≡ false)
          → contains x (collect false protected candidates rows blobs).blobs ≡ (
              contains x blobs
              && not (any (λ c. text_eq x c.image_path) candidates && not (contains x protected)))
      decide protected candidates (inl p) q =
          rw (collect-protected protected rows blobs candidates x p, p) (ground arith)
      decide protected candidates (inr p) (inr q) =
          rw (collect_other protected rows blobs candidates x q, q) (ground arith)
      decide protected candidates (inr p) (inl q) =
          rw (collect_orphan protected rows blobs candidates x q p, p, q) (ground arith)

-- A dry run changes nothing, and announces the numbers of rows and of images that the real run at the
-- same readings of the clock deletes.
pub gc_uploads-dry_run :
    (now : Clocks) (grace_window : ℕ) (templates : List Template) (rows : List UploadRow)
    (blobs : List Text) (dry real : Collected)
    → gc_uploads now grace_window true templates rows blobs ≡ ok dry
    → gc_uploads now grace_window false templates rows blobs ≡ ok real
    → (dry.deleted ≡ real.deleted)
      × (dry.freed ≡ real.freed)
      × (dry.rows ≡ rows)
      × (dry.blobs ≡ blobs)
gc_uploads-dry_run now grace_window templates rows blobs dry real h k =
    let (a, c, e, o, r) = gc_uploads-inv now grace_window true templates rows blobs dry h in
    let (a', c', e', o', r') = gc_uploads-inv now grace_window false templates rows blobs real k in
    let all_same : a' ≡ a = cc (e, e') in
    let same : c' ≡ c = cc (o, o', all_same) in
    let (deleted, freed) = collect_dry _ rows blobs c in
    let (kept_rows, kept_blobs) = collect_unchanged _ rows blobs c in
    let there : collect false (protected_paths templates (live_image_paths now.at_live rows) a c) c
          rows blobs
        ≡ real =
      rw (← all_same, ← same) r' in
    rw (← r, ← there) (deleted, freed, kept_rows, kept_blobs)
