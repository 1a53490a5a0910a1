-- ===== src/Uploads/Analysis/Fresh.antt =====
-- upload/service.py, `analyze_image`: what it leaves in the stores; with db/uploads.py and
-- cli/gc_uploads.py.
use meme_mcp.Base.{
  ℕ, ◌+◌, ◌≡◌, ◌∙◌, refl, ap, sym, inl, inr, true, false, List, ◌<◌, arith, ltb, Text, text_eq_refl,
  contains, rank, ok, >>=-eq-ok, Bool-cases,
}
use meme_mcp.Base.Json.{Dict}
use meme_mcp.Base.Table.Keyed.{insert-inv, Distinct}
use meme_mcp.Base.Table.Listing.{any}
use meme_mcp.Auth.Authorization.{principal_match_values}
use meme_mcp.Db.Templates.{Template}
use meme_mcp.Uploads.Pending.{PendingUpload, upload_key, create_pending, get_pending}
use meme_mcp.Uploads.Pending.Ownership.{get_pending-create_pending}
use meme_mcp.Uploads.Analysis.{
  Services, Upload, UploadStores, Image, check_image, enrich_image, put, new_upload, analyze_image,
}
use meme_mcp.Uploads.Collection.{Collected, Clocks, gc_uploads}
use meme_mcp.Uploads.Collection.Queries.{referenced}
use meme_mcp.Uploads.Collection.Safety.{gc_uploads-blobs}

contains-put :
    (v : Services) (path : Text) (blobs : List Text) → contains path (put v path blobs) ≡ true
unfolding contains
contains-put v path blobs = elim (Bool-cases (contains path blobs)) [
  | inl e ↦ rw (e, e) refl
  | inr e ↦ rw (e, text_eq_refl path) refl
]

module _ (v : Services) (u : Upload) (upload_id : Text) (ttl now : ℕ) (s s' : UploadStores)
    (upload : PendingUpload) (h : analyze_image v u upload_id ttl now s ≡ ok (upload, s')) where
  record Analyzed : Type 0 where
    image : Image
    metadata : Dict
    flags : List Text
    checked : check_image v u s.index ≡ ok image
    named : upload ≡ new_upload v upload_id u image metadata flags
    created : create_pending upload ttl now s.uploads ≡ ok s'.uploads
    written : s'.blobs ≡ put v upload.image_path s.blobs

  analyzed : Analyzed
  unfolding analyze_image
  analyzed =
      let (image, c, k) = >>=-eq-ok (check_image v u s.index) _ h in
      let (enriched, e, l) = >>=-eq-ok (enrich_image v u image) _ k in
      let made = new_upload v upload_id u image enriched.0 enriched.1 in
      let (uploads, r, done) = >>=-eq-ok (create_pending made ttl now s.uploads) _ l in
      let after : UploadStores = record s {
        uploads = uploads;
        blobs = put v made.image_path s.blobs;
      } in
      let same : made ≡ upload = cc in
      let same_stores : after ≡ s' = cc in
      record {
        image = image;
        metadata = enriched.0;
        flags = enriched.1;
        checked = c;
        named = sym same;
        created =
            ap (λ x. create_pending x ttl now s.uploads) (sym same)
            ∙ r
            ∙ ap (λ (x : UploadStores). ok x.uploads) same_stores;
        written =
            sym (ap (λ (x : UploadStores). x.blobs) same_stores)
            ∙ ap (λ (x : PendingUpload). put v x.image_path s.blobs) same;
      }

  -- After an analysis the image is in the store, and the upload is read by its owner, under every stored
  -- form of his name, until its time is over.
  pub analyze_image-readable :
      (friend : Text) (later : ℕ)
      → contains u.friend_login (principal_match_values friend) ≡ true
      → later < now + ttl
      → (contains upload.image_path s'.blobs ≡ true)
        × (get_pending upload.upload_id friend later s'.uploads ≡ ok upload)
  unfolding new_upload
  analyze_image-readable friend later o e =
      let a = analyzed in
      let owner : upload.friend_login ≡ u.friend_login = ap (λ x. x.friend_login) a.named in
      let in_time : ltb later (now + ttl) ≡ true = ground (arith, e) in
      (
        rw a.written (contains-put v upload.image_path s.blobs),
        get_pending-create_pending upload ttl now s.uploads s'.uploads upload.upload_id friend later
              a.created
            ∙ rw (text_eq_refl upload.upload_id, owner, o, in_time) refl,
      )

  -- A sweep on these stores that reads the uploads before the time of the new one is over keeps its image,
  -- whatever older uploads of the same image it collects. The ids of the uploads are distinct.
  pub fresh_image_survives :
      (clocks : Clocks) (grace_window : ℕ) (templates : List Template) (result : Collected)
      → Distinct upload_key s'.uploads
      → clocks.at_live < now + ttl
      → gc_uploads clocks grace_window false templates s'.uploads s'.blobs ≡ ok result
      → contains upload.image_path result.blobs ≡ true
  unfolding create_pending any rank
  fresh_image_survives clocks grace_window templates result d e g =
      let a = analyzed in
      let (absent, rows) = insert-inv upload_key _ s.uploads s'.uploads a.created in
      let live : ltb clocks.at_live (now + ttl) ≡ true = ground (arith, e) in
      let held : referenced clocks grace_window templates s'.uploads upload.image_path ≡ true =
        rw (rows, text_eq_refl upload.image_path, live) (ground arith) in
      gc_uploads-blobs clocks grace_window templates s'.uploads s'.blobs d result g
        upload.image_path
      ∙ rw (held, a.written, contains-put v upload.image_path s.blobs) (ground arith)
