-- ===== src/Uploads/Approval/Stored.antt =====
-- upload/service.py, `approve_pending`: what it does to the stores; with cli/gc_uploads.py.
use meme_mcp.Base.{
  codes, ℕ, ◌≡◌, ◌∙◌, refl, ap, sym, ◌⊎◌, inl, inr, true, false, ◌&&◌, Option, none, some, List, [],
  arith, Text, text_eq, text_eq_refl, contains, ok, err, key_error, unauthorized, >>=-eq-ok,
  if◌then◌else◌, Bool-cases,
}
use meme_mcp.Base.Json.{Dict, Items}
use meme_mcp.Base.Table.{first_where-delete_where-none}
use meme_mcp.Base.Table.Keyed.{at, find, Distinct}
use meme_mcp.Base.Table.Listing.{any, any-find}
use meme_mcp.Vlm.Sanitize.{Library}
use meme_mcp.Metadata.Locales.{merge_locales}
use meme_mcp.Auth.Sessions.{Friend, can_write, require_write}
use meme_mcp.Db.Templates.{Template, template_key, upsert, get_template, get_template-upsert}
use meme_mcp.Uploads.Pending.{
  PendingUpload, UploadRow, upload_key, is_live, owned, get_pending, delete_pending,
}
use meme_mcp.Uploads.Validation.{typed_slots}
use meme_mcp.Uploads.Approval.{
  Review, Stores, stored_metadata_for, reviewed_metadata, new_template, approve_pending,
}
use meme_mcp.Uploads.Collection.{Collected, Clocks, gc_uploads}
use meme_mcp.Uploads.Collection.Safety.{gc_uploads-blobs}
use meme_mcp.Uploads.Approval.Reviewed.{
  submitted_slots, metadata_of, Reviewed, reviewed_metadata-Reviewed, acknowledged,
  stored_metadata_for-metadata_of,
}
use meme_mcp.Uploads.Approval.Later.{Holds, Later, Later-Holds}

require_write-ok :
    (actor f : Friend) → require_write actor ≡ ok f → can_write actor.capability ≡ true
unfolding require_write
require_write-ok actor f h = elim (Bool-cases (can_write actor.capability)) [
  | inl e ↦ e
  | inr e ↦ let k : err unauthorized ≡ ok f = rw e at h in absurd (cc)
]

get_pending-delete_pending :
    (k friend : Text) (now : ℕ) (s : List UploadRow)
    → get_pending k friend now (delete_pending k s) ≡ err key_error
unfolding get_pending delete_pending
get_pending-delete_pending k friend now s =
    let gone =
      first_where-delete_where-none (at upload_key k) (λ r. owned k friend r && is_live now r) s
        (λ r e. ground (arith, e)) in
    rw (get_pending, delete_pending, gone) refl

get_template-find :
    (k : Text) (s : List Template) (t : Template)
    → get_template k s ≡ ok t
    → find template_key k s ≡ some t
unfolding get_template
get_template-find k s t h = found (find template_key k s) h
  where
    found :
        (o : Option Template)
        → (elim o [ none ↦ err key_error | some row ↦ ok row ]) ≡ ok t
        → o ≡ some t
    found none e = absurd (cc)
    found (some row) e = cc

module _ (lib : Library) (pending : PendingUpload) (actor : Friend) (review : Review)
    (s s' : Stores) (id : Text) (h : approve_pending lib pending actor review s ≡ ok (id, s')) where
  -- What an approval that succeeds has done.
  record Approved : Type 0 where
    allowed : can_write actor.capability ≡ true
    metadata : Dict
    reviewed : reviewed_metadata lib pending review ≡ ok metadata
    id_of : id ≡ (new_template lib pending review metadata s.templates).template_id
    stored :
        upsert (new_template lib pending review metadata s.templates) s.templates ≡ ok s'.templates
    removed : s'.uploads ≡ delete_pending pending.upload_id s.uploads

  approved : Approved
  unfolding approve_pending
  approved =
      let (f, w, k) = >>=-eq-ok (require_write actor) _ h in
      let (metadata, m, l) = >>=-eq-ok (reviewed_metadata lib pending review) _ k in
      let (templates, u, done) =
        >>=-eq-ok (upsert (new_template lib pending review metadata s.templates) s.templates) _ l in
      let after : Stores = record {
        templates = templates;
        uploads = delete_pending pending.upload_id s.uploads;
      } in
      let same_id : (new_template lib pending review metadata s.templates).template_id ≡ id = cc in
      let same_stores : after ≡ s' = cc in
      record {
        allowed = require_write-ok actor f w;
        metadata = metadata;
        reviewed = m;
        id_of = sym same_id;
        stored = u ∙ ap (λ (x : Stores). ok x.templates) same_stores;
        removed = sym (ap (λ (x : Stores). x.uploads) same_stores);
      }

  approved_template :
      (a : Approved)
      → get_template id s'.templates ≡ ok (new_template lib pending review a.metadata s.templates)
  approved_template a =
      rw
        (
          a.id_of,
          get_template-upsert (new_template lib pending review a.metadata s.templates) s.templates
              s'.templates _ a.stored,
          text_eq_refl,
        )
        refl

  -- An approval that succeeds is by a friend who may write, who has acknowledged the flags of the
  -- upload if it has any. It stores a template under the returned id with the image and the hashes of
  -- the upload, with the submitted slots, and with the submitted metadata, validated, marked where the friend edited it, and merged
  -- into the metadata of the template that had this id before; every other template stays, and the
  -- upload cannot be read again.
  pub approve_pending-stored :
      (k friend : Text) (now : ℕ)
      → (can_write actor.capability ≡ true)
        × ((review.ack_suspect ≡ true) ⊎ (pending.suspect_flags ≡ []))
        × ((t : Template) × (get_template id s'.templates ≡ ok t)
            × (t.image_path ≡ pending.image_path)
            × (t.exact_hash ≡ pending.exact_hash)
            × (t.perceptual_hash ≡ pending.perceptual_hash)
            × (t.slug ≡ id)
            × (t.source ≡ codes "friend")
            × (t.slot_definitions
                ≡ typed_slots (submitted_slots review.slot_overrides pending.slot_definitions))
            × ((metadata : Dict) × Reviewed lib pending review metadata
                × (t.metadata
                    ≡ merge_locales (metadata_of (get_template id s.templates)) metadata)))
        × (get_template k s'.templates
            ≡ (if text_eq id k then get_template id s'.templates else get_template k s.templates))
        × (get_pending pending.upload_id friend now s'.uploads ≡ err key_error)
  unfolding new_template
  approve_pending-stored k friend now =
      let a = approved in
      let reviewed = reviewed_metadata-Reviewed lib pending review a.metadata a.reviewed in
      (
        a.allowed,
        acknowledged lib pending review a.metadata reviewed,
        (
          new_template lib pending review a.metadata s.templates,
          approved_template a,
          refl,
          refl,
          refl,
          sym a.id_of,
          refl,
          ap typed_slots (slots review.slot_overrides),
          (
            a.metadata,
            reviewed,
            ap (λ i. merge_locales (stored_metadata_for s.templates i) a.metadata) (sym a.id_of)
                ∙ ap (λ m. merge_locales m a.metadata)
                    (stored_metadata_for-metadata_of s.templates id),
          ),
        ),
        get_template-upsert (new_template lib pending review a.metadata s.templates) s.templates
              s'.templates k a.stored
            ∙ rw (approved_template a, ← a.id_of) refl,
        rw a.removed (get_pending-delete_pending pending.upload_id friend now s.uploads),
      )
    where
      slots :
          (o : Option Items)
          → (elim o [ none ↦ pending.slot_definitions | some slots ↦ slots ])
            ≡ submitted_slots o pending.slot_definitions
      slots none = refl
      slots (some overrides) = refl

  approved-Holds : Holds id pending.image_path s'.templates
  unfolding new_template
  approved-Holds =
      let a = approved in
      (new_template lib pending review a.metadata s.templates, approved_template a, refl)

  -- The image of an approved template survives every later sweep: whatever templates were stored since,
  -- as long as none replaced the approved one by one with another image, and whatever uploads there are
  -- then, due or not, with distinct ids, the collection leaves the image as it is.
  pub approved_image_survives :
      (templates : List Template) (now : Clocks) (grace_window : ℕ) (rows : List UploadRow)
      (blobs : List Text) (result : Collected)
      → Later id pending.image_path s'.templates templates
      → Distinct upload_key rows
      → gc_uploads now grace_window false templates rows blobs ≡ ok result
      → contains pending.image_path result.blobs ≡ contains pending.image_path blobs
  approved_image_survives templates now grace_window rows blobs result l d g =
      let (template, stored, image) = Later-Holds id pending.image_path l approved-Holds in
      let found = get_template-find id templates template stored in
      let held : any (λ t. text_eq pending.image_path t.image_path) templates ≡ true =
        any-find template_key id _ templates template found
          (rw image (text_eq_refl pending.image_path)) in
      gc_uploads-blobs now grace_window templates rows blobs d result g pending.image_path
      ∙ rw held (ground arith)
