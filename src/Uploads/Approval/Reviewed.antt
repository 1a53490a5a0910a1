-- ===== src/Uploads/Approval/Reviewed.antt =====
-- upload/service.py, `approve_pending`: the metadata that it stores.
use meme_mcp.Base.{
  ◌≡◌, refl, ◌⊎◌, inl, inr, true, Option, none, some, List, [], Text, Result, ok, err, Option-cases,
  >>=-eq-ok,
}
use meme_mcp.Base.Json.{Dict, Items}
use meme_mcp.Vlm.Sanitize.{Library}
use meme_mcp.Db.Templates.{Template, get_template}
use meme_mcp.Uploads.Pending.{PendingUpload}
use meme_mcp.Uploads.Approval.{Review, stored_metadata_for, reviewed_metadata}
use meme_mcp.Vlm.Sanitize.Metadata.{hard_sanitize_metadata}
use meme_mcp.Uploads.Validation.{validated_metadata, stamp_human_locale_edits}
use meme_mcp.Uploads.Validation.Checked.{validated_metadata-checked}

-- The metadata of a template, where there is one.
abbrev pub metadata_of : Result Template → Option Dict
metadata_of (err _) = none
metadata_of (ok row) = some row.metadata

-- The metadata that the friend submits: the upload's, or his own.
abbrev pub submitted : Option Dict → Dict → Dict
submitted none given = given
submitted (some overrides) given = overrides

-- The slots that the friend submits, in the same way.
abbrev pub submitted_slots : Option Items → Items → Items
submitted_slots none given = given
submitted_slots (some overrides) given = overrides

-- Own metadata is marked where it differs from the upload's, which is cleaned for the comparison.
abbrev pub Marked : Library → Option Dict → Dict → Dict → Dict → Type 0
Marked lib none given validated metadata = metadata ≡ validated
Marked lib (some overrides) given validated metadata =
    (baseline : Dict) × (hard_sanitize_metadata lib given ≡ ok baseline)
    × (metadata ≡ stamp_human_locale_edits validated baseline)

-- What is reviewed is the submitted metadata, validated under the flags of the upload, and marked.
abbrev pub Reviewed : Library → PendingUpload → Review → Dict → Type 0
Reviewed lib pending review metadata =
    (validated : Dict) × (validated_metadata lib
        (submitted review.metadata_overrides pending.metadata) pending.suspect_flags
        review.ack_suspect review.origin_reviewed
      ≡ ok validated)
    × Marked lib review.metadata_overrides pending.metadata validated metadata

pub reviewed_metadata-Reviewed :
    (lib : Library) (pending : PendingUpload) (review : Review) (metadata : Dict)
    → reviewed_metadata lib pending review ≡ ok metadata
    → Reviewed lib pending review metadata
unfolding reviewed_metadata
reviewed_metadata-Reviewed lib pending review metadata h =
    elim (Option-cases review.metadata_overrides) [
      | inl e ↦ rw e (metadata, rw e at h, refl)
      | inr (overrides, e) ↦
          let (validated, v, rest) =
            >>=-eq-ok
              (validated_metadata lib overrides pending.suspect_flags review.ack_suspect
                review.origin_reviewed)
              _ (rw e at h) in
          let (baseline, b, done) =
            >>=-eq-ok (hard_sanitize_metadata lib pending.metadata) _ rest in
          rw e (validated, v, (baseline, b, cc))
    ]

pub acknowledged :
    (lib : Library) (pending : PendingUpload) (review : Review) (metadata : Dict)
    → Reviewed lib pending review metadata
    → (review.ack_suspect ≡ true) ⊎ (pending.suspect_flags ≡ [])
acknowledged lib pending review metadata (validated, v, _) =
    let (_, (cleaned, _, _, _, _, flags)) =
      validated_metadata-checked lib _ validated pending.suspect_flags review.ack_suspect
        review.origin_reviewed v in
    elim flags [ inl a ↦ inl a | inr (none_raised, _, _) ↦ inr none_raised ]

pub stored_metadata_for-metadata_of :
    (templates : List Template) (id : Text)
    → stored_metadata_for templates id ≡ metadata_of (get_template id templates)
unfolding stored_metadata_for
stored_metadata_for-metadata_of templates id = of_result (get_template id templates)
  where
    of_result :
        (r : Result Template)
        → (elim r [ err _ ↦ none | ok row ↦ some row.metadata ]) ≡ metadata_of r
    of_result (err e) = refl
    of_result (ok row) = refl
