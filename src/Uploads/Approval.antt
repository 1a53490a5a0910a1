-- ===== src/Uploads/Approval.antt =====
-- upload/service.py: `approve_pending`, with its helpers.
pub mod Stored
pub mod Reviewed
pub mod Later
use meme_mcp.Base.{
  ℕ, zero, suc, Bool, true, false, not, ◌&&◌, ◌||◌, Option, none, some, List, [], ◌∷◌, ◌++◌, codes,
  leb, ◌==◌, Text, text_eq, contains, strip, lower, is_empty, sorted_set, Result, ok, err, ◌>>=◌,
  invalid_input, vlm_output_suspect, if◌then◌else◌,
}
use meme_mcp.Base.Json.{
  Json, null, boolean, number, string, array, object, Items, no_items, item, Dict, no_entries,
  entry, get, has_key, set,
}
use meme_mcp.Metadata.Locales.{
  supported_content_locales, localized_fields, locales_key, human, as_dict, as_text,
  stamp_locale_provenance, merge_locales,
}
use meme_mcp.Vlm.Sanitize.{Library, flag_anomalies, take}
use meme_mcp.Vlm.Sanitize.Metadata.{hard_sanitize_metadata, origin_key}
use meme_mcp.Auth.Sessions.{Friend, require_write}
use meme_mcp.Db.Templates.{Template, upsert, get_template}
use meme_mcp.Uploads.Pending.{PendingUpload, UploadRow, delete_pending}
use meme_mcp.Uploads.Validation.{typed_slots, name_of, validated_metadata, stamp_human_locale_edits}

abbrev pub is_slug_char : ℕ → Bool
is_slug_char c = (leb b'a' c && leb c b'z') || (leb b'0' c && leb c b'9')

-- `re.sub(r"[^a-z0-9]+", "-", s)`, inside a run of other characters or not
unfoldable pub slug_of : Bool → Text → Text
slug_of in_run [] = []
slug_of in_run (c ∷ s) = elim (is_slug_char c) [
  | true ↦ c ∷ slug_of false s
  | false ↦ elim in_run [ true ↦ slug_of true s | false ↦ b'-' ∷ slug_of true s ]
]

-- `s.lstrip("-")` and `s.strip("-")`
unfoldable pub lstrip_dashes : Text → Text
lstrip_dashes [] = []
lstrip_dashes (c ∷ s) = let rest = lstrip_dashes s in if c == b'-' then rest else c ∷ s

abbrev pub cons_dashes : ℕ → Text → Text
cons_dashes c [] = if c == b'-' then [] else c ∷ []
cons_dashes c (x ∷ s) = c ∷ x ∷ s

unfoldable pub rstrip_dashes : Text → Text
rstrip_dashes [] = []
rstrip_dashes (c ∷ s) = cons_dashes c (rstrip_dashes s)

abbrev pub or_else_text : Text → Text → Text
or_else_text [] other = other
or_else_text (c ∷ s) other = c ∷ s

unfoldable pub template_id_of : Text → Text → Text
unfolding slug_of lstrip_dashes rstrip_dashes lower take
template_id_of name exact_hash =
    or_else_text (rstrip_dashes (lstrip_dashes (slug_of false (lower name))))
      (codes "uploaded-meme")
    ++ (b'-' ∷ take 8 exact_hash)

unfoldable pub stored_metadata_for : List Template → Text → Option Dict
unfolding get_template
stored_metadata_for templates template_id = elim (get_template template_id templates) [
  | err _ ↦ none
  | ok row ↦ some row.metadata
]

-- What the caller of `approve_pending` passes beside the upload.
pub record Review : Type 0 where
  pub metadata_overrides : Option Dict
  pub slot_overrides : Option Items
  pub ack_suspect : Bool
  pub origin_reviewed : Bool

-- The two stores.
pub record Stores : Type 0 where
  pub templates : List Template
  pub uploads : List UploadRow

-- The metadata that is validated, and the edits that are marked in it.
unfoldable pub reviewed_metadata : Library → PendingUpload → Review → Result Dict
unfolding validated_metadata hard_sanitize_metadata stamp_human_locale_edits
reviewed_metadata lib pending review = elim review.metadata_overrides [
  | none ↦
      validated_metadata lib pending.metadata pending.suspect_flags review.ack_suspect
        review.origin_reviewed
  | some overrides ↦
      validated_metadata lib overrides pending.suspect_flags review.ack_suspect
        review.origin_reviewed
      >>= (λ metadata.
          hard_sanitize_metadata lib pending.metadata
          >>= (λ baseline. ok (stamp_human_locale_edits metadata baseline)))
]

unfoldable pub new_template : Library → PendingUpload → Review → Dict → List Template → Template
unfolding name_of template_id_of merge_locales stored_metadata_for typed_slots
new_template lib pending review metadata templates =
    let name = name_of lib metadata in
    let template_id = template_id_of name pending.exact_hash in
    record {
      template_id = template_id;
      slug = template_id;
      name = name;
      source = codes "friend";
      metadata = merge_locales (stored_metadata_for templates template_id) metadata;
      slot_definitions =
          typed_slots
            (elim review.slot_overrides [ none ↦ pending.slot_definitions | some slots ↦ slots ]);
      image_path = pending.image_path;
      perceptual_hash = pending.perceptual_hash;
      exact_hash = pending.exact_hash;
    }

-- `approve_pending`: the id of the template, with the stores.
unfoldable pub approve_pending :
    Library → PendingUpload → Friend → Review → Stores → Result (Text × Stores)
unfolding require_write reviewed_metadata new_template upsert delete_pending
approve_pending lib pending actor review s = require_write actor >>= (λ _.
    reviewed_metadata lib pending review >>= (λ metadata.
      let template = new_template lib pending review metadata s.templates in
      upsert template s.templates >>= (λ templates. ok (
        template.template_id,
        record { templates = templates; uploads = delete_pending pending.upload_id s.uploads },
      ))))
