-- ===== src/Uploads/Analysis.antt =====
-- upload/service.py, `analyze_image`, with upload/validation.py. The bytes of an image are a Text.
-- `Services` is what is called of libmagic, of Pillow with its hashes, of base64 and SHA-256, of the rate
-- limiter, and of the two models.
pub mod Fresh
use meme_mcp.Base.{
  ℕ, ◌*◌, Bool, true, false, not, ◌&&◌, ◌||◌, Option, none, some, List, [], ◌∷◌, ◌++◌, codes, ltb,
  length, Text, text_eq, contains, strip, is_empty, Result, ok, err, ◌>>=◌, upload_rejected,
  invalid_input, duplicate_template, if◌then◌else◌,
}
use meme_mcp.Base.Json.{Json, string, array, object, no_items, item, Dict, no_entries, entry, set}
use meme_mcp.Web.SafeNext.{remove_prefix}
use meme_mcp.Vlm.Sanitize.{Library, take, is_infix}
use meme_mcp.Uploads.Pending.{PendingUpload, UploadRow, create_pending}
use meme_mcp.Uploads.Dedupe.{DuplicateRecord, DuplicateCheck, block, warn, accept, check_duplicates}
use meme_mcp.Uploads.Validation.{placeholder_name, slot, slots_key, slot_definitions_for}
use meme_mcp.Uploads.Machine.{
  Enrichment, succeeded, Detection, Lookup, reverse_image_lookup, resolve_machine_locales, or_none,
}
use meme_mcp.Vlm.Sanitize.Metadata.{origin_key}

pub record Services : Type 0 where
  pub lib : Library
  pub verdict : Text → Option Bool
  pub hit : Text → Result (Unit {0})
  pub decode_base64 : Text → Option Text
  pub magic : Text → Option Text
  pub verify_image : Text → Bool
  pub strip_and_reencode : Text → Text → Result Text
  pub compute_hashes : Text → Result (Text × Text)
  pub path_for : Text → Text → Text
  pub detect : Option (Text → Detection)
  pub enrich : Text → Option Text → Option Text → Bool → Bool → Enrichment

abbrev pub max_upload_bytes : ℕ
max_upload_bytes = 10 * 1024 * 1024

abbrev pub png : Text
png = codes "image/png"

abbrev pub jpeg : Text
jpeg = codes "image/jpeg"

abbrev pub webp : Text
webp = codes "image/webp"

unfoldable pub starts_with : Text → Text → Bool
unfolding remove_prefix
starts_with prefix s = elim (remove_prefix prefix s) [ none ↦ false | some _ ↦ true ]

-- The magic bytes, where libmagic does not tell.
unfoldable pub mime_of_prefix : Text → Option Text
unfolding starts_with is_infix take
mime_of_prefix content =
    if starts_with (137 ∷ 80 ∷ 78 ∷ 71 ∷ 13 ∷ 10 ∷ 26 ∷ 10 ∷ []) content
    then some png
    else if starts_with (255 ∷ 216 ∷ 255 ∷ []) content
    then some jpeg
    else if starts_with (codes "RIFF") content && is_infix (codes "WEBP") (take 16 content)
    then some webp
    else none

module _ (v : Services) where
  unfoldable pub detect_mime : Text → Option Text
  unfolding contains mime_of_prefix
  detect_mime content = elim (v.magic content) [
    | none ↦ mime_of_prefix content
    | some detected ↦
        if contains detected (png ∷ jpeg ∷ webp ∷ []) then some detected else mime_of_prefix content
  ]

  -- `validate_upload`: the type of the image
  unfoldable pub validate_upload : Text → Text → Result Text
  unfolding detect_mime text_eq
  validate_upload content declared_mime =
      if ltb max_upload_bytes (length content)
      then err upload_rejected
      else elim (detect_mime content) [
        | none ↦ err upload_rejected
        | some detected ↦
            if not (text_eq detected declared_mime)
            then err upload_rejected
            else if v.verify_image content
            then ok detected
            else err upload_rejected
      ]

-- `_normalize_title_hint`, on `str(value)`
unfoldable pub normalize_title_hint : Option Text → Option Text
unfolding strip
normalize_title_hint none = none
normalize_title_hint (some value) = or_none (strip value)

unfoldable pub extension_for_mime : Text → Text
unfolding text_eq
extension_for_mime mime =
    if text_eq mime png
    then codes "png"
    else if text_eq mime jpeg
    then codes "jpg"
    else codes "webp"

unfoldable pub blank_upload_metadata : Option Text → Dict
blank_upload_metadata title_hint =
    entry (codes "name") (string (elim title_hint [ none ↦ placeholder_name | some t ↦ t ])) (
      entry (codes "description") (string []) (
        entry (codes "emotion") (string []) (
          entry (codes "usage_context") (string []) (
            entry (codes "tags") (array no_items) (
              entry (codes "format") (string (codes "static"))
                (entry slots_key (array (item (slot (codes "top")) no_items)) no_entries))))))

-- What the caller passes.
pub record Upload : Type 0 where
  pub content_base64 : Text
  pub declared_mime : Text
  pub title_hint : Option Text
  pub friend_login : Text
  pub identify_online : Bool

-- The stores, with the index of the known images.
pub record UploadStores : Type 0 where
  pub uploads : List UploadRow
  pub blobs : List Text
  pub index : List DuplicateRecord

abbrev pub action_of : DuplicateCheck → Text
action_of (block t) = codes "block"
action_of (warn t) = codes "warn"
action_of accept = codes "accept"

abbrev pub duplicate_of : DuplicateCheck → Option Text
duplicate_of (block t) = some t
duplicate_of (warn t) = some t
duplicate_of accept = none

abbrev pub refuse_block : DuplicateCheck → Result DuplicateCheck
refuse_block (block t) = err duplicate_template
refuse_block (warn t) = ok (warn t)
refuse_block accept = ok accept

-- The sanitized image, with what is known of it before a model is asked.
pub record Image : Type 0 where
  pub sanitized : Text
  pub mime : Text
  pub exact_hash : Text
  pub perceptual_hash : Text
  pub duplicate : DuplicateCheck

module _ (v : Services) where
  -- The steps up to the duplicate check.
  unfoldable pub check_image : Upload → List DuplicateRecord → Result Image
  unfolding validate_upload check_duplicates
  check_image u index = do
    admitted ← v.hit u.friend_login
    content ← elim (v.decode_base64 u.content_base64) [ none ↦ err invalid_input | some c ↦ ok c ]
    mime ← validate_upload v content u.declared_mime
    sanitized ← v.strip_and_reencode content mime
    hashes ← v.compute_hashes sanitized
    duplicate ← check_duplicates index hashes.0 hashes.1
    allowed ← refuse_block duplicate
    ok record {
      sanitized = sanitized;
      mime = mime;
      exact_hash = hashes.0;
      perceptual_hash = hashes.1;
      duplicate = allowed;
    }

  abbrev pub with_origin : Option Dict → Dict → Dict
  with_origin none metadata = metadata
  with_origin (some origin) metadata = set origin_key (object origin) metadata

  -- The proposal of the model, or the blank form, with the flags.
  unfoldable pub proposal : Option Text → Enrichment → Dict × List Text
  unfolding blank_upload_metadata text_eq
  proposal hint enrichment = elim (succeeded enrichment) [
    | some metadata ↦ (metadata, enrichment.suspect_flags)
    | none ↦ (blank_upload_metadata hint, (codes "vlm_" ++ enrichment.status) ∷ [])
  ]

  abbrev pub detected_in : Text → Option (Text → Detection) → Option Detection
  detected_in sanitized none = none
  detected_in sanitized (some client) = some (client sanitized)

  -- The metadata and the flags of the upload.
  unfoldable pub enrich_image : Upload → Image → Result (Dict × List Text)
  unfolding normalize_title_hint reverse_image_lookup proposal resolve_machine_locales text_eq set
  enrich_image u image =
      let hint = normalize_title_hint u.title_hint in
      reverse_image_lookup v.lib u.identify_online (detected_in image.sanitized v.detect)
      >>= (λ found.
          let authoritative = text_eq found.status (codes "success") in
          let (proposed, flags) =
            proposal hint (v.enrich image.sanitized hint found.grounding authoritative false) in
          ok (
            resolve_machine_locales v.verdict (with_origin found.origin_block proposed)
                (v.enrich image.sanitized hint found.grounding authoritative true),
            flags,
          ))

  -- `image_store.put`, which leaves a path that is there
  abbrev pub put : Text → List Text → List Text
  put path blobs = if contains path blobs then blobs else path ∷ blobs

  unfoldable pub new_upload : Text → Upload → Image → Dict → List Text → PendingUpload
  unfolding extension_for_mime slot_definitions_for
  new_upload upload_id u image metadata suspect_flags = record {
    upload_id = upload_id;
    friend_login = u.friend_login;
    image_path = v.path_for image.sanitized (extension_for_mime image.mime);
    metadata = metadata;
    slot_definitions = slot_definitions_for metadata;
    exact_hash = image.exact_hash;
    perceptual_hash = image.perceptual_hash;
    duplicate_action = action_of image.duplicate;
    duplicate_template_id = duplicate_of image.duplicate;
    suspect_flags = suspect_flags;
  }

  -- `analyze_image`: the row is created before the image is written; `upload_id` is the drawn id.
  unfoldable pub analyze_image :
      Upload → Text → ℕ → ℕ → UploadStores → Result (PendingUpload × UploadStores)
  unfolding check_image enrich_image new_upload create_pending contains
  analyze_image u upload_id ttl now s = check_image u s.index >>= (λ image.
      enrich_image u image >>= (λ enriched.
        let upload = new_upload upload_id u image enriched.0 enriched.1 in
        create_pending upload ttl now s.uploads >>= (λ uploads.
          ok (upload, record s { uploads = uploads; blobs = put upload.image_path s.blobs }))))
