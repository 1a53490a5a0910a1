-- ===== src/Examples/Reviews.antt =====
-- An upload, its analysis and its approval at concrete inputs.
use meme_mcp.Base.{
  ◌≢◌, All, ◌≡◌, refl, ◌⊎◌, false, true, none, [], ◌∷◌, List, Text, codes, ok, err, key_error,
  text_eq, contains, is_empty, strip, if◌then◌else◌, utc, lower_char, is_space, rank,
}
use meme_mcp.Vlm.Sanitize.{flag_anomalies}
use meme_mcp.Base.Json.{get, Items, has_key, Dict, no_entries, entry, string, array, no_items}
use meme_mcp.Auth.Sessions.{Friend, can_write, default_capability}
use meme_mcp.Metadata.Locales.{merge_locales}
use meme_mcp.Db.Templates.{Template, upsert, get_template}
use meme_mcp.Uploads.Pending.{PendingUpload, UploadRow, get_pending}
use meme_mcp.Uploads.Collection.{Clocks, Collected, gc_uploads}
use meme_mcp.Uploads.Approval.{Review, Stores, approve_pending}
use meme_mcp.Uploads.Validation.{typed_slots, validated_metadata, placeholder_name, required_keys}
use meme_mcp.Uploads.Validation.Checked.{IsNamed, validated_metadata-checked}
use meme_mcp.Uploads.Approval.Stored.{approve_pending-stored, approved_image_survives}
use meme_mcp.Uploads.Approval.Later.{Later, here, next}
use meme_mcp.Uploads.Approval.Reviewed.{Reviewed, metadata_of}
use meme_mcp.Vlm.Sanitize.Metadata.{hard_sanitize_metadata}
use meme_mcp.Examples.Fixtures.{value}
use meme_mcp.Examples.Texts.{library}
use meme_mcp.Base.Table.Keyed.{find}

abbrev meme : Dict
meme = entry (codes "name") (string (codes "Doge")) (
    entry (codes "description") (string (codes "a dog")) (
      entry (codes "emotion") (string []) (
        entry (codes "usage_context") (string []) (
          entry (codes "tags") (array no_items)
            (entry (codes "format") (string (codes "static")) no_entries)))))

abbrev checked : Dict
checked = value no_entries (validated_metadata library meme [] false false)

checks : validated_metadata library meme [] false false ≡ ok checked
unfolding validated_metadata lower_char is_space
checks = refl

validated_metadata-checked_example :
    ((name : Text) × IsNamed library checked name
      × (is_empty (strip name) ≡ false)
      × (strip name ≢ placeholder_name))
    × ((cleaned : Dict) × (hard_sanitize_metadata library meme ≡ ok cleaned)
        × All (λ key. has_key key cleaned ≡ true) required_keys
        × (get (codes "format") cleaned ≡ string (codes "static"))
        × ((tags : Items) × (get (codes "tags") cleaned ≡ array tags))
        × ((false ≡ true)
            ⊎ ((◌≡◌ {A = List Text} [] [])
                × (flag_anomalies meme ≡ [])
                × (flag_anomalies cleaned ≡ []))))
validated_metadata-checked_example =
    validated_metadata-checked library meme checked [] false false checks

-- One upload, under review.
abbrev pending : PendingUpload
pending = record {
  upload_id = 7 ∷ [];
  friend_login = codes "github:ada";
  image_path = codes "ab/abc.png";
  metadata = meme;
  slot_definitions = no_items;
  exact_hash = codes "0123456789abcdef";
  perceptual_hash = codes "ff";
  duplicate_action = codes "accept";
  duplicate_template_id = none;
  suspect_flags = [];
}

abbrev ada : Friend
ada = record { principal = codes "github:ada"; capability = default_capability }

abbrev review : Review
review = record {
  metadata_overrides = none;
  slot_overrides = none;
  ack_suspect = false;
  origin_reviewed = false;
}

abbrev before : Stores
before = record {
  templates = [];
  uploads = record { upload = pending; created_at = utc 0; expires_at = utc 500 } ∷ [];
}

abbrev approval : Text × Stores
approval = value ([], before) (approve_pending library pending ada review before)

approves : approve_pending library pending ada review before ≡ ok approval
unfolding approve_pending lower_char is_space
approves = refl

approve_pending-stored_example :
    (can_write ada.capability ≡ true)
    × ((review.ack_suspect ≡ true) ⊎ (pending.suspect_flags ≡ []))
    × ((t : Template) × (get_template approval.0 approval.1.templates ≡ ok t)
        × (t.image_path ≡ pending.image_path)
        × (t.exact_hash ≡ pending.exact_hash)
        × (t.perceptual_hash ≡ pending.perceptual_hash)
        × (t.slug ≡ approval.0)
        × (t.source ≡ codes "friend")
        × (t.slot_definitions ≡ typed_slots pending.slot_definitions)
        × ((metadata : Dict) × Reviewed library pending review metadata
            × (t.metadata
                ≡ merge_locales (metadata_of (get_template approval.0 before.templates)) metadata)))
    × (get_template (codes "other") approval.1.templates ≡ (
        if text_eq approval.0 (codes "other")
        then get_template approval.0 approval.1.templates
        else get_template (codes "other") before.templates))
    × (get_pending pending.upload_id (codes "ada") 5 approval.1.uploads ≡ err key_error)
approve_pending-stored_example =
    approve_pending-stored library pending ada review before approval.1 approval.0 approves
      (codes "other") (codes "ada") 5

-- A second upload of the approved image, long due.
abbrev stale : List UploadRow
stale =
    record {
      upload = record pending { upload_id = 8 ∷ [] };
      created_at = utc 0;
      expires_at = utc 10;
    }
    ∷ []

abbrev clocks : Clocks
clocks = record { at_cutoff = 100; at_expired = 101; at_live = 102 }

abbrev blobs : List Text
blobs = pending.image_path ∷ []

abbrev kept : Collected
kept = record { deleted = 1; freed = 0; rows = []; blobs = blobs }

-- A template that is stored after the approval.
abbrev other : Template
other = record {
  template_id = codes "other";
  slug = codes "other";
  name = codes "Other";
  source = codes "seed";
  metadata = meme;
  slot_definitions = no_items;
  image_path = codes "ef/other.png";
  perceptual_hash = codes "00";
  exact_hash = codes "fedcba9876543210";
}

abbrev templates : List Template
templates = other ∷ approval.1.templates

stores_other : upsert other approval.1.templates ≡ ok templates
unfolding upsert approve_pending lower_char is_space
stores_other = refl

other_id : text_eq other.template_id approval.0 ≡ false
unfolding approve_pending lower_char is_space
other_id = refl

later : Later approval.0 pending.image_path approval.1.templates templates
later = next here other (λ e. absurd (cc (e, other_id))) stores_other

sweeps : gc_uploads clocks 50 false templates stale blobs ≡ ok kept
unfolding gc_uploads approve_pending rank lower_char is_space
sweeps = refl

approved_image_survives_example :
    contains pending.image_path kept.blobs ≡ contains pending.image_path blobs
unfolding find
approved_image_survives_example =
    approved_image_survives library pending ada review before approval.1 approval.0 approves
      templates clocks 50 stale blobs kept later (refl, tt) sweeps
