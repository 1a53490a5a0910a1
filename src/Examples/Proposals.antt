-- ===== src/Examples/Proposals.antt =====
-- The proposals of a model, and an analysis that uses them, at concrete inputs.
use meme_mcp.Base.{
  ◌≡◌, refl, false, true, none, some, [], ◌∷◌, Text, codes, ok, contains, arith, utc, text_eq,
  is_empty, rank,
}
use meme_mcp.Base.Json.{Dict, no_entries, entry, string, object, DistinctKeys, has_key}
use meme_mcp.Metadata.Locales.{locales_key}
use meme_mcp.Base.Table.Keyed.{Distinct}
use meme_mcp.Uploads.Pending.{PendingUpload, upload_key}
use meme_mcp.Uploads.Collection.{Clocks, Collected, gc_uploads}
use meme_mcp.Uploads.Machine.{Enrichment, resolve_machine_locales, has_locale_content, zh_tw}
use meme_mcp.Uploads.Machine.Gate.{resolve_machine_locales-passes}
use meme_mcp.Uploads.Analysis.{Services, Upload, UploadStores, analyze_image}
use meme_mcp.Uploads.Analysis.Fresh.{fresh_image_survives}
use meme_mcp.Vlm.Drift.{check_metadata_drift}
use meme_mcp.Examples.Texts.{library}
use meme_mcp.Examples.Fixtures.{value}
use meme_mcp.Examples.Sweeps.{upload_of}

abbrev named_in_locale : Text → Dict
named_in_locale name = entry (codes "name") (string (codes "Video")) (
    entry locales_key
      (object (entry zh_tw (object (entry (codes "name") (string name) no_entries)) no_entries))
      no_entries)

-- The first proposal uses a word of the mainland, the second the Taiwanese one.
abbrev drifting : Dict
drifting = named_in_locale (codes "視頻")

abbrev retry : Enrichment
retry = record {
  status = codes "success";
  metadata = some (named_in_locale (codes "影片"));
  suspect_flags = [];
}

drifting-DistinctKeys : DistinctKeys drifting
unfolding has_key text_eq
drifting-DistinctKeys = (refl, (refl, tt))

has_content : has_locale_content drifting ≡ true
unfolding has_locale_content text_eq is_empty
has_content = refl

resolve_machine_locales-passes_example :
    check_metadata_drift (λ _. none) (resolve_machine_locales (λ _. none) drifting retry) zh_tw ≡ []
resolve_machine_locales-passes_example =
    resolve_machine_locales-passes (λ _. none) drifting retry drifting-DistinctKeys has_content

-- Services that take every image as it is; its hashes are its contents, and the model knows the name.
abbrev services : Services
services = record {
  lib = library;
  verdict = λ _. none;
  hit = λ _. ok tt;
  decode_base64 = λ t. some t;
  magic = λ _. some (codes "image/png");
  verify_image = λ _. true;
  strip_and_reencode = λ content _. ok content;
  compute_hashes = λ content. ok (content, codes "ff");
  path_for = λ content _. content;
  detect = none;
  enrich = λ _ _ _ _ _. retry;
}

abbrev sent : Upload
sent = record {
  content_base64 = codes "pixels";
  declared_mime = codes "image/png";
  title_hint = none;
  friend_login = codes "github:ada";
  identify_online = false;
}

-- An older upload of the same image is in the stores, and its time is over.
abbrev stores : UploadStores
stores = record {
  uploads =
      record {
        upload = upload_of (1 ∷ []) (codes "pixels");
        created_at = utc 0;
        expires_at = utc 10;
      }
      ∷ [];
  blobs = [];
  index = [];
}

abbrev analysis : PendingUpload × UploadStores
analysis = value (upload_of [] [], stores) (analyze_image services sent (2 ∷ []) 500 1000 stores)

analyzes : analyze_image services sent (2 ∷ []) 500 1000 stores ≡ ok analysis
unfolding analyze_image
analyzes = refl

abbrev clocks : Clocks
clocks = record { at_cutoff = 1100; at_expired = 1101; at_live = 1102 }

abbrev kept : Collected
kept =
    value record { deleted = 0; freed = 0; rows = []; blobs = [] }
      (gc_uploads clocks 50 false [] analysis.1.uploads analysis.1.blobs)

sweeps : gc_uploads clocks 50 false [] analysis.1.uploads analysis.1.blobs ≡ ok kept
unfolding gc_uploads analyze_image rank
sweeps = refl

distinct : Distinct upload_key analysis.1.uploads
unfolding analyze_image
distinct = (refl, (refl, tt))

fresh_image_survives_example : contains analysis.0.image_path kept.blobs ≡ true
fresh_image_survives_example =
    fresh_image_survives services sent (2 ∷ []) 500 1000 stores analysis.1 analysis.0 analyzes
      clocks 50 [] kept distinct (omega arith) sweeps
