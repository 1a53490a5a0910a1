-- ===== src/Examples/Sweeps.antt =====
-- The collections of uploads and of renders at concrete inputs.
use meme_mcp.Base.{
  ◌≡◌, refl, false, true, none, some, [], ◌∷◌, ◌&&◌, not, ◌≤◌, List, ℕ, Text, codes, ok, err,
  key_error, text_eq, contains, if◌then◌else◌, ltb, ◌+◌, utc, rank,
}
use meme_mcp.Base.Json.{no_entries, no_items}
use meme_mcp.Base.Table.Listing.{any, sum_by}
use meme_mcp.Auth.Authorization.{principal_match_values}
use meme_mcp.Db.Receipts.{Receipt}
use meme_mcp.Db.Renders.{File, gc_renders, size_of}
use meme_mcp.Db.Renders
use meme_mcp.Db.Renders.Budget.{gc_renders-budget}
use meme_mcp.Uploads.Pending.{PendingUpload, UploadRow, create_pending, get_pending}
use meme_mcp.Uploads.Pending.Ownership.{get_pending-create_pending}
use meme_mcp.Uploads.Collection.{Clocks, Collected, gc_uploads}
use meme_mcp.Uploads.Collection.Queries.{due, referenced}
use meme_mcp.Uploads.Collection.Safety.{gc_uploads-blobs, gc_uploads-dry_run}
use meme_mcp.Base.Table.Keyed.{find}

abbrev pub upload_of : Text → Text → PendingUpload
upload_of upload_id image_path = record {
  upload_id = upload_id;
  friend_login = codes "github:ada";
  image_path = image_path;
  metadata = no_entries;
  slot_definitions = no_items;
  exact_hash = [];
  perceptual_hash = [];
  duplicate_action = codes "accept";
  duplicate_template_id = none;
  suspect_flags = [];
}

abbrev row_of : Text → Text → ℕ → UploadRow
row_of upload_id image_path expires = record {
  upload = upload_of upload_id image_path;
  created_at = utc 0;
  expires_at = utc expires;
}

-- Two rows that are due share an image; the image of the second pair is also that of a live upload.
abbrev rows : List UploadRow
rows =
    row_of (1 ∷ []) (codes "a") 10
    ∷ row_of (2 ∷ []) (codes "a") 20
    ∷ row_of (3 ∷ []) (codes "b") 30
    ∷ row_of (4 ∷ []) (codes "b") 900
    ∷ []

abbrev blobs : List Text
blobs = codes "a" ∷ codes "b" ∷ []

abbrev clocks : Clocks
clocks = record { at_cutoff = 100; at_expired = 101; at_live = 102 }

abbrev swept : Collected
swept = record {
  deleted = 3;
  freed = 1;
  rows = row_of (4 ∷ []) (codes "b") 900 ∷ [];
  blobs = codes "b" ∷ [];
}

sweeps : gc_uploads clocks 50 false [] rows blobs ≡ ok swept
unfolding gc_uploads rank
sweeps = refl

gc_uploads-blobs_example : contains (codes "a") swept.blobs ≡ (
    contains (codes "a") blobs
    && not (
        any (λ r. due clocks 50 r && text_eq (codes "a") r.upload.image_path) rows
        && not (referenced clocks 50 [] rows (codes "a"))))
unfolding find text_eq
gc_uploads-blobs_example =
    gc_uploads-blobs clocks 50 [] rows blobs (refl, (refl, (refl, (refl, tt)))) swept sweeps
      (codes "a")

abbrev announced : Collected
announced = record { deleted = 3; freed = 1; rows = rows; blobs = blobs }

announces : gc_uploads clocks 50 true [] rows blobs ≡ ok announced
unfolding gc_uploads rank
announces = refl

gc_uploads-dry_run_example :
    (announced.deleted ≡ swept.deleted)
    × (announced.freed ≡ swept.freed)
    × (announced.rows ≡ rows)
    × (announced.blobs ≡ blobs)
gc_uploads-dry_run_example =
    gc_uploads-dry_run clocks 50 [] rows blobs announced swept announces sweeps

abbrev fresh : PendingUpload
fresh = upload_of (5 ∷ []) (codes "c")

abbrev with_fresh : List UploadRow
with_fresh = record { upload = fresh; created_at = utc 1000; expires_at = utc 1500 } ∷ rows

creates : create_pending fresh 500 1000 rows ≡ ok with_fresh
unfolding create_pending text_eq
creates = refl

get_pending-create_pending_example : get_pending (5 ∷ []) (codes "ada") 1200 with_fresh ≡ (
    if text_eq fresh.upload_id (5 ∷ [])
    then (if contains fresh.friend_login (principal_match_values (codes "ada"))
          && ltb 1200 (1000 + 500)
        then ok fresh
        else err key_error)
    else get_pending (5 ∷ []) (codes "ada") 1200 rows)
get_pending-create_pending_example =
    get_pending-create_pending fresh 500 1000 rows with_fresh (5 ∷ []) (codes "ada") 1200 creates

-- Three renders of 40 bytes, of which the budget leaves two.
abbrev receipts : List Receipt
receipts =
    record { hash = codes "x"; template_id = []; friend_login = []; created_at = utc 30 }
    ∷ record { hash = codes "y"; template_id = []; friend_login = []; created_at = utc 10 }
    ∷ record { hash = codes "z"; template_id = []; friend_login = []; created_at = utc 20 }
    ∷ []

abbrev files : List File
files =
    record { hash = codes "x"; size = 40 }
    ∷ record { hash = codes "y"; size = 40 }
    ∷ record { hash = codes "z"; size = 40 }
    ∷ []

abbrev evicted : Renders.Collected
evicted = record {
  deleted = 1;
  freed = 40;
  receipts =
      record { hash = codes "x"; template_id = []; friend_login = []; created_at = utc 30 }
      ∷ record { hash = codes "z"; template_id = []; friend_login = []; created_at = utc 20 }
      ∷ [];
  files = record { hash = codes "x"; size = 40 } ∷ record { hash = codes "z"; size = 40 } ∷ [];
}

evicts : gc_renders none (some 100) false 50 receipts files ≡ ok evicted
unfolding gc_renders text_eq
evicts = refl

gc_renders-budget_example : sum_by (λ r. size_of evicted.files r.hash) evicted.receipts ≤ 100
gc_renders-budget_example = gc_renders-budget none 50 receipts files 100 evicted evicts
