-- ===== src/Uploads/Pending.antt =====
-- db/uploads.py: `PendingUploadStore`. A JSON column holds the value of its text.
pub mod Ownership
use meme_mcp.Base.{
  ℕ, ◌+◌, ◌*◌, ◌≡◌, refl, Bool, true, false, ◌&&◌, ◌||◌, not, Option, none, some, List, [], ◌∷◌,
  map, arith, ltb, leb, ◌==◌, Text, contains, text_lt, Stamp, utc, rank, DateTime, from_isoformat,
  Result, ok, err, ◌>>=◌, key_error, value_error, type_error, if◌then◌else◌,
}
use meme_mcp.Base.Json.{Dict, Items}
use meme_mcp.Base.Table.{first_where, select_where, delete_where, count_where}
use meme_mcp.Base.Table.Keyed.{at, insert}
use meme_mcp.Base.Table.Listing.{order_by}
use meme_mcp.Auth.Authorization.{principal_match_values}

-- `PendingUpload`, what the store gives out
pub record PendingUpload : Type 0 where
  pub upload_id : Text
  pub friend_login : Text
  pub image_path : Text
  pub metadata : Dict
  pub slot_definitions : Items
  pub exact_hash : Text
  pub perceptual_hash : Text
  pub duplicate_action : Text
  pub duplicate_template_id : Option Text
  pub suspect_flags : List Text

-- A row of pending_uploads: an upload with the times of its creation and expiry.
pub record UploadRow : Type 0 where
  pub upload : PendingUpload
  pub created_at : Stamp
  pub expires_at : Stamp

abbrev pub upload_key : UploadRow → Text
upload_key r = r.upload.upload_id

-- `DEFAULT_TTL`, in microseconds
abbrev pub default_ttl : ℕ
default_ttl = 24 * 3600 * 1000000

-- `create`, where `upload` has the fresh id and the caller's arguments
unfoldable pub create_pending : PendingUpload → ℕ → ℕ → List UploadRow → Result (List UploadRow)
unfolding insert
create_pending upload ttl now s =
    insert upload_key record { upload = upload; created_at = utc now; expires_at = utc (now + ttl) }
      s

-- `expires_at > ?`
abbrev pub is_live : ℕ → UploadRow → Bool
is_live now r = ltb now (rank r.expires_at)

-- `id = ? AND friend_login IN (…)`
abbrev pub owned : Text → Text → UploadRow → Bool
owned upload_id friend_login r =
    at upload_key upload_id r
    && contains r.upload.friend_login (principal_match_values friend_login)

unfoldable pub get_pending : Text → Text → ℕ → List UploadRow → Result PendingUpload
unfolding first_where
get_pending upload_id friend_login now s =
    elim (first_where (λ r. owned upload_id friend_login r && is_live now r) s) [
      | none ↦ err key_error
      | some row ↦ ok row.upload
    ]

unfoldable pub delete_pending : Text → List UploadRow → List UploadRow
unfolding delete_where
delete_pending upload_id s = delete_where (at upload_key upload_id) s

-- The deleted row's image path, or `None`.
unfoldable pub delete_owned : Text → Text → List UploadRow → Option Text × List UploadRow
unfolding first_where delete_where
delete_owned upload_id friend_login s = elim (first_where (owned upload_id friend_login) s) [
  | none ↦ (none, s)
  | some row ↦ (some row.upload.image_path, delete_where (owned upload_id friend_login) s)
]

pub record ExpiredPending : Type 0 where
  pub upload_id : Text
  pub image_path : Text
  pub expires_at : DateTime

-- `expires_at <= ?`
abbrev pub has_expired : ℕ → UploadRow → Bool
has_expired now r = leb (rank r.expires_at) now

-- `ORDER BY expires_at, id`
abbrev pub sooner : UploadRow → UploadRow → Bool
sooner x y =
    ltb (rank x.expires_at) (rank y.expires_at)
    || (rank x.expires_at == rank y.expires_at && text_lt (upload_key x) (upload_key y))

-- The comprehension of `expired`; `fromisoformat` raises on what is no time.
unfoldable pub parse_rows : List UploadRow → Result (List ExpiredPending)
unfolding from_isoformat
parse_rows [] = ok []
parse_rows (r ∷ s) = elim (from_isoformat r.expires_at) [
  | none ↦ err value_error
  | some t ↦ parse_rows s >>= (λ rest. ok (
      record { upload_id = upload_key r; image_path = r.upload.image_path; expires_at = t } ∷ rest))
]

unfoldable pub expired_uploads : ℕ → List UploadRow → Result (List ExpiredPending)
unfolding parse_rows order_by select_where
expired_uploads now s = parse_rows (order_by sooner (select_where (has_expired now) s))

-- `live_image_paths`, a set of which only the members matter
unfoldable pub live_image_paths : ℕ → List UploadRow → List Text
unfolding select_where
live_image_paths now s = map (λ r. r.upload.image_path) (select_where (is_live now) s)

unfoldable pub cleanup_expired : ℕ → List UploadRow → ℕ × List UploadRow
unfolding count_where delete_where
cleanup_expired now s = (count_where (has_expired now) s, delete_where (has_expired now) s)
