-- ===== src/Uploads/Pending/Ownership.antt =====
-- db/uploads.py, `create` and `get`.
use meme_mcp.Base.{
  ℕ, ◌+◌, ◌≡◌, ◌∙◌, refl, ap, sym, inl, inr, Bool, ◌&&◌, none, List, [], ◌∷◌, arith, ltb, Text,
  text_eq, text_eq_iff, contains, utc, rank, ok, err, key_error, if◌then◌else◌, Bool-cases,
}
use meme_mcp.Base.Table.{first_where}
use meme_mcp.Base.Table.Keyed.{find, insert-inv}
use meme_mcp.Auth.Authorization.{principal_match_values}
use meme_mcp.Uploads.Pending.{
  PendingUpload, UploadRow, upload_key, create_pending, is_live, owned, get_pending,
}

module _ (k friend : Text) (now : ℕ) where
  abbrev reads : UploadRow → Bool
  reads r = owned k friend r && is_live now r

  first_where-absent :
      (s : List UploadRow) → find upload_key k s ≡ none → first_where reads s ≡ none
  unfolding find first_where
  first_where-absent [] h = refl
  first_where-absent (r ∷ s) h = ground (arith, first_where-absent s)

-- A new upload is read by its id until its time is over, by its owner under every stored form of his
-- name, and by nobody else; every other id reads as before.
pub get_pending-create_pending :
    (upload : PendingUpload) (ttl now : ℕ) (s t : List UploadRow) (k friend : Text) (later : ℕ)
    → create_pending upload ttl now s ≡ ok t
    → get_pending k friend later t ≡ (
        if text_eq upload.upload_id k
        then (if contains upload.friend_login (principal_match_values friend)
              && ltb later (now + ttl)
            then ok upload
            else err key_error)
        else get_pending k friend later s)
unfolding create_pending get_pending first_where rank
get_pending-create_pending upload ttl now s t k friend later h =
    let row : UploadRow = record {
      upload = upload;
      created_at = utc now;
      expires_at = utc (now + ttl);
    } in
    let (absent, new) = insert-inv upload_key row s t h in
    rw new (elim (Bool-cases (text_eq upload.upload_id k)) [
      | inr e ↦ rw (get_pending, first_where, e) refl
      | inl e ↦
          let own : upload.upload_id ≡ k = (text_eq_iff upload.upload_id k).0 e in
          let gone =
            first_where-absent k friend later s
              (ap (λ x. find upload_key x s) (sym own) ∙ absent) in
          elim (Bool-cases (
            contains upload.friend_login (principal_match_values friend)
            && ltb later (now + ttl))) [
              | inl c ↦ rw (get_pending, first_where, e, c) refl
              | inr c ↦ rw (get_pending, first_where, e, c, gone) refl
            ]
    ])
