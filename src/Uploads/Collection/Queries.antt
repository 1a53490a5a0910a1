-- ===== src/Uploads/Collection/Queries.antt =====
-- cli/gc_uploads.py, the queries of `_gc`: the candidates and the protected paths.
use meme_mcp.Base.{
  ℕ, ◌-◌, ◌≡◌, ◌∙◌, refl, ap, sym, inl, inr, Bool, true, false, ◌&&◌, ◌||◌, not, Option, none, some,
  List, [], ◌∷◌, ◌++◌, map, arith, ltb, Text, text_eq, contains, contains-append, text_lt, Stamp,
  utc, naive, malformed, DateTime, aware, unaware, from_isoformat, ok, err, value_error, type_error,
  >>=-eq-ok, if◌then◌else◌, Option-cases,
}
use meme_mcp.Base.Table.{select_where}
use meme_mcp.Base.Table.Keyed.{find, Distinct}
use meme_mcp.Base.Table.Listing.{
  any, any-at, any-or, any-ext_own, any-order_by, any-select_where, any-ext, any-map, contains-any,
  order_by,
}
use meme_mcp.Db.Templates.{Template, list_rows}
use meme_mcp.Uploads.Pending.{
  UploadRow, ExpiredPending, upload_key, is_live, has_expired, sooner, parse_rows, expired_uploads,
  live_image_paths,
}
use meme_mcp.Uploads.Collection.{older, protected_paths, Clocks}

-- The time of a row, where it parses.
abbrev pub time_of : Option DateTime → DateTime
time_of none = unaware 0
time_of (some t) = t

-- What `expired` gives of a row.
abbrev pub entry_of : UploadRow → ExpiredPending
entry_of r = record {
  upload_id = upload_key r;
  image_path = r.upload.image_path;
  expires_at = time_of (from_isoformat r.expires_at);
}

parse_rows-map :
    (rows : List UploadRow) (parsed : List ExpiredPending)
    → parse_rows rows ≡ ok parsed
    → parsed ≡ map entry_of rows
unfolding parse_rows
parse_rows-map [] parsed h = cc
parse_rows-map (r ∷ rows) parsed h = elim (Option-cases (from_isoformat r.expires_at)) [
  | inl e ↦ let failed : err value_error ≡ ok parsed = rw (parse_rows, e) at h in absurd (cc)
  | inr (t, e) ↦
      let (rest, parsed_rest, done) = >>=-eq-ok (parse_rows rows) _ (rw (parse_rows, e) at h) in
      let tail : rest ≡ map entry_of rows = parse_rows-map rows rest parsed_rest in
      rw (e, ← tail) cc
]

older_than : ℕ → DateTime → Bool
older_than cutoff (aware t) = ltb t cutoff
older_than cutoff (unaware t) = false

older-cons :
    (cutoff : ℕ) (r : ExpiredPending) (rows candidates : List ExpiredPending)
    → older cutoff (r ∷ rows) ≡ ok candidates
    → (rest : List ExpiredPending) × (older cutoff rows ≡ ok rest)
      × (candidates ≡ (if older_than cutoff r.expires_at then r ∷ rest else rest))
unfolding older older_than
older-cons cutoff r rows candidates h = on_time r.expires_at refl
  where
    on_time :
        (t : DateTime)
        → r.expires_at ≡ t
        → (rest : List ExpiredPending) × (older cutoff rows ≡ ok rest)
          × (candidates ≡ (if older_than cutoff r.expires_at then r ∷ rest else rest))
    on_time (unaware t) e =
        let failed : err type_error ≡ ok candidates = rw (older, e) at h in absurd (cc)
    on_time (aware t) e =
        let (rest, done, new) = >>=-eq-ok (older cutoff rows) _ (rw (older, e) at h) in
        let test : older_than cutoff r.expires_at ≡ ltb t cutoff = ap (older_than cutoff) e in
        (rest, done, cc (new, ap (λ (b : Bool). if b then r ∷ rest else rest) test))

older-select_where :
    (cutoff : ℕ) (rows candidates : List ExpiredPending)
    → older cutoff rows ≡ ok candidates
    → candidates ≡ select_where (λ e. older_than cutoff e.expires_at) rows
unfolding older select_where
older-select_where cutoff [] candidates h = cc
older-select_where cutoff (r ∷ rows) candidates h =
    let (rest, done, new) = older-cons cutoff r rows candidates h in
    let tail = older-select_where cutoff rows rest done in rw (new, tail) refl

-- An upload that expired before the grace window.
abbrev pub past_grace : ℕ → Stamp → Bool
past_grace cutoff (utc t) = ltb t cutoff
past_grace cutoff (naive r) = false
past_grace cutoff (malformed r) = false

abbrev pub due : Clocks → ℕ → UploadRow → Bool
due now grace_window r =
    has_expired now.at_expired r && past_grace (now.at_cutoff - grace_window) r.expires_at

older_than-past_grace :
    (cutoff : ℕ) (s : Stamp) → older_than cutoff (time_of (from_isoformat s)) ≡ past_grace cutoff s
unfolding older_than from_isoformat
older_than-past_grace cutoff (utc t) = refl
older_than-past_grace cutoff (naive r) = refl
older_than-past_grace cutoff (malformed r) = refl

-- What still refers to an image: a template, a live upload, or one that is not yet due.
abbrev pub referenced : Clocks → ℕ → List Template → List UploadRow → Text → Bool
referenced now grace_window templates rows x =
    any (λ t. text_eq x t.image_path) templates
    || any
        (λ r.
          text_eq x r.upload.image_path
          && (is_live now.at_live r
              || (has_expired now.at_expired r && not (due now grace_window r))))
        rows

module _ (now : Clocks) (grace_window : ℕ) (templates : List Template) (rows : List UploadRow)
    (all_expired candidates : List ExpiredPending)
    (e : expired_uploads now.at_expired rows ≡ ok all_expired)
    (o : older (now.at_cutoff - grace_window) all_expired ≡ ok candidates) where
  any-expired :
      (p : ExpiredPending → Bool)
      → any p all_expired ≡ any (λ r. has_expired now.at_expired r && p (entry_of r)) rows
  unfolding expired_uploads
  any-expired p =
      rw
        (parse_rows-map (order_by sooner (select_where (has_expired now.at_expired) rows))
          all_expired e)
        (any-map p entry_of (order_by sooner (select_where (has_expired now.at_expired) rows))
          ∙ any-order_by _ sooner (select_where (has_expired now.at_expired) rows)
          ∙ any-select_where _ (has_expired now.at_expired) rows)

  pub any-candidates :
      (p : ExpiredPending → Bool)
      → any p candidates ≡ any (λ r. due now grace_window r && p (entry_of r)) rows
  any-candidates p = rw (older-select_where _ all_expired candidates o) (
      any-select_where p _ all_expired
      ∙ any-expired _
      ∙ any-ext _ _ rows (λ r. rw (older_than-past_grace _ r.expires_at) (ground arith)))

  candidate_ids : List Text
  candidate_ids = map (λ c. c.upload_id) candidates

  contains-candidate_ids :
      (k : Text)
      → contains k candidate_ids
        ≡ any (λ r. due now grace_window r && text_eq k (upload_key r)) rows
  unfolding candidate_ids
  contains-candidate_ids k =
      contains-any k (map (λ c. c.upload_id) candidates)
      ∙ any-map (text_eq k) (λ c. c.upload_id) candidates
      ∙ any-candidates (λ c. text_eq k c.upload_id)

  module _ (d : Distinct upload_key rows) where
    -- The candidates are the rows that are due.
    due-candidate_ids :
        (k : Text) (r : UploadRow)
        → find upload_key k rows ≡ some r
        → contains k candidate_ids ≡ due now grace_window r
    due-candidate_ids k r f =
        contains-candidate_ids k ∙ any-at upload_key (due now grace_window) k rows r d f

    abbrev grace_paths : List Text
    grace_paths =
        map (λ row. row.image_path)
          (select_where (λ row. not (contains row.upload_id candidate_ids)) all_expired)

    pub due_candidate :
        (k : Text) (r : UploadRow)
        → find upload_key k rows ≡ some r
        → contains k (map (λ c. c.upload_id) candidates) ≡ due now grace_window r
    unfolding candidate_ids
    due_candidate k r f = due-candidate_ids k r f

    contains-grace_paths :
        (x : Text)
        → contains x grace_paths
          ≡ any
              (λ r.
                has_expired now.at_expired r
                && (not (due now grace_window r) && text_eq x r.upload.image_path))
              rows
    contains-grace_paths x =
        contains-any x grace_paths
        ∙ any-map (text_eq x) (λ row. row.image_path) _
        ∙ any-select_where _ (λ row. not (contains row.upload_id candidate_ids)) all_expired
        ∙ any-expired _
        ∙ any-ext_own upload_key _ _ rows d (λ r f. rw (due-candidate_ids (upload_key r) r f) refl)

    contains-templates :
        (x : Text)
        → contains x (map (λ row. row.image_path) (list_rows templates))
          ≡ any (λ t. text_eq x t.image_path) templates
    unfolding list_rows
    contains-templates x =
        contains-any x (map (λ row. row.image_path) (list_rows templates))
        ∙ any-map (text_eq x) (λ row. row.image_path) (list_rows templates)
        ∙ any-order_by (λ t. text_eq x t.image_path) (λ a b. text_lt a.name b.name) templates

    contains-live :
        (x : Text)
        → contains x (live_image_paths now.at_live rows)
          ≡ any (λ r. is_live now.at_live r && text_eq x r.upload.image_path) rows
    unfolding live_image_paths
    contains-live x =
        contains-any x (map (λ r. r.upload.image_path) (select_where (is_live now.at_live) rows))
        ∙ any-map (text_eq x) (λ r. r.upload.image_path) _
        ∙ any-select_where _ (is_live now.at_live) rows

    pub contains-protected_paths :
        (x : Text)
        → contains x
            (protected_paths templates (live_image_paths now.at_live rows) all_expired candidates)
          ≡ referenced now grace_window templates rows x
    unfolding protected_paths candidate_ids
    contains-protected_paths x =
        contains-append x
          (map (λ row. row.image_path) (list_rows templates) ++ live_image_paths now.at_live rows)
          grace_paths
        ∙ rw
            (
              contains-append x (map (λ row. row.image_path) (list_rows templates))
                  (live_image_paths now.at_live rows),
              contains-templates x,
              contains-live x,
              contains-grace_paths x,
            )
            (assoc (any (λ t. text_eq x t.image_path) templates) _ _
              ∙ ap (λ (b : Bool). any (λ t. text_eq x t.image_path) templates || b)
                  (sym (any-or _ _ rows) ∙ any-ext _ _ rows (λ r. ground arith)))
      where
        assoc : (a b c : Bool) → ((a || b) || c) ≡ (a || (b || c))
        assoc true b c = refl
        assoc false b c = refl
