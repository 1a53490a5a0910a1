-- ===== src/Db/Receipts.antt =====
-- db/receipts.py: `ReceiptStore`, who rendered which image.
use meme_mcp.Base.{
  ℕ, ◌≡◌, refl, Bool, false, ◌&&◌, List, [], ◌∷◌, arith, ltb, Text, text_eq, text_eq_iff,
  text_eq_refl, contains, Stamp, utc, rank, from_isoformat, leb, map, none, some, Result, ok, err,
  value_error, ◌>>=◌, if◌then◌else◌, Bool-cases, inl, inr,
}
use meme_mcp.Base.Table.{delete_where, select_where, count_where}
use meme_mcp.Base.Table.Listing.{order_by}
use meme_mcp.Base.Table.Keyed.{at}
use meme_mcp.Auth.Authorization.{principal_match_values}

pub record Receipt : Type 0 where
  pub hash : Text
  pub template_id : Text
  pub friend_login : Text
  pub created_at : Stamp

abbrev pub receipt_key : Receipt → Text
receipt_key r = r.hash

-- `record`: `INSERT OR REPLACE` on the hash.
unfoldable pub record_receipt : Text → Text → Text → ℕ → List Receipt → List Receipt
record_receipt rendered_hash template_id friend_login now s =
    record {
      hash = rendered_hash;
      template_id = template_id;
      friend_login = friend_login;
      created_at = utc now;
    }
    ∷ delete_where (at receipt_key rendered_hash) s

abbrev pub receipt_of : Text → Text → Receipt → Bool
receipt_of rendered_hash friend_login r =
    at receipt_key rendered_hash r && contains r.friend_login (principal_match_values friend_login)

unfoldable pub exists_for_friend : Text → Text → List Receipt → Bool
exists_for_friend rendered_hash friend_login s =
    ltb 0 (count_where (receipt_of rendered_hash friend_login) s)

unfoldable pub delete_receipt : Text → List Receipt → List Receipt
delete_receipt rendered_hash s = delete_where (at receipt_key rendered_hash) s

-- `ORDER BY created_at`
abbrev pub older_receipt : Receipt → Receipt → Bool
older_receipt x y = ltb (rank x.created_at) (rank y.created_at)

-- `created_at <= ?`, oldest first
unfoldable pub hashes_older_than : ℕ → List Receipt → List Text
unfolding select_where order_by rank
hashes_older_than cutoff s =
    map receipt_key (order_by older_receipt (select_where (λ r. leb (rank r.created_at) cutoff) s))

-- The comprehension of `all_hashes_oldest_first`, whose times `fromisoformat` reads or refuses. The
-- caller does not use them.
unfoldable pub parse_hashes : List Receipt → Result (List Text)
unfolding from_isoformat
parse_hashes [] = ok []
parse_hashes (r ∷ s) = elim (from_isoformat r.created_at) [
  | none ↦ err value_error
  | some _ ↦ parse_hashes s >>= (λ rest. ok (r.hash ∷ rest))
]

unfoldable pub all_hashes_oldest_first : List Receipt → Result (List Text)
unfolding parse_hashes order_by
all_hashes_oldest_first s = parse_hashes (order_by older_receipt s)

module _ (h friend : Text) where
  count_where-delete_other :
      (g : Text) (s : List Receipt)
      → text_eq g h ≡ false
      → count_where (receipt_of h friend) (delete_where (at receipt_key g) s)
        ≡ count_where (receipt_of h friend) s
  unfolding count_where delete_where
  count_where-delete_other g [] ne = refl
  count_where-delete_other g (r ∷ s) ne = ground (
    arith,
    count_where-delete_other g s ne,
    text_eq_iff r.hash g,
    text_eq_iff r.hash h,
    text_eq_iff g h,
  )

  count_where-delete_same :
      (s : List Receipt) → count_where (receipt_of h friend) (delete_where (at receipt_key h) s) ≡ 0
  unfolding count_where delete_where
  count_where-delete_same [] = refl
  count_where-delete_same (r ∷ s) = ground (arith, count_where-delete_same s)

  -- A receipt names one friend. After a render is recorded for a friend, exactly those queries for its
  -- hash succeed that name this friend; what was recorded for the same hash before is gone, whoever
  -- it was recorded for; and the queries for other hashes answer as before.
  pub exists_for_friend-record_receipt :
      (g template owner : Text) (now : ℕ) (s : List Receipt)
      → exists_for_friend h friend (record_receipt g template owner now s) ≡ (
          if text_eq g h
          then contains owner (principal_match_values friend)
          else exists_for_friend h friend s)
  unfolding exists_for_friend record_receipt count_where
  exists_for_friend-record_receipt g template owner now s = elim (Bool-cases (text_eq g h)) [
    | inl e ↦
        let same : g ≡ h = (text_eq_iff g h).0 e in
        rw (same, text_eq_refl, count_where-delete_same s) (ground arith)
    | inr e ↦ rw (e, count_where-delete_other g s e) refl
  ]

  -- After a receipt is deleted no friend finds it, and the other receipts stay.
  pub exists_for_friend-delete_receipt :
      (g : Text) (s : List Receipt)
      → exists_for_friend h friend (delete_receipt g s)
        ≡ (if text_eq g h then false else exists_for_friend h friend s)
  unfolding exists_for_friend delete_receipt
  exists_for_friend-delete_receipt g s = elim (Bool-cases (text_eq g h)) [
    | inl e ↦
        let same : g ≡ h = (text_eq_iff g h).0 e in
        rw (same, text_eq_refl, count_where-delete_same s) refl
    | inr e ↦ rw (e, count_where-delete_other g s e) refl
  ]
