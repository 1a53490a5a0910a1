-- ===== src/Examples/Stores.antt =====
-- The receipts and the limiters at concrete inputs.
use meme_mcp.Base.{
  ◌+◌, ◌≤◌, ◌≡◌, none, some, [], ◌∷◌, arith, Text, text_eq, codes, contains, if◌then◌else◌,
}
use meme_mcp.Auth.Authorization.{principal_match_values}
use meme_mcp.Db.Receipts.{record_receipt, exists_for_friend, exists_for_friend-record_receipt}
use meme_mcp.Limits.{WindowedRateLimiter, windowed_passed}
use meme_mcp.Limits.Bounds.{windowed_passed_bound}

abbrev ada : Text
ada = codes "github:ada"

exists_for_friend-record_receipt_example :
    exists_for_friend
      (9 ∷ [])
      (codes "ada")
      (record_receipt (9 ∷ []) [] (codes "github:eve") 2 (record_receipt (9 ∷ []) [] ada 1 []))
    ≡ (if text_eq (9 ∷ []) (9 ∷ [])
        then contains (codes "github:eve") (principal_match_values (codes "ada"))
        else exists_for_friend (9 ∷ []) (codes "ada") (record_receipt (9 ∷ []) [] ada 1 []))
exists_for_friend-record_receipt_example =
    exists_for_friend-record_receipt (9 ∷ []) (codes "ada") (9 ∷ []) [] (codes "github:eve") 2
      (record_receipt (9 ∷ []) [] ada 1 [])

abbrev windowed : WindowedRateLimiter
windowed = record { limit = 2; window_seconds = 10; windows = λ key. some (0, 1) }

windowed_passed_bound_example :
    (windowed_passed ada ((ada, 9) ∷ (ada, 10) ∷ []) windowed ≤ 2 + 2)
    × (windowed.windows ada ≡ none → windowed_passed ada ((ada, 9) ∷ (ada, 10) ∷ []) windowed ≤ 2)
windowed_passed_bound_example =
    windowed_passed_bound ada 9 ((ada, 9) ∷ (ada, 10) ∷ []) windowed
      ((omega arith, omega arith), ((omega arith, omega arith), tt))
