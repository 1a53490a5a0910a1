-- ===== src/Uploads/Dedupe.antt =====
-- upload/dedupe.py: `check_duplicates` over the index of the known images.
pub mod Verdicts
use meme_mcp.Base.{
  ℕ, zero, suc, ◌+◌, ◌-◌, Bool, true, false, not, ◌&&◌, ◌||◌, Option, none, some, List, [], ◌∷◌,
  ◌++◌, leb, ltb, ◌==◌, Text, text_eq, Result, ok, err, value_error, ◌>>=◌, if◌then◌else◌,
}
use Prim.Native.Nat.{◌/◌, ◌%◌}

pub record DuplicateRecord : Type 0 where
  pub template_id : Text
  pub exact_hash : Text
  pub perceptual_hash : Text

-- The three actions, with the template that the image is held against.
pub data DuplicateCheck : Type 0 where
  block : Text → DuplicateCheck
  warn : Text → DuplicateCheck
  accept : DuplicateCheck

-- A digit of `int(…, 16)`; the hashes have nothing else.
unfoldable pub hex_digit : ℕ → Option ℕ
hex_digit c =
    if leb b'0' c && leb c b'9'
    then some (c - 48)
    else if leb b'a' c && leb c b'f'
    then some (c - 87)
    else if leb b'A' c && leb c b'F'
    then some (c - 55)
    else none

-- The digits, the least first.
unfoldable pub hex_digits : Text → List ℕ → Result (List ℕ)
unfolding hex_digit
hex_digits [] low = ok low
hex_digits (c ∷ s) low = elim (hex_digit c) [
  | none ↦ err value_error
  | some d ↦ hex_digits s (d ∷ low)
]

-- `int(text, 16)`, as digits; the empty text is refused.
unfoldable pub parse_hex : Text → Result (List ℕ)
unfolding hex_digits
parse_hex [] = err value_error
parse_hex (c ∷ s) = hex_digits (c ∷ s) []

abbrev pub one_if : Bool → ℕ
one_if true = 1
one_if false = 0

-- The ones of the exclusive or of two digits.
unfoldable pub digit_distance : ℕ → ℕ → ℕ
digit_distance a b =
    one_if (not (a % 2 == b % 2))
    + one_if (not (a / 2 % 2 == b / 2 % 2))
    + one_if (not (a / 4 % 2 == b / 4 % 2))
    + one_if (not (a / 8 % 2 == b / 8 % 2))

unfoldable pub distance : List ℕ → List ℕ → ℕ
unfolding digit_distance
distance [] [] = 0
distance (a ∷ left) [] = digit_distance a 0 + distance left []
distance [] (b ∷ right) = digit_distance 0 b + distance [] right
distance (a ∷ left) (b ∷ right) = digit_distance a b + distance left right

unfoldable pub hamming_hex : Text → Text → Result ℕ
unfolding parse_hex distance
hamming_hex left right = do a ← parse_hex left; b ← parse_hex right; ok (distance a b)

-- The loop over the exact hashes.
unfoldable pub find_exact : Text → List DuplicateRecord → Option Text
unfolding text_eq
find_exact exact_hash [] = none
find_exact exact_hash (r ∷ records) =
    let rest = find_exact exact_hash records in
    if text_eq r.exact_hash exact_hash then some r.template_id else rest

-- `min(records, key=…, default=None)` with its key: the first of the nearest.
unfoldable pub nearest : Text → List DuplicateRecord → Result (Option (DuplicateRecord × ℕ))
unfolding hamming_hex
nearest perceptual_hash [] = ok none
nearest perceptual_hash (r ∷ records) = do
  d ← hamming_hex r.perceptual_hash perceptual_hash
  best ← nearest perceptual_hash records
  elim best [
    | none ↦ ok (some (r, d))
    | some (s, e) ↦ if leb d e then ok (some (r, d)) else ok (some (s, e))
  ]

abbrev pub judge_nearest : Option (DuplicateRecord × ℕ) → DuplicateCheck
judge_nearest none = accept
judge_nearest (some (r, d)) = if leb d 5 then warn r.template_id else accept

unfoldable pub check_duplicates : List DuplicateRecord → Text → Text → Result DuplicateCheck
unfolding find_exact nearest
check_duplicates index exact_hash perceptual_hash = elim (find_exact exact_hash index) [
  | some template_id ↦ ok (block template_id)
  | none ↦ nearest perceptual_hash index >>= (λ found. ok (judge_nearest found))
]
