-- ===== src/Base/Numerals.antt =====
-- Python's `str` of an int and `int` of a str, with the digits of ASCII.
use Prim.Native.Nat.{ℕ, zero, suc, ◌+◌, ◌*◌, ◌-◌, ◌/◌, ◌%◌, ◌<◌}
use mathlib.Core.Path.{◌≡◌, refl, ◌∙◌}
use mathlib.Core.Logic.{inl, inr}
use mathlib.Core.Bool.{Bool, true, false, ◌&&◌}
use mathlib.Core.Option.{Option, none, some}
use mathlib.Core.List.{[], ◌∷◌, ◌++◌}
use native.Mathlib.Omega.{arith}
use meme_mcp.Base.Tests.{ltb, leb, ◌==◌, if◌then◌else◌, Bool-cases}
use meme_mcp.Base.Texts.{Text}
use meme_mcp.Base.Lists.{All}
use meme_mcp.Base.Results.{Result, ok, err, value_error, ◌>>=◌}
use meme_mcp.Base.Strings.{strip, is_space, NoSpaces, strip-NoSpaces}

-- An int; `minus 0` is 0.
pub data Numeral : Type 0 where
  nonneg : ℕ → Numeral
  minus : ℕ → Numeral

abbrev pub is_digit : ℕ → Bool
is_digit c = leb b'0' c && leb c b'9'

unfoldable pub digit_count : Text → ℕ
digit_count [] = 0
digit_count (c ∷ s) = let rest = digit_count s in if is_digit c then suc rest else rest

-- `sys.int_info.default_max_str_digits`
abbrev pub max_digits : ℕ
max_digits = 4300

-- The digits of `n`, the last of which is that of the units; the fuel is `n`.
unfoldable pub digits_on : ℕ → ℕ → Text
digits_on zero n = (b'0' + n % 10) ∷ []
digits_on (suc fuel) n =
    let before = digits_on fuel (n / 10) in
    if ltb n 10 then (b'0' + n) ∷ [] else before ++ ((b'0' + n % 10) ∷ [])

abbrev pub decimal : ℕ → Text
decimal n = digits_on n n

-- `str(n)`
unfoldable pub str_of_nat : ℕ → Result Text
unfolding digits_on digit_count
str_of_nat n = if ltb max_digits (digit_count (decimal n)) then err value_error else ok (decimal n)

unfoldable pub str_of_int : Numeral → Result Text
unfolding str_of_nat
str_of_int (nonneg n) = str_of_nat n
str_of_int (minus zero) = str_of_nat 0
str_of_int (minus (suc n)) = str_of_nat (suc n) >>= (λ t. ok (b'-' ∷ t))

-- The digits, with single underscores between them; the flag says that a digit stands before.
unfoldable pub digits_value : Bool → ℕ → Text → Option ℕ
digits_value after acc [] = if after then some acc else none
digits_value after acc (c ∷ s) =
    let skipped = digits_value false acc s in
    let taken = digits_value true (acc * 10 + (c - b'0')) s in
    if c == b'_' then (if after then skipped else none) else if is_digit c then taken else none

-- A text without its sign.
unfoldable pub unsigned : Text → Bool × Text
unsigned [] = (false, [])
unsigned (c ∷ s) = if c == b'-' then (true, s) else if c == b'+' then (false, s) else (false, c ∷ s)

-- `int(s)`, with nothing where it raises ValueError
unfoldable pub int_of_str : Text → Option Numeral
unfolding strip unsigned digit_count digits_value
int_of_str s =
    let (negative, digits) = unsigned (strip s) in
    if ltb max_digits (digit_count digits) then none else elim (digits_value false 0 digits) [
      | none ↦ none
      | some n ↦ some (if negative then minus n else nonneg n)
    ]

-- A digit at the end.
digits_value-last :
    (after : Bool) (acc v d : ℕ) (s : Text)
    → d < 10
    → digits_value after acc s ≡ some v
    → digits_value after acc (s ++ ((b'0' + d) ∷ [])) ≡ some (v * 10 + d)
unfolding digits_value
digits_value-last after acc v d [] l h = ground (arith, h)
digits_value-last after acc v d (c ∷ s) l h = ground (
  arith,
  h,
  digits_value-last false acc v d s l,
  digits_value-last true (acc * 10 + (c - b'0')) v d s l,
)

digits_value-digits_on :
    (fuel n : ℕ) → n < suc fuel * 10 → digits_value false 0 (digits_on fuel n) ≡ some n
unfolding digits_on digits_value
digits_value-digits_on zero n l = ground arith
digits_value-digits_on (suc fuel) n l = elim (Bool-cases (ltb n 10)) [
  | inl e ↦ rw e (ground (arith, e))
  | inr e ↦
      let before : digits_value false 0 (digits_on fuel (n / 10)) ≡ some (n / 10) =
        digits_value-digits_on fuel (n / 10) (ground (arith, e)) in
      rw e (
        digits_value-last false 0 (n / 10) (n % 10) (digits_on fuel (n / 10)) (omega arith) before
        ∙ rw (units n) refl)
]
  where
    units : (m : ℕ) → m / 10 * 10 + m % 10 ≡ m
    units m = omega arith

abbrev Digits : Text → Type 0
Digits s = All (λ c. is_digit c ≡ true) s

Digits-append : (s t : Text) → Digits s → Digits t → Digits (s ++ t)
Digits-append [] t p q = q
Digits-append (c ∷ s) t p q = (p.0, Digits-append s t p.1 q)

digits_on-Digits : (fuel n : ℕ) → Digits (digits_on fuel n)
unfolding digits_on
digits_on-Digits zero n = (ground arith, tt)
digits_on-Digits (suc fuel) n = elim (Bool-cases (ltb n 10)) [
  | inl e ↦ rw e (ground (arith, e), tt)
  | inr e ↦ rw e (
      Digits-append (digits_on fuel (n / 10)) _ (digits_on-Digits fuel (n / 10)) (ground arith, tt))
]

is_space-digit : (c : ℕ) → is_digit c ≡ true → is_space c ≡ false
unfolding is_space
is_space-digit c h = ground (arith, h)

Digits-NoSpaces : (s : Text) → Digits s → NoSpaces s
Digits-NoSpaces [] h = tt
Digits-NoSpaces (c ∷ s) h = (is_space-digit c h.0, Digits-NoSpaces s h.1)

unsigned-Digits : (s : Text) → Digits s → unsigned s ≡ (false, s)
unfolding unsigned
unsigned-Digits [] h = refl
unsigned-Digits (c ∷ s) h =
    let plain : (c == b'-') ≡ false = ground (arith, h.0) in
    let plain' : (c == b'+') ≡ false = ground (arith, h.0) in rw (plain, plain') refl

int_of_str-decimal :
    (n : ℕ)
    → ltb max_digits (digit_count (decimal n)) ≡ false
    → int_of_str (decimal n) ≡ some (nonneg n)
unfolding int_of_str
int_of_str-decimal n e =
    let digits = digits_on-Digits n n in
    let whole : unsigned (strip (decimal n)) ≡ (false, decimal n) =
      rw (strip-NoSpaces (decimal n) (Digits-NoSpaces (decimal n) digits))
        (unsigned-Digits (decimal n) digits) in
    rw (whole, e, digits_value-digits_on n n (omega arith), whole) refl

-- What `str` writes, `int` reads back.
pub int_of_str-str_of_nat :
    (n : ℕ) (t : Text) → str_of_nat n ≡ ok t → int_of_str t ≡ some (nonneg n)
unfolding str_of_nat
int_of_str-str_of_nat n t h = elim (Bool-cases (ltb max_digits (digit_count (decimal n)))) [
  | inl e ↦ let k : err value_error ≡ ok t = rw e at h in absurd (cc)
  | inr e ↦
      let k : ok (decimal n) ≡ ok t = rw e at h in
      let same : decimal n ≡ t = cc in rw (← same) (int_of_str-decimal n e)
]
