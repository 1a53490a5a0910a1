-- ===== src/Base/Strings.antt =====
-- The methods of Python's `str` that the program calls.
use Prim.Native.Nat.{ℕ, ◌+◌}
use mathlib.Core.Path.{◌≡◌, refl, ap}
use mathlib.Core.Logic.{inl, inr}
use mathlib.Core.Bool.{Bool, true, false, ◌&&◌, ◌||◌}
use mathlib.Core.List.{[], ◌∷◌, ◌++◌, map}
use native.Mathlib.Omega.{arith}
use meme_mcp.Base.Tests.{◌==◌, ==_iff, leb, if◌then◌else◌, Bool-cases}
use meme_mcp.Base.Texts.{Text}
use meme_mcp.Base.Lists.{All}

-- `c.isspace()`
unfoldable pub is_space : ℕ → Bool
is_space c =
    (leb 9 c && leb c 13)
    || (leb 28 c && leb c 32)
    || c == 133
    || c == 160
    || c == 5760
    || (leb 8192 c && leb c 8202)
    || c == 8232
    || c == 8233
    || c == 8239
    || c == 8287
    || c == 12288

-- `s.lstrip()`
unfoldable pub lstrip : Text → Text
lstrip [] = []
lstrip (c ∷ cs) = let rest = lstrip cs in if is_space c then rest else c ∷ cs

-- `c` before a stripped text.
unfoldable pub cons_stripped : ℕ → Text → Text
cons_stripped c [] = if is_space c then [] else c ∷ []
cons_stripped c (x ∷ xs) = c ∷ x ∷ xs

-- `s.rstrip()`
unfoldable pub rstrip : Text → Text
unfolding cons_stripped
rstrip [] = []
rstrip (c ∷ cs) = cons_stripped c (rstrip cs)

-- `s.strip()`
unfoldable pub strip : Text → Text
unfolding lstrip rstrip
strip s = rstrip (lstrip s)

-- `not s`
unfoldable pub is_empty : Text → Bool
is_empty [] = true
is_empty (c ∷ cs) = false

-- `s.lower()`, for texts whose letters outside ASCII have no lower case of their own.
unfoldable pub lower_char : ℕ → ℕ
lower_char c = if leb b'A' c && leb c b'Z' then c + 32 else c

unfoldable pub lower : Text → Text
lower = map lower_char

-- `s.partition(c)`: what stands before the first `c`, whether there is one, and what stands behind.
unfoldable pub partition : ℕ → Text → Text × Bool × Text
partition c [] = ([], false, [])
partition c (x ∷ xs) =
    let (before, found, after) = partition c xs in
    if x == c then ([], true, xs) else (x ∷ before, found, after)

pub lstrip-strip : (s : Text) → lstrip (rstrip (lstrip s)) ≡ rstrip (lstrip s)
unfolding lstrip rstrip
lstrip-strip [] = refl
lstrip-strip (c ∷ cs) = elim (Bool-cases (is_space c)) [
  | inl e ↦ rw e (lstrip-strip cs)
  | inr e ↦ rw e (lstrip-kept c (rstrip cs) e)
]
  where
    lstrip-kept :
        (x : ℕ) (xs : Text) → is_space x ≡ false → lstrip (cons_stripped x xs) ≡ cons_stripped x xs
    lstrip-kept x [] n = rw n (rw n refl)
    lstrip-kept x (y ∷ ys) n = rw n refl

rstrip-cons_stripped :
    (c : ℕ) (s : Text) → rstrip s ≡ s → rstrip (cons_stripped c s) ≡ cons_stripped c s
unfolding rstrip
rstrip-cons_stripped c [] h = elim (Bool-cases (is_space c)) [
  | inl e ↦ rw e refl
  | inr e ↦ rw e (rw e refl)
]
rstrip-cons_stripped c (x ∷ xs) h = ap (cons_stripped c) h

pub rstrip-rstrip : (s : Text) → rstrip (rstrip s) ≡ rstrip s
unfolding rstrip
rstrip-rstrip [] = refl
rstrip-rstrip (c ∷ cs) = rstrip-cons_stripped c (rstrip cs) (rstrip-rstrip cs)

pub strip-strip : (s : Text) → strip (strip s) ≡ strip s
unfolding strip
strip-strip s = rw (lstrip-strip s, rstrip-rstrip (lstrip s)) refl

abbrev pub NoSpaces : Text → Type 0
NoSpaces s = All (λ c. is_space c ≡ false) s

rstrip-NoSpaces : (s : Text) → NoSpaces s → rstrip s ≡ s
unfolding rstrip
rstrip-NoSpaces [] h = refl
rstrip-NoSpaces (c ∷ []) h = rw h.0 refl
rstrip-NoSpaces (c ∷ x ∷ xs) h = rw (rstrip-NoSpaces (x ∷ xs) h.1) refl

pub strip-NoSpaces : (s : Text) → NoSpaces s → strip s ≡ s
unfolding strip
strip-NoSpaces [] h = refl
strip-NoSpaces (c ∷ cs) h = rw h.0 (rstrip-NoSpaces (c ∷ cs) h)

-- A text without `c` is not parted.
pub partition-absent :
    (c : ℕ) (s : Text) → All (λ x. (x == c) ≡ false) s → partition c s ≡ (s, false, [])
unfolding partition
partition-absent c [] h = refl
partition-absent c (x ∷ xs) h = rw (h.0, partition-absent c xs h.1) refl

pub unparted :
    (c : ℕ) (s : Text)
    → (partition c s).1 ≡ false
    → ((partition c s).0 ≡ s) × ((partition c s).2 ≡ [])
unfolding partition
unparted c [] h = (refl, refl)
unparted c (x ∷ xs) h = elim (Bool-cases (x == c)) [
  | inl e ↦ absurd (ground arith)
  | inr e ↦ let (before, after) = unparted c xs (ground arith) in (rw (e, before) refl, rw e after)
]

pub parted :
    (c : ℕ) (s : Text) → (partition c s).1 ≡ true → s ≡ (partition c s).0 ++ (c ∷ (partition c s).2)
unfolding partition
parted c [] h = absurd (cc)
parted c (x ∷ xs) h = elim (Bool-cases (x == c)) [
  | inl e ↦ rw (e, (==_iff x c).0 e) refl
  | inr e ↦ rw e (ap (◌∷◌ x) (parted c xs (ground arith)))
]

pub partition-not_found :
    (c : ℕ) (s before after : Text)
    → partition c s ≡ (before, false, after)
    → (before ≡ s) × (after ≡ [])
partition-not_found c s before after h =
    let (b, a) = unparted c s (ap (λ (p : Text × Bool × Text). p.1) h) in
    (cc (b, ap (λ (p : Text × Bool × Text). p.0) h), cc (a, ap (λ (p : Text × Bool × Text). p.2) h))

-- What was parted, put together again.
pub partition-found :
    (c : ℕ) (s before after : Text)
    → partition c s ≡ (before, true, after)
    → s ≡ before ++ (c ∷ after)
partition-found c s before after h = cc (
  parted c s (ap (λ (p : Text × Bool × Text). p.1) h),
  ap (λ (p : Text × Bool × Text). p.0) h,
  ap (λ (p : Text × Bool × Text). p.2) h,
)

-- A part without `c`, put before it, is what stands before the first.
pub partition-before :
    (c : ℕ) (p s : Text) → All (λ x. (x == c) ≡ false) p → partition c (p ++ (c ∷ s)) ≡ (p, true, s)
unfolding partition
partition-before c [] s h = let same : (c == c) ≡ true = (==_iff c c).1 refl in rw same refl
partition-before c (x ∷ p) s h = rw (h.0, partition-before c p s h.1) refl

pub partition-head : (c : ℕ) (s : Text) → All (λ x. (x == c) ≡ false) (partition c s).0
unfolding partition
partition-head c [] = tt
partition-head c (x ∷ s) = elim (Bool-cases (x == c)) [
  | inl e ↦ rw e tt
  | inr e ↦ rw e (e, partition-head c s)
]
