-- ===== src/Auth/Allowlist/Removal.antt =====
-- auth/allowlist.py: the file after `remove`.
use meme_mcp.Base.{
  ℕ, ◌≡◌, refl, false, ◌&&◌, not, Option, none, some, List, [], ◌∷◌, arith, Text, text_eq,
  text_eq_iff, contains, sorted_set, All-sorted_set, All, All-map, is_space, lstrip, rstrip,
  cons_stripped, strip, strip-strip, is_empty, lower, lower_char, Bool-cases, inl, inr,
}
use meme_mcp.Auth.Allowlist.{
  is_line_break, begin_line, splitlines, starts_comment, listed, entries, canonical_entry, discard,
  remove,
}
use meme_mcp.Auth.Allowlist.Lines.{IsLine, splitlines-write}

is_space-lower_char : (c : ℕ) → is_space (lower_char c) ≡ is_space c
unfolding is_space lower_char
is_space-lower_char c = ground arith

is_line_break-lower_char : (c : ℕ) → is_line_break (lower_char c) ≡ is_line_break c
unfolding is_line_break lower_char
is_line_break-lower_char c = ground arith

lower_char-lower_char : (c : ℕ) → lower_char (lower_char c) ≡ lower_char c
unfolding lower_char
lower_char-lower_char c = ground arith

lower-lower : (s : Text) → lower (lower s) ≡ lower s
unfolding lower
lower-lower [] = refl
lower-lower (c ∷ s) = rw (lower_char-lower_char c, lower-lower s) refl

lstrip-lower : (s : Text) → lstrip (lower s) ≡ lower (lstrip s)
unfolding lstrip lower
lstrip-lower [] = refl
lstrip-lower (c ∷ s) = elim (Bool-cases (is_space c)) [
  | inl e ↦ rw (is_space-lower_char c, e) (lstrip-lower s)
  | inr e ↦ rw (is_space-lower_char c, e) refl
]

cons_stripped-lower :
    (c : ℕ) (s : Text) → cons_stripped (lower_char c) (lower s) ≡ lower (cons_stripped c s)
unfolding cons_stripped lower
cons_stripped-lower c [] = elim (Bool-cases (is_space c)) [
  | inl e ↦ rw (is_space-lower_char c, e) refl
  | inr e ↦ rw (is_space-lower_char c, e) refl
]
cons_stripped-lower c (x ∷ s) = refl

rstrip-lower : (s : Text) → rstrip (lower s) ≡ lower (rstrip s)
unfolding rstrip lower
rstrip-lower [] = refl
rstrip-lower (c ∷ s) = rw (rstrip-lower s) (cons_stripped-lower c (rstrip s))

strip-lower : (s : Text) → strip (lower s) ≡ lower (strip s)
unfolding strip
strip-lower s = rw (lstrip-lower s) (rstrip-lower (lstrip s))

All-lstrip : (s : Text) → IsLine s → IsLine (lstrip s)
unfolding lstrip
All-lstrip [] h = tt
All-lstrip (c ∷ s) h = elim (Bool-cases (is_space c)) [
  | inl e ↦ rw e (All-lstrip s h.1)
  | inr e ↦ rw e h
]

All-cons_stripped :
    (c : ℕ) (s : Text) → is_line_break c ≡ false → IsLine s → IsLine (cons_stripped c s)
unfolding cons_stripped
All-cons_stripped c [] e h = elim (Bool-cases (is_space c)) [
  | inl f ↦ rw f tt
  | inr f ↦ rw f (e, tt)
]
All-cons_stripped c (x ∷ s) e h = (e, h)

All-rstrip : (s : Text) → IsLine s → IsLine (rstrip s)
unfolding rstrip
All-rstrip [] h = tt
All-rstrip (c ∷ s) h = All-cons_stripped c (rstrip s) h.0 (All-rstrip s h.1)

All-lower : (s : Text) → IsLine s → IsLine (lower s)
unfolding lower
All-lower [] h = tt
All-lower (c ∷ s) h = (rw (is_line_break-lower_char c) h.0, All-lower s h.1)

All-begin_line :
    (c : ℕ) (lines : List Text)
    → is_line_break c ≡ false
    → All IsLine lines
    → All IsLine (begin_line c lines)
All-begin_line c [] e h = ((e, tt), tt)
All-begin_line c (line ∷ lines) e h = ((e, h.0), h.1)

splitlines-IsLine : (t : Text) → All IsLine (splitlines t)
unfolding splitlines
splitlines-IsLine [] = tt
splitlines-IsLine (c ∷ t) = elim (Bool-cases (is_line_break c)) [
  | inl e ↦ rw e (tt, splitlines-IsLine t)
  | inr e ↦ rw e (All-begin_line c (splitlines t) e (splitlines-IsLine t))
]

-- The form in which an entry is listed.
record IsListed (x : Text) : Type 0 where
  settled : lower (strip x) ≡ x
  one_line : IsLine x

lower-strip-IsListed : (line : Text) → IsLine line → IsListed (lower (strip line))
unfolding strip
lower-strip-IsListed line h = record {
  settled = rw (strip-lower (strip line), strip-strip line) (lower-lower (strip line));
  one_line = All-lower (strip line) (All-rstrip (lstrip line) (All-lstrip line h));
}

listed-IsListed : (lines : List Text) → All IsLine lines → All IsListed (listed lines)
unfolding listed
listed-IsListed [] h = tt
listed-IsListed (line ∷ lines) h =
    elim (Bool-cases (not (is_empty (strip line)) && not (starts_comment line))) [
      | inl e ↦ rw e (lower-strip-IsListed line h.0, listed-IsListed lines h.1)
      | inr e ↦ rw e (listed-IsListed lines h.1)
    ]

entries-IsListed : (file : Option Text) → All IsListed (entries file)
unfolding entries
entries-IsListed none = tt
entries-IsListed (some t) =
    All-sorted_set IsListed (listed (splitlines t))
      (listed-IsListed (splitlines t) (splitlines-IsLine t))

module _ (value : Text) where
  -- A listed entry that is another one.
  record IsOther (x : Text) : Type 0 where
    shape : IsListed x
    other : text_eq x value ≡ false

  discard-IsOther : (xs : List Text) → All IsListed xs → All IsOther (discard value xs)
  unfolding discard
  discard-IsOther [] h = tt
  discard-IsOther (x ∷ xs) h = elim (Bool-cases (text_eq x value)) [
    | inl e ↦ rw e (discard-IsOther xs h.1)
    | inr e ↦ rw e (record { shape = h.0; other = e }, discard-IsOther xs h.1)
  ]

  listed-IsOther :
      (xs : List Text) → All IsOther xs → All (λ x. text_eq x value ≡ false) (listed xs)
  unfolding listed
  listed-IsOther [] h = tt
  listed-IsOther (x ∷ xs) h =
      elim (Bool-cases (not (is_empty (strip x)) && not (starts_comment x))) [
        | inl e ↦ rw (e, h.0.shape.settled) (h.0.other, listed-IsOther xs h.1)
        | inr e ↦ rw e (listed-IsOther xs h.1)
      ]

  absent : (xs : List Text) → All (λ x. text_eq x value ≡ false) xs → contains value xs ≡ false
  unfolding contains
  absent [] h = refl
  absent (x ∷ xs) h = ground (arith, h.0, absent xs h.1, text_eq_iff x value, text_eq_iff value x)

-- After an entry is removed, the file that was written, read again, does not list the canonical form of
-- the entry, whatever the file held before.
pub entries-remove :
    (entry : Text) (file : Option Text)
    → contains (canonical_entry entry) (entries (remove entry file)) ≡ false
unfolding entries remove
entries-remove entry file =
    let value = canonical_entry entry in
    let kept = sorted_set (discard value (entries file)) in
    let others =
      All-sorted_set (IsOther value) (discard value (entries file))
        (discard-IsOther value (entries file) (entries-IsListed file)) in
    rw
      (splitlines-write kept (All-map (IsOther value) IsLine kept (λ x o. o.shape.one_line) others))
      (absent value (sorted_set (listed kept)) (
        All-sorted_set (λ x. text_eq x value ≡ false) (listed kept)
          (listed-IsOther value kept others)))
