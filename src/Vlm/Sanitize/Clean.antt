-- ===== src/Vlm/Sanitize/Clean.antt =====
-- vlm/sanitize.py, `_clean_string`: what cannot stand in a cleaned text.
use meme_mcp.Base.{
  ℕ, zero, suc, ◌≡◌, ◌≤◌, refl, ◌⊎◌, inl, inr, true, false, none, [], ◌∷◌, arith, ◌==◌, Text,
  length, Bool-cases, Option-cases,
}
use meme_mcp.Web.SafeNext.{has_char}
use meme_mcp.Vlm.Sanitize.{
  Library, to_close, tag_length, strip_markup, has_markup, drop_zero_width, take, has_zero_width,
  clean_string,
}

to_close-absent : (s : Text) → has_char b'>' s ≡ false → to_close s ≡ none
unfolding to_close has_char
to_close-absent [] h = refl
to_close-absent (c ∷ s) h = ground (arith, to_close-absent s)

absent-to_close : (s : Text) → to_close s ≡ none → has_char b'>' s ≡ false
unfolding to_close has_char
absent-to_close [] h = refl
absent-to_close (c ∷ s) h = ground (arith, absent-to_close s, h)

tag_length-absent : (s : Text) → has_char b'>' s ≡ false → tag_length s ≡ none
unfolding tag_length
tag_length-absent [] h = refl
tag_length-absent (c ∷ s) h = ground (arith, to_close-absent (c ∷ s) h)

-- A character is kept, or a match that begins with it is dropped.
strip_markup-cons :
    (c : ℕ) (s : Text)
    → ((strip_markup 0 (c ∷ s) ≡ c ∷ strip_markup 0 s) × ((c == b'<') ≡ true → tag_length s ≡ none))
      ⊎ ((n : ℕ) × (strip_markup 0 (c ∷ s) ≡ strip_markup n s) × ((c == b'<') ≡ true))
unfolding strip_markup
strip_markup-cons c s = elim (Bool-cases (c == b'<')) [
  | inr e ↦ inl (rw (strip_markup, e) refl, λ q. absurd (cc (e, q)))
  | inl e ↦ elim (Option-cases (tag_length s)) [
    | inl t ↦ inl (rw (strip_markup, e, t) refl, λ q. t)
    | inr (n, t) ↦ inr (n, rw (strip_markup, e, t) refl, e)
  ]
]

has_char-strip_markup :
    (c k : ℕ) (s : Text) → has_char c s ≡ false → has_char c (strip_markup k s) ≡ false
unfolding strip_markup has_char
has_char-strip_markup c k [] h = refl
has_char-strip_markup c (suc k) (x ∷ s) h = has_char-strip_markup c k s (ground (arith, h))
has_char-strip_markup c zero (x ∷ s) h =
    let rest : has_char c s ≡ false = ground (arith, h) in
    elim (strip_markup-cons x s) [
      | inl (e, _) ↦ rw e (ground (arith, h, has_char-strip_markup c 0 s rest))
      | inr (n, e, _) ↦ rw e (has_char-strip_markup c n s rest)
    ]

-- What does not close a tag does not after the matches are dropped.
tag_length-strip_markup : (s : Text) → tag_length s ≡ none → tag_length (strip_markup 0 s) ≡ none
unfolding tag_length strip_markup
tag_length-strip_markup [] h = h
tag_length-strip_markup (c ∷ s) h = elim (Bool-cases (c == b'>')) [
  | inl e ↦ elim (strip_markup-cons c s) [
    | inl (f, _) ↦ rw f (ground (arith, e))
    | inr (n, f, q) ↦ absurd (ground (arith, e, q))
  ]
  | inr e ↦
      let absent : has_char b'>' (c ∷ s) ≡ false = absent-to_close (c ∷ s) (ground (arith, e, h)) in
      tag_length-absent (strip_markup 0 (c ∷ s)) (has_char-strip_markup b'>' 0 (c ∷ s) absent)
]

has_markup-strip_markup : (k : ℕ) (s : Text) → has_markup (strip_markup k s) ≡ false
unfolding strip_markup has_markup
has_markup-strip_markup k [] = refl
has_markup-strip_markup (suc k) (c ∷ s) = has_markup-strip_markup k s
has_markup-strip_markup zero (c ∷ s) = elim (strip_markup-cons c s) [
  | inl (e, t) ↦ rw e (ground (arith, has_markup-strip_markup 0 s, t, tag_length-strip_markup s))
  | inr (n, e, _) ↦ rw e (has_markup-strip_markup n s)
]

to_close-take : (n : ℕ) (s : Text) → to_close s ≡ none → to_close (take n s) ≡ none
unfolding to_close take
to_close-take zero s h = refl
to_close-take (suc n) [] h = refl
to_close-take (suc n) (c ∷ s) h = ground (arith, to_close-take n s, h)

tag_length-take : (n : ℕ) (s : Text) → tag_length s ≡ none → tag_length (take n s) ≡ none
unfolding tag_length take
tag_length-take zero s h = refl
tag_length-take (suc n) [] h = refl
tag_length-take (suc n) (c ∷ s) h = ground (arith, to_close-take (suc n) (c ∷ s), h)

has_markup-take : (n : ℕ) (s : Text) → has_markup s ≡ false → has_markup (take n s) ≡ false
unfolding has_markup take
has_markup-take zero s h = refl
has_markup-take (suc n) [] h = refl
has_markup-take (suc n) (c ∷ s) h = ground (arith, tag_length-take n s, has_markup-take n s, h)

has_zero_width-drop : (s : Text) → has_zero_width (drop_zero_width s) ≡ false
unfolding has_zero_width drop_zero_width
has_zero_width-drop [] = refl
has_zero_width-drop (c ∷ s) = ground (arith, has_zero_width-drop s)

has_zero_width-strip_markup :
    (k : ℕ) (s : Text) → has_zero_width s ≡ false → has_zero_width (strip_markup k s) ≡ false
unfolding has_zero_width strip_markup
has_zero_width-strip_markup k [] h = refl
has_zero_width-strip_markup (suc k) (c ∷ s) h = has_zero_width-strip_markup k s (ground (arith, h))
has_zero_width-strip_markup zero (c ∷ s) h =
    let rest : has_zero_width s ≡ false = ground (arith, h) in
    elim (strip_markup-cons c s) [
      | inl (e, _) ↦ rw e (ground (arith, h, has_zero_width-strip_markup 0 s rest))
      | inr (n, e, _) ↦ rw e (has_zero_width-strip_markup n s rest)
    ]

has_zero_width-take :
    (n : ℕ) (s : Text) → has_zero_width s ≡ false → has_zero_width (take n s) ≡ false
unfolding has_zero_width take
has_zero_width-take zero s h = refl
has_zero_width-take (suc n) [] h = refl
has_zero_width-take (suc n) (c ∷ s) h = ground (arith, has_zero_width-take n s)

length-take : (n : ℕ) (s : Text) → length (take n s) ≤ n
unfolding take
length-take zero s = omega arith
length-take (suc n) [] = omega arith
length-take (suc n) (c ∷ s) = omega (arith, length-take n s)

-- Whatever is cleaned, nothing that MARKUP_RE matches is left, no zero-width or direction mark, and no
-- more than the cap of characters; also where the removal of one match joins what stood around it, and
-- where the cap cuts a text.
pub clean_string-IsClean :
    (lib : Library) (value : Text) (cap : ℕ)
    → (has_markup (clean_string lib value cap) ≡ false)
      × (has_zero_width (clean_string lib value cap) ≡ false)
      × (length (clean_string lib value cap) ≤ cap)
unfolding clean_string
clean_string-IsClean lib value cap =
    let visible = drop_zero_width (lib.nfkc value) in
    (
      has_markup-take cap (strip_markup 0 visible) (has_markup-strip_markup 0 visible),
      has_zero_width-take cap (strip_markup 0 visible)
          (has_zero_width-strip_markup 0 visible (has_zero_width-drop (lib.nfkc value))),
      length-take cap (strip_markup 0 visible),
    )
