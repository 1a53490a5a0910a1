-- ===== src/Base/Sets.antt =====
-- Python's sets of texts, as lists of which only the members matter, and `sorted` of one.
use mathlib.Core.Path.{◌≡◌, refl}
use mathlib.Core.Logic.{◌↔◌, inl, inr}
use mathlib.Core.Bool.{Bool, true, false, ◌||◌}
use mathlib.Core.List.{List, [], ◌∷◌, ◌++◌}
use native.Mathlib.Omega.{arith}
use meme_mcp.Base.Tests.{◌==◌, ltb, if◌then◌else◌, Bool-cases}
use meme_mcp.Base.Texts.{Text, text_eq, text_eq_iff, text_eq_refl, contains, subset}
use meme_mcp.Base.Lists.{All}

pub subset_mono :
    (scopes held : List Text) (s : Text)
    → subset scopes held ≡ true
    → contains s scopes ≡ true
    → contains s held ≡ true
unfolding subset contains
subset_mono [] held s h m = cc
subset_mono (w ∷ scopes) held s h m = ground (arith, text_eq_iff s w, subset_mono scopes held s)

subset_of_forall :
    (scopes held : List Text)
    → ((s : Text) → contains s scopes ≡ true → contains s held ≡ true)
    → subset scopes held ≡ true
unfolding subset contains
subset_of_forall [] held h = refl
subset_of_forall (w ∷ scopes) held h =
    let first : contains w held ≡ true = h w (rw text_eq_refl refl) in
    rw first (subset_of_forall scopes held (λ s m. h s (ground arith)))

pub subset_iff :
    (scopes held : List Text)
    → (subset scopes held ≡ true) ↔ ((s : Text) → contains s scopes ≡ true → contains s held ≡ true)
subset_iff scopes held = (λ h s m. subset_mono scopes held s h m, subset_of_forall scopes held)

pub subset_refl : (xs : List Text) → subset xs xs ≡ true
subset_refl xs = subset_of_forall xs xs (λ s m. m)

-- The order of texts, by code points.
unfoldable pub text_lt : Text → Text → Bool
text_lt [] [] = false
text_lt [] (y ∷ ys) = true
text_lt (x ∷ xs) [] = false
text_lt (x ∷ xs) (y ∷ ys) = if x == y then text_lt xs ys else ltb x y

insert_sorted : Text → List Text → List Text
unfolding text_lt
insert_sorted x [] = x ∷ []
insert_sorted x (y ∷ ys) =
    let rest = insert_sorted x ys in
    if text_eq x y then y ∷ ys else if text_lt x y then x ∷ y ∷ ys else y ∷ rest

-- `sorted(set(xs))`
unfoldable pub sorted_set : List Text → List Text
unfolding insert_sorted
sorted_set [] = []
sorted_set (x ∷ xs) = insert_sorted x (sorted_set xs)

contains-insert_sorted :
    (s x : Text) (ys : List Text) → contains s (insert_sorted x ys) ≡ (text_eq s x || contains s ys)
unfolding insert_sorted contains
contains-insert_sorted s x [] = refl
contains-insert_sorted s x (y ∷ ys) =
    ground (arith, text_eq_iff s x, text_eq_iff s y, text_eq_iff x y, contains-insert_sorted s x ys)

pub contains-sorted_set : (s : Text) (xs : List Text) → contains s (sorted_set xs) ≡ contains s xs
unfolding sorted_set contains
contains-sorted_set s [] = refl
contains-sorted_set s (x ∷ xs) =
    ground (arith, contains-insert_sorted s x (sorted_set xs), contains-sorted_set s xs)

All-insert_sorted {κ} :
    (P : Text → Type κ) (x : Text) (ys : List Text) → P x → All P ys → All P (insert_sorted x ys)
unfolding insert_sorted
All-insert_sorted P x [] p h = (p, tt)
All-insert_sorted P x (y ∷ ys) p h = elim (Bool-cases (text_eq x y)) [
  | inl e ↦ rw e h
  | inr e ↦ rw e (elim (Bool-cases (text_lt x y)) [
    | inl l ↦ rw l (p, h)
    | inr l ↦ rw l (h.0, All-insert_sorted P x ys p h.1)
  ])
]

pub All-sorted_set {κ} : (P : Text → Type κ) (xs : List Text) → All P xs → All P (sorted_set xs)
unfolding sorted_set
All-sorted_set P [] h = tt
All-sorted_set P (x ∷ xs) h = All-insert_sorted P x (sorted_set xs) h.0 (All-sorted_set P xs h.1)

pub contains-append :
    (s : Text) (xs ys : List Text) → contains s (xs ++ ys) ≡ (contains s xs || contains s ys)
unfolding contains
contains-append s [] ys = refl
contains-append s (x ∷ xs) ys = ground (arith, contains-append s xs ys)

pub All-append {κ} :
    (P : Text → Type κ) (xs ys : List Text) → All P xs → All P ys → All P (xs ++ ys)
All-append P [] ys h k = k
All-append P (x ∷ xs) ys h k = (h.0, All-append P xs ys h.1 k)

pub contains-All {κ} :
    (P : Text → Type κ) (s : Text) (xs : List Text) → contains s xs ≡ true → All P xs → P s
unfolding contains
contains-All P s [] h a = absurd (cc)
contains-All P s (x ∷ xs) h a = elim (Bool-cases (text_eq s x)) [
  | inl e ↦ rw ((text_eq_iff s x).0 e) a.0
  | inr e ↦ contains-All P s xs (ground arith) a.1
]

-- Coverage depends on the members alone.
pub subset_ext :
    (scopes xs ys : List Text)
    → ((s : Text) → contains s xs ≡ contains s ys)
    → subset scopes xs ≡ subset scopes ys
unfolding subset
subset_ext [] xs ys h = refl
subset_ext (s ∷ scopes) xs ys h = rw (h s, subset_ext scopes xs ys h)
