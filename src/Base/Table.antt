-- ===== src/Base/Table.antt =====
-- A database table as the list of its rows, with the statements that the program runs on it.
pub mod Keyed
pub mod SingleUse
pub mod Listing
use Prim.Native.Nat.{ℕ, suc}
use mathlib.Core.Path.{◌≡◌, refl, ap}
use mathlib.Core.Logic.{inl, inr}
use mathlib.Core.Bool.{Bool, true, false}
use mathlib.Core.Option.{Option, none, some}
use mathlib.Core.List.{List, [], ◌∷◌}
use native.Mathlib.Omega.{arith}
use meme_mcp.Base.Tests.{if◌then◌else◌, ltb, Bool-cases}
use meme_mcp.Base.Lists.{All}

module _ {ℓ} {A : Type ℓ} where
  -- `SELECT … WHERE p LIMIT 1`
  unfoldable pub first_where : (A → Bool) → List A → Option A
  first_where p [] = none
  first_where p (r ∷ t) = if p r then some r else first_where p t

  -- `UPDATE … SET f WHERE p`
  unfoldable pub update_where : (A → Bool) → (A → A) → List A → List A
  update_where p f [] = []
  update_where p f (r ∷ t) = (if p r then f r else r) ∷ update_where p f t

  -- `SELECT … WHERE p`
  unfoldable pub select_where : (A → Bool) → List A → List A
  select_where p [] = []
  select_where p (r ∷ t) = let rest = select_where p t in if p r then r ∷ rest else rest

  -- `DELETE … WHERE p`
  unfoldable pub delete_where : (A → Bool) → List A → List A
  delete_where p [] = []
  delete_where p (r ∷ t) = let rest = delete_where p t in if p r then rest else r ∷ rest

  -- `cursor.rowcount` of such a statement
  unfoldable pub count_where : (A → Bool) → List A → ℕ
  count_where p [] = 0
  count_where p (r ∷ t) = let n = count_where p t in if p r then suc n else n

  pub update_where_none :
      (p : A → Bool) (f : A → A) (t : List A)
      → ltb 0 (count_where p t) ≡ false
      → update_where p f t ≡ t
  unfolding count_where update_where
  update_where_none p f [] h = refl
  update_where_none p f (r ∷ t) h = ground (arith, update_where_none p f t)

module _ {ℓ κ} {A : Type ℓ} (P : A → Type κ) where
  pub All-first_where :
      (p : A → Bool) (t : List A) (r : A) → first_where p t ≡ some r → All P t → P r × (p r ≡ true)
  unfolding first_where
  All-first_where p [] r h a = absurd (cc)
  All-first_where p (x ∷ t) r h a = elim (Bool-cases (p x)) [
    | inl e ↦
        let found : some x ≡ some r = rw e at h in let same : x ≡ r = cc in rw (← same) (a.0, e)
    | inr e ↦ let found : first_where p t ≡ some r = rw e at h in All-first_where p t r found a.1
  ]

  pub All-update_where :
      (p : A → Bool) (f : A → A) (t : List A)
      → ((r : A) → p r ≡ true → P r → P (f r))
      → All P t
      → All P (update_where p f t)
  unfolding update_where
  All-update_where p f [] k a = tt
  All-update_where p f (r ∷ t) k a = elim (Bool-cases (p r)) [
    | inl e ↦ rw e (k r e a.0, All-update_where p f t k a.1)
    | inr e ↦ rw e (a.0, All-update_where p f t k a.1)
  ]

  -- Where the rows that are changed get the property, the rest needs it only where `p` fails.
  pub All-update_where_all :
      (p : A → Bool) (f : A → A) (t : List A)
      → ((r : A) → p r ≡ true → P (f r))
      → ((r : A) → p r ≡ false → P r)
      → All P (update_where p f t)
  unfolding update_where
  All-update_where_all p f [] k l = tt
  All-update_where_all p f (r ∷ t) k l = elim (Bool-cases (p r)) [
    | inl e ↦ rw e (k r e, All-update_where_all p f t k l)
    | inr e ↦ rw e (l r e, All-update_where_all p f t k l)
  ]

  pub All-delete_where : (p : A → Bool) (t : List A) → All P t → All P (delete_where p t)
  unfolding delete_where
  All-delete_where p [] a = tt
  All-delete_where p (r ∷ t) a = elim (Bool-cases (p r)) [
    | inl e ↦ rw e (All-delete_where p t a.1)
    | inr e ↦ rw e (a.0, All-delete_where p t a.1)
  ]

module _ {ℓ} {A : Type ℓ} (p : A → Bool) where
  pub count_where_zero : (t : List A) → All (λ r. p r ≡ false) t → ltb 0 (count_where p t) ≡ false
  unfolding count_where
  count_where_zero [] a = refl
  count_where_zero (r ∷ t) a = rw a.0 (count_where_zero t a.1)

  -- A statement that touches rows finds one.
  pub count_where-some :
      (q : A → Bool) (t : List A)
      → ((r : A) → p r ≡ true → q r ≡ true)
      → ltb 0 (count_where p t) ≡ true
      → (r : A) × (first_where q t ≡ some r)
  unfolding count_where first_where
  count_where-some q [] i h = absurd (cc)
  count_where-some q (r ∷ t) i h = elim (Bool-cases (q r)) [
    | inl e ↦ (r, rw e)
    | inr e ↦
        let fails : p r ≡ false = ground (arith, i r) in
        let rest : ltb 0 (count_where p t) ≡ true = rw fails at h in
        rw e (count_where-some q t i rest)
  ]

module _ {ℓ} {A : Type ℓ} (p q : A → Bool) where
  -- A deletion of other rows does not change what is found.
  pub first_where-delete_where :
      (t : List A)
      → ((r : A) → q r ≡ true → p r ≡ false)
      → first_where q (delete_where p t) ≡ first_where q t
  unfolding first_where delete_where
  first_where-delete_where [] h = refl
  first_where-delete_where (r ∷ t) h = elim (Bool-cases (q r)) [
    | inl e ↦ rw (h r e, e) refl
    | inr e ↦ ground (arith, first_where-delete_where t h)
  ]

  pub first_where-delete_where-none :
      (t : List A) → ((r : A) → q r ≡ true → p r ≡ true) → first_where q (delete_where p t) ≡ none
  unfolding first_where delete_where
  first_where-delete_where-none [] h = refl
  first_where-delete_where-none (r ∷ t) h = ground (arith, first_where-delete_where-none t h, h r)

module _ {ℓ} {A : Type ℓ} (p : A → Bool) where
  -- A statement that makes its own condition fail leaves no row that meets it.
  pub All-update_where_off :
      (f : A → A) (t : List A)
      → ((r : A) → p (f r) ≡ false)
      → All (λ r. p r ≡ false) (update_where p f t)
  unfolding update_where
  All-update_where_off f [] off = tt
  All-update_where_off f (r ∷ t) off = elim (Bool-cases (p r)) [
    | inl e ↦ rw e (off r, All-update_where_off f t off)
    | inr e ↦ rw e (e, All-update_where_off f t off)
  ]

  pub select_where_none : (t : List A) → All (λ r. p r ≡ false) t → select_where p t ≡ []
  unfolding select_where
  select_where_none [] a = refl
  select_where_none (r ∷ t) a = rw (a.0, select_where_none t a.1) refl

  pub All-select_where {κ} : (P : A → Type κ) (t : List A) → All P t → All P (select_where p t)
  unfolding select_where
  All-select_where P [] a = tt
  All-select_where P (r ∷ t) a = elim (Bool-cases (p r)) [
    | inl e ↦ rw e (a.0, All-select_where P t a.1)
    | inr e ↦ rw e (All-select_where P t a.1)
  ]
