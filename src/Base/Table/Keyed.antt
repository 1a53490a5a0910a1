-- ===== src/Base/Table/Keyed.antt =====
-- Tables with a text for their primary key.
use mathlib.Core.Path.{◌≡◌, refl}
use mathlib.Core.Logic.{inl, inr}
use mathlib.Core.Bool.{Bool, false, ◌&&◌}
use mathlib.Core.Option
use mathlib.Core.Option.{Option, none, some}
use mathlib.Core.List.{List, [], ◌∷◌}
use native.Mathlib.Omega.{arith}
use meme_mcp.Base.Tests.{if◌then◌else◌, ltb, Bool-cases}
use meme_mcp.Base.Texts.{Text, text_eq, text_eq_iff, text_eq_refl, eq_of_text_eq}
use meme_mcp.Base.Results.{Result, ok, err, integrity_error}
use meme_mcp.Base.Lists.{All}
use meme_mcp.Base.Table.{first_where, update_where, delete_where, count_where, All-first_where}

-- What is left of a row that the statement deletes where `p` holds.
abbrev pub unless {ℓ} : {A : Type ℓ} → (A → Bool) → Option A → Option A
unless p none = none
unless p (some r) = if p r then none else some r

abbrev pub test {ℓ} : {A : Type ℓ} → (A → Bool) → Option A → Bool
test p none = false
test p (some r) = p r

module _ {ℓ} {A : Type ℓ} (key : A → Text) where
  -- `SELECT … WHERE key = k`
  unfoldable pub find : Text → List A → Option A
  unfolding first_where
  find k t = first_where (λ r. text_eq (key r) k) t

  abbrev pub at : Text → A → Bool
  at k r = text_eq (key r) k

  -- `INSERT`, which refuses a key that is there
  unfoldable pub insert : A → List A → Result (List A)
  unfolding find
  insert r t = elim (find (key r) t) [ none ↦ ok (r ∷ t) | some _ ↦ err integrity_error ]

  -- No key stands twice.
  abbrev pub Distinct : List A → Type ℓ
  Distinct [] = Unit
  Distinct (r ∷ t) = (find (key r) t ≡ none) × Distinct t

  pub find-key : (k : Text) (t : List A) {r : A} → find k t ≡ some r → key r ≡ k
  unfolding find
  find-key k [] h = absurd (cc)
  find-key k (x ∷ t) {r} h = elim (Bool-cases (text_eq (key x) k)) [
    | inl e ↦
        let found : some x ≡ some r = rw e at h in
        let same : x ≡ r = cc in rw (← same) (eq_of_text_eq (key x) k e)
    | inr e ↦ let found : find k t ≡ some r = rw e at h in find-key k t found
  ]

  pub find-All {κ} :
      (P : A → Type κ) (k : Text) (t : List A) {r : A} → find k t ≡ some r → All P t → P r
  unfolding find
  find-All P k t {r} h a = (All-first_where P (at k) t r h a).0

  pub insert-eq_ok : (r : A) (t : List A) → find (key r) t ≡ none → insert r t ≡ ok (r ∷ t)
  unfolding insert
  insert-eq_ok r t h = ground arith

  pub insert-inv :
      (r : A) (t u : List A) → insert r t ≡ ok u → (find (key r) t ≡ none) × (u ≡ r ∷ t)
  unfolding insert
  insert-inv r t u h = ground arith

  pub insert_taken :
      (r x : A) (t : List A) → find (key r) t ≡ some x → insert r t ≡ err integrity_error
  unfolding insert
  insert_taken r x t h = ground arith

  pub find-cons :
      (k : Text) (r : A) (t : List A)
      → find k (r ∷ t) ≡ (if text_eq (key r) k then some r else find k t)
  unfolding find
  find-cons k r t = refl

  module _ (p : A → Bool) where
    module _ (f : A → A) (keeps : (r : A) → key (f r) ≡ key r) where
      pub find-update_where :
          (k : Text) (t : List A)
          → find k (update_where p f t) ≡ Option.map (λ r. if p r then f r else r) (find k t)
      unfolding find update_where
      find-update_where k [] = refl
      find-update_where k (r ∷ t) = ground (arith, keeps r, find-update_where k t)

      pub Distinct-update_where : (t : List A) → Distinct t → Distinct (update_where p f t)
      unfolding update_where
      Distinct-update_where [] d = tt
      Distinct-update_where (r ∷ t) d = elim (Bool-cases (p r)) [
        | inl e ↦ rw (e, keeps r) (rw (find-update_where, d.0) refl, Distinct-update_where t d.1)
        | inr e ↦ rw e (rw (find-update_where, d.0) refl, Distinct-update_where t d.1)
      ]

    pub find-delete_where :
        (k : Text) (t : List A) → Distinct t → find k (delete_where p t) ≡ unless p (find k t)
    unfolding find delete_where
    find-delete_where k [] d = refl
    find-delete_where k (r ∷ t) d =
        ground (arith, find-delete_where k t d.1, text_eq_iff (key r) k, d.0)

    pub Distinct-delete_where : (t : List A) → Distinct t → Distinct (delete_where p t)
    unfolding delete_where
    Distinct-delete_where [] d = tt
    Distinct-delete_where (r ∷ t) d = elim (Bool-cases (p r)) [
      | inl e ↦ rw e (Distinct-delete_where t d.1)
      | inr e ↦ rw e (rw (find-delete_where, d.1, d.0) refl, Distinct-delete_where t d.1)
    ]

    -- The row count of a statement on one key.
    pub count_where-at :
        (k : Text) (t : List A)
        → Distinct t
        → ltb 0 (count_where (λ r. at k r && p r) t) ≡ test p (find k t)
    unfolding find count_where
    count_where-at k [] d = refl
    count_where-at k (r ∷ t) d = ground (arith, count_where-at k t d.1, text_eq_iff (key r) k, d.0)

-- A row that is found by any condition is found by its own key, if keys are unique.
pub find-own {ℓ} :
    {A : Type ℓ} (key : A → Text) (p : A → Bool) (t : List A) {r : A}
    → first_where p t ≡ some r
    → Distinct key t
    → find key (key r) t ≡ some r
unfolding first_where find
find-own key p [] h d = absurd (cc)
find-own key p (x ∷ t) {r} h d = elim (Bool-cases (p x)) [
  | inl e ↦
      let found : some x ≡ some r = rw e at h in
      let same : x ≡ r = cc in rw (← same) (rw (text_eq_refl (key x)) refl)
  | inr e ↦
      let found : first_where p t ≡ some r = rw e at h in
      ground (arith, find-own key p t found d.1, d.0, text_eq_iff (key x) (key r))
]
