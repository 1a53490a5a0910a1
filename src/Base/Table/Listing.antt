-- ===== src/Base/Table/Listing.antt =====
-- Listings of a table: `any`, `ORDER BY`, and sets of texts that are built by a loop.
use Prim.Native.Nat.{ℕ, ◌+◌, ◌≤◌}
use mathlib.Core.Path.{◌≡◌, ◌∙◌, refl, ap, sym}
use mathlib.Core.Logic.{inl, inr}
use mathlib.Core.Bool.{Bool, true, false, ◌&&◌, ◌||◌}
use mathlib.Core.Option.{some}
use mathlib.Core.List.{List, [], ◌∷◌, map}
use native.Mathlib.Omega.{arith}
use meme_mcp.Base.Tests.{if◌then◌else◌, Bool-cases}
use meme_mcp.Base.Texts.{Text, text_eq, text_eq_refl, contains, eq_of_text_eq}
use meme_mcp.Base.Table.{first_where, select_where, delete_where}
use meme_mcp.Base.Table.Keyed.{find, find-key, find-own, Distinct}

module _ {ℓ} {A : Type ℓ} where
  -- `any(p(x) for x in xs)`
  unfoldable pub any : (A → Bool) → List A → Bool
  any p [] = false
  any p (x ∷ xs) = p x || any p xs

  -- A row before the first one that `before` does not put before it.
  unfoldable pub insert_by : (A → A → Bool) → A → List A → List A
  insert_by before x [] = x ∷ []
  insert_by before x (y ∷ ys) =
      let rest = insert_by before x ys in if before y x then y ∷ rest else x ∷ y ∷ ys

  -- `ORDER BY`, where `before` is the strict order of the keys
  unfoldable pub order_by : (A → A → Bool) → List A → List A
  unfolding insert_by
  order_by before [] = []
  order_by before (x ∷ xs) = insert_by before x (order_by before xs)

  pub any-insert_by :
      (p : A → Bool) (before : A → A → Bool) (x : A) (ys : List A)
      → any p (insert_by before x ys) ≡ (p x || any p ys)
  unfolding any insert_by
  any-insert_by p before x [] = refl
  any-insert_by p before x (y ∷ ys) = ground (arith, any-insert_by p before x ys)

  pub any-order_by :
      (p : A → Bool) (before : A → A → Bool) (xs : List A) → any p (order_by before xs) ≡ any p xs
  unfolding any order_by
  any-order_by p before [] = refl
  any-order_by p before (x ∷ xs) =
      rw (any-insert_by p before x (order_by before xs), any-order_by p before xs) refl

  pub any-select_where :
      (p q : A → Bool) (xs : List A) → any p (select_where q xs) ≡ any (λ x. q x && p x) xs
  unfolding any select_where
  any-select_where p q [] = refl
  any-select_where p q (x ∷ xs) = ground (arith, any-select_where p q xs)

  pub any-ext : (p q : A → Bool) (xs : List A) → ((x : A) → p x ≡ q x) → any p xs ≡ any q xs
  unfolding any
  any-ext p q [] h = refl
  any-ext p q (x ∷ xs) h = rw (h x, any-ext p q xs h) refl

  pub any-witness :
      (p : A → Bool) (xs : List A)
      → any p xs ≡ true
      → (x : A) × (first_where p xs ≡ some x) × (p x ≡ true)
  unfolding any first_where
  any-witness p [] h = absurd (cc)
  any-witness p (x ∷ xs) h = elim (Bool-cases (p x)) [
    | inl e ↦ (x, rw e refl, e)
    | inr e ↦ let rest : any p xs ≡ true = rw e at h in rw e (any-witness p xs rest)
  ]

  pub any-first_where :
      (p q : A → Bool) (xs : List A) (x : A)
      → first_where p xs ≡ some x
      → q x ≡ true
      → any q xs ≡ true
  unfolding any first_where
  any-first_where p q [] x f h = absurd (cc)
  any-first_where p q (y ∷ ys) x f h = elim (Bool-cases (p y)) [
    | inl e ↦ let found : some y ≡ some x = rw e at f in let same : y ≡ x = cc in rw (same, h) refl
    | inr e ↦
        let found : first_where p ys ≡ some x = rw e at f in
        ground (arith, any-first_where p q ys x found h)
  ]

pub any-or {ℓ} :
    {A : Type ℓ} (p q : A → Bool) (xs : List A) → any (λ x. p x || q x) xs ≡ (any p xs || any q xs)
unfolding any
any-or p q [] = refl
any-or p q (x ∷ xs) = ground (arith, any-or p q xs)

pub any-map {ℓ κ} :
    {A : Type ℓ} {B : Type κ} (p : B → Bool) (f : A → B) (xs : List A)
    → any p (map f xs) ≡ any (λ x. p (f x)) xs
unfolding any
any-map p f [] = refl
any-map p f (x ∷ xs) = rw (any-map p f xs) refl

pub contains-any : (x : Text) (xs : List Text) → contains x xs ≡ any (text_eq x) xs
unfolding any contains
contains-any x [] = refl
contains-any x (y ∷ ys) = rw (contains-any x ys) refl

pub any-find {ℓ} :
    {A : Type ℓ} (key : A → Text) (k : Text) (q : A → Bool) (t : List A) (r : A)
    → find key k t ≡ some r
    → q r ≡ true
    → any q t ≡ true
unfolding find
any-find key k q t r f h = any-first_where _ q t r f h

any-own {ℓ} :
    {A : Type ℓ} (key : A → Text) (p q : A → Bool) (t : List A)
    → Distinct key t
    → ((r : A) → find key (key r) t ≡ some r → p r ≡ q r)
    → any p t ≡ true
    → any q t ≡ true
any-own key p q t d h e =
    let (r, found, holds) = any-witness p t e in
    any-first_where p q t r found (rw (← h r (find-own key p t found d)) holds)

-- The rows of a table decide a test, each found by its key.
pub any-ext_own {ℓ} :
    {A : Type ℓ} (key : A → Text) (p q : A → Bool) (t : List A)
    → Distinct key t
    → ((r : A) → find key (key r) t ≡ some r → p r ≡ q r)
    → any p t ≡ any q t
any-ext_own key p q t d h = elim (Bool-cases (any p t)) [
  | inl e ↦ rw (e, any-own key p q t d h e) refl
  | inr e ↦ elim (Bool-cases (any q t)) [
    | inl f ↦ let g : any p t ≡ true = any-own key q p t d (λ r k. sym (h r k)) f in absurd (cc)
    | inr f ↦ rw (e, f) refl
  ]
]

-- A test at one key is the test of its row.
pub any-at {ℓ} :
    {A : Type ℓ} (key : A → Text) (p : A → Bool) (k : Text) (t : List A) (r : A)
    → Distinct key t
    → find key k t ≡ some r
    → any (λ x. p x && text_eq k (key x)) t ≡ p r
any-at key p k t r d f = elim (Bool-cases (p r)) [
  | inl e ↦
      let own : key r ≡ k = find-key key k t f in
      rw
        (e, any-find key k (λ x. p x && text_eq k (key x)) t r f (rw (e, own, text_eq_refl k) refl))
        refl
  | inr e ↦ elim (Bool-cases (any (λ x. p x && text_eq k (key x)) t)) [
    | inl g ↦
        let (x, found, holds) = any-witness (λ y. p y && text_eq k (key y)) t g in
        let same : k ≡ key x = eq_of_text_eq k (key x) (ground (arith, holds)) in
        let here : find key k t ≡ some x = ap (λ z. find key z t) same ∙ find-own key _ t found d in
        let equal : r ≡ x = cc (f, here) in
        let other : p x ≡ true = ground (arith, holds) in absurd (cc (e, equal, other))
    | inr g ↦ rw (e, g) refl
  ]
]

-- `reclaimed.add(x)`
unfoldable pub set_add : Text → List Text → List Text
unfolding contains
set_add x xs = if contains x xs then xs else x ∷ xs

-- `{x for x in xs}`, added to a set
unfoldable pub set_of : List Text → List Text → List Text
unfolding set_add
set_of [] seen = seen
set_of (x ∷ xs) seen = set_of xs (set_add x seen)

-- `sum(f(x) for x in xs)`
unfoldable pub sum_by {ℓ} : {A : Type ℓ} → (A → ℕ) → List A → ℕ
sum_by f [] = 0
sum_by f (x ∷ xs) = f x + sum_by f xs

module _ {ℓ} {A : Type ℓ} (f : A → ℕ) where
  sum_by-insert_by :
      (before : A → A → Bool) (x : A) (ys : List A)
      → sum_by f (insert_by before x ys) ≡ f x + sum_by f ys
  unfolding sum_by insert_by
  sum_by-insert_by before x [] = refl
  sum_by-insert_by before x (y ∷ ys) = ground (arith, sum_by-insert_by before x ys)

  pub sum_by-order_by :
      (before : A → A → Bool) (xs : List A) → sum_by f (order_by before xs) ≡ sum_by f xs
  unfolding sum_by order_by
  sum_by-order_by before [] = refl
  sum_by-order_by before (x ∷ xs) =
      sum_by-insert_by before x (order_by before xs) ∙ ap (◌+◌ (f x)) (sum_by-order_by before xs)

  pub sum_by-delete_where :
      (p : A → Bool) (xs : List A)
      → sum_by f (delete_where p xs) ≡ sum_by (λ x. if p x then 0 else f x) xs
  unfolding sum_by delete_where
  sum_by-delete_where p [] = refl
  sum_by-delete_where p (x ∷ xs) = ground (arith, sum_by-delete_where p xs)

  pub sum_by_mono : (g : A → ℕ) (xs : List A) → ((x : A) → f x ≤ g x) → sum_by f xs ≤ sum_by g xs
  unfolding sum_by
  sum_by_mono g [] h = omega arith
  sum_by_mono g (x ∷ xs) h = omega (arith, h x, sum_by_mono g xs h)

pub sum_by-map {ℓ κ} :
    {A : Type ℓ} {B : Type κ} (f : B → ℕ) (g : A → B) (xs : List A)
    → sum_by f (map g xs) ≡ sum_by (λ x. f (g x)) xs
unfolding sum_by
sum_by-map f g [] = refl
sum_by-map f g (x ∷ xs) = rw (sum_by-map f g xs) refl

pub delete_where_none {ℓ} : {A : Type ℓ} (t : List A) → delete_where (λ _. false) t ≡ t
unfolding delete_where
delete_where_none [] = refl
delete_where_none (r ∷ t) = rw (delete_where_none t) refl

pub delete_where-delete_where {ℓ} :
    {A : Type ℓ} (p q : A → Bool) (t : List A)
    → delete_where q (delete_where p t) ≡ delete_where (λ r. p r || q r) t
unfolding delete_where
delete_where-delete_where p q [] = refl
delete_where-delete_where p q (r ∷ t) = ground (arith, delete_where-delete_where p q t)
