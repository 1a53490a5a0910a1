-- ===== src/Oauth/Scopes.antt =====
-- Scope lists and the one text column that holds them (oauth/store.py: `_join_scopes`,
-- `_split_scopes`, the union in `record_approval`, the narrowing in `rotate_refresh_token`).
use meme_mcp.Base.{
  ℕ, ◌≡◌, refl, ◌≢◌, inl, inr, true, false, List, [], ◌∷◌, ◌++◌, arith, Text, contains, subset, All,
  ◌==◌, if◌then◌else◌, Bool-cases, contains-All,
}

-- `raw.split(" ")`
push_char : ℕ → List Text → List Text
push_char c [] = (c ∷ []) ∷ []
push_char c (w ∷ ws) = (c ∷ w) ∷ ws

unfoldable pub split_on : ℕ → Text → List Text
unfolding push_char
split_on sep [] = [] ∷ []
split_on sep (c ∷ cs) =
    let rest = split_on sep cs in if c == sep then [] ∷ rest else push_char c rest

unfoldable pub drop_empty : List Text → List Text
drop_empty [] = []
drop_empty ([] ∷ ws) = drop_empty ws
drop_empty ((c ∷ w) ∷ ws) = (c ∷ w) ∷ drop_empty ws

-- `_split_scopes`
unfoldable pub split_scopes : Text → List Text
unfolding split_on drop_empty
split_scopes raw = drop_empty (split_on b' ' raw)

-- `_join_scopes`
unfoldable pub join_scopes : List Text → Text
join_scopes [] = []
join_scopes (w ∷ []) = w
join_scopes (w ∷ v ∷ ws) = w ++ (b' ' ∷ join_scopes (v ∷ ws))

-- A scope as OAuth writes it: not empty, and with no space.
abbrev NoSpace : Text → Type 0
NoSpace w = All (λ c. (c == b' ') ≡ false) w

pub record IsScope (w : Text) : Type 0 where
  pub non_empty : w ≢ []
  pub no_space : NoSpace w

split_on-word : (w : Text) → NoSpace w → split_on b' ' w ≡ w ∷ []
unfolding split_on
split_on-word [] h = refl
split_on-word (c ∷ w) h = rw (h.0, split_on-word w h.1) refl

split_on-append :
    (w rest : Text) → NoSpace w → split_on b' ' (w ++ (b' ' ∷ rest)) ≡ w ∷ split_on b' ' rest
unfolding split_on
split_on-append [] rest h = refl
split_on-append (c ∷ w) rest h = rw (h.0, split_on-append w rest h.1) refl

drop_empty-cons : (w : Text) (ws : List Text) → w ≢ [] → drop_empty (w ∷ ws) ≡ w ∷ drop_empty ws
unfolding drop_empty
drop_empty-cons [] ws h = absurd (h refl)
drop_empty-cons (c ∷ w) ws h = refl

-- Scopes written to the column are read back as they were, in their order.
pub split_scopes-join_scopes :
    (ws : List Text) → All IsScope ws → split_scopes (join_scopes ws) ≡ ws
unfolding split_scopes join_scopes
split_scopes-join_scopes [] h = refl
split_scopes-join_scopes (w ∷ []) h =
    rw (split_on-word w h.0.no_space, drop_empty-cons w [] h.0.non_empty) refl
split_scopes-join_scopes (w ∷ v ∷ ws) h =
    rw
      (
        split_on-append w (join_scopes (v ∷ ws)) h.0.no_space,
        drop_empty-cons w _ h.0.non_empty,
        split_scopes-join_scopes (v ∷ ws) h.1,
      )
      refl

-- `[s for s in scopes if s in granted]`
unfoldable pub narrow : List Text → List Text → List Text
unfolding contains
narrow [] granted = []
narrow (s ∷ scopes) granted =
    let rest = narrow scopes granted in if contains s granted then s ∷ rest else rest

pub subset-narrow : (scopes granted : List Text) → subset (narrow scopes granted) granted ≡ true
unfolding narrow subset
subset-narrow [] granted = refl
subset-narrow (s ∷ scopes) granted = ground (arith, subset-narrow scopes granted)

pub All-narrow {κ} :
    (P : Text → Type κ) (scopes granted : List Text) → All P scopes → All P (narrow scopes granted)
unfolding narrow
All-narrow P [] granted h = tt
All-narrow P (s ∷ scopes) granted h = elim (Bool-cases (contains s granted)) [
  | inl e ↦ rw e (h.0, All-narrow P scopes granted h.1)
  | inr e ↦ rw e (All-narrow P scopes granted h.1)
]

pub narrow-subset :
    (scopes granted : List Text) → subset scopes granted ≡ true → narrow scopes granted ≡ scopes
unfolding narrow subset
narrow-subset [] granted h = refl
narrow-subset (s ∷ scopes) granted h = ground (arith, narrow-subset scopes granted)

pub narrow-All {κ} :
    (P : Text → Type κ) (scopes granted : List Text) → All P granted → All P (narrow scopes granted)
unfolding narrow
narrow-All P [] granted a = tt
narrow-All P (s ∷ scopes) granted a = elim (Bool-cases (contains s granted)) [
  | inl e ↦ rw e (contains-All P s granted e a, narrow-All P scopes granted a)
  | inr e ↦ rw e (narrow-All P scopes granted a)
]

push_char-NoSpace :
    (c : ℕ) (ws : List Text) → (c == b' ') ≡ false → All NoSpace ws → All NoSpace (push_char c ws)
unfolding push_char
push_char-NoSpace c [] e h = ((e, tt), tt)
push_char-NoSpace c (w ∷ ws) e h = ((e, h.0), h.1)

split_on-NoSpace : (raw : Text) → All NoSpace (split_on b' ' raw)
unfolding split_on
split_on-NoSpace [] = (tt, tt)
split_on-NoSpace (c ∷ raw) = elim (Bool-cases (c == b' ')) [
  | inl e ↦ rw e (tt, split_on-NoSpace raw)
  | inr e ↦ rw e (push_char-NoSpace c (split_on b' ' raw) e (split_on-NoSpace raw))
]

drop_empty-IsScope : (ws : List Text) → All NoSpace ws → All IsScope (drop_empty ws)
unfolding drop_empty
drop_empty-IsScope [] h = tt
drop_empty-IsScope ([] ∷ ws) h = drop_empty-IsScope ws h.1
drop_empty-IsScope ((c ∷ w) ∷ ws) h =
    (record { non_empty = λ e. cc; no_space = h.0 }, drop_empty-IsScope ws h.1)

-- Whatever text stands in the column, what is read from it are scopes.
pub split_scopes-IsScope : (raw : Text) → All IsScope (split_scopes raw)
unfolding split_scopes
split_scopes-IsScope raw = drop_empty-IsScope (split_on b' ' raw) (split_on-NoSpace raw)
