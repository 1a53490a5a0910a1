-- ===== src/Oauth/Store/Rotation/Narrowing.antt =====
-- oauth/store.py: the scopes of a rotation.
use meme_mcp.Base.{
  Bool, ◌&&◌, contains, ap, ◌≡◌, true, List, [], ◌∷◌, arith, Text, text_eq, text_eq_iff, All, inl,
  inr, Bool-cases,
}
use meme_mcp.Oauth.Scopes.{IsScope, split_scopes, narrow, narrow-All, split_scopes-IsScope}
use meme_mcp.Oauth.Store.Rotation.{narrowed}

-- Whether a scope is asked for; a request without scopes asks for all.
abbrev pub wanted : List Text → Text → Bool
wanted [] x = true
wanted (s ∷ scopes) x = contains x (s ∷ scopes)

contains-narrow :
    (scopes granted : List Text) (x : Text)
    → contains x (narrow scopes granted) ≡ (contains x granted && contains x scopes)
unfolding narrow contains
contains-narrow [] granted x = ground arith
contains-narrow (s ∷ scopes) granted x = elim (Bool-cases (text_eq x s)) [
  | inl e ↦
      let same : x ≡ s = (text_eq_iff x s).0 e in
      let rest = contains-narrow scopes granted x in
      let here : contains x granted ≡ contains s granted = ap (λ y. contains y granted) same in
      ground (arith, e, rest, here)
  | inr e ↦ ground (arith, e, contains-narrow scopes granted x)
]

pub contains-narrowed :
    (scopes granted : List Text) (x : Text)
    → contains x (narrowed scopes granted) ≡ (contains x granted && wanted scopes x)
unfolding narrowed
contains-narrowed [] granted x = ground arith
contains-narrowed (s ∷ scopes) granted x = contains-narrow (s ∷ scopes) granted x

pub narrowed-IsScope :
    (scopes : List Text) (raw : Text) → All IsScope (narrowed scopes (split_scopes raw))
unfolding narrowed
narrowed-IsScope [] raw = split_scopes-IsScope raw
narrowed-IsScope (s ∷ scopes) raw =
    narrow-All IsScope (s ∷ scopes) (split_scopes raw) (split_scopes-IsScope raw)
