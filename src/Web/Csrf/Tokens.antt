-- ===== src/Web/Csrf/Tokens.antt =====
-- web/csrf.py: what the two validators accept.
use meme_mcp.Base.{
  ◌≡◌, refl, ap, sym, ◌⊎◌, inl, inr, true, false, Option, none, some, arith, Text, text_eq,
  text_eq_refl, text_eq_iff, is_empty, ok, err, forbidden, if◌then◌else◌, Bool-cases, Option-cases,
}
use meme_mcp.Base.Json.{Json, null, boolean, number, string, array, object, Dict, get, get-set}
use meme_mcp.Metadata.Locales.{as_text}
use meme_mcp.Web.Csrf.{
  csrf_session_key, csrf_header_name, filled, session_token, ensure_csrf_token, is_ascii,
  compare_digest, judge_token, require_csrf, FormValue, field, file, or_else, require_csrf_form,
}

judge_token-ok : (a b : Text) → judge_token a b ≡ ok tt → a ≡ b
unfolding judge_token compare_digest
judge_token-ok a b h = elim (Bool-cases (text_eq a b)) [
  | inl e ↦ (text_eq_iff a b).0 e
  | inr e ↦ absurd (ground (arith, h, e))
]

judge_token-same : (a : Text) → is_ascii a ≡ true → judge_token a a ≡ ok tt
unfolding judge_token compare_digest
judge_token-same a h = rw (judge_token, compare_digest, h, text_eq_refl a) refl

as_text-string : (v : Json) (t : Text) → as_text v ≡ some t → v ≡ string t
as_text-string null t h = absurd (cc)
as_text-string (boolean b) t h = absurd (cc)
as_text-string (number n) t h = absurd (cc)
as_text-string (string s) t h = cc
as_text-string (array xs) t h = absurd (cc)
as_text-string (object d) t h = absurd (cc)

pub filled-inv :
    (o : Option Text) (t : Text) → filled o ≡ some t → (o ≡ some t) × (is_empty t ≡ false)
filled-inv none t h = absurd (cc)
filled-inv (some s) t h = elim (Bool-cases (is_empty s)) [
  | inl e ↦ let k : none ≡ some t = rw e at h in absurd (cc)
  | inr e ↦ let k : some s ≡ some t = rw e at h in let same : s ≡ t = cc in rw (← same) (refl, e)
]

session_token-inv :
    (session : Dict) (t : Text)
    → session_token session ≡ some t
    → (get csrf_session_key session ≡ string t) × (is_empty t ≡ false)
unfolding session_token
session_token-inv session t h =
    let (held, nonempty) = filled-inv (as_text (get csrf_session_key session)) t h in
    (as_text-string _ t held, nonempty)

session_token-ensure :
    (fresh : Text) (session : Dict)
    → is_empty fresh ≡ false
    → session_token (ensure_csrf_token fresh session).1 ≡ some (ensure_csrf_token fresh session).0
unfolding ensure_csrf_token session_token
session_token-ensure fresh session h = elim (Option-cases (session_token session)) [
  | inl e ↦
      rw (ensure_csrf_token, e, session_token)
        (rw
          (
            get-set csrf_session_key csrf_session_key (string fresh) session,
            text_eq_refl csrf_session_key,
          )
          (rw h refl))
  | inr (t, e) ↦ rw (ensure_csrf_token, e) e
]

ensure_held :
    (other : Text) (session : Dict) (t : Text)
    → session_token session ≡ some t
    → ensure_csrf_token other session ≡ (t, session)
unfolding ensure_csrf_token
ensure_held other session t h = rw (ensure_csrf_token, h) refl

-- Once a session has a token, drawing again changes nothing, and both validators accept the token: in
-- the header, and in either field of a form that has no other field of these names. The drawn token is
-- not empty, and the token is ASCII.
pub require_csrf-ensure_csrf_token :
    (fresh other : Text) (session : Dict)
    → is_empty fresh ≡ false
    → is_ascii (ensure_csrf_token fresh session).0 ≡ true
    → (require_csrf (ensure_csrf_token fresh session).1 (some (ensure_csrf_token fresh session).0)
        ≡ ok tt)
      × (require_csrf_form (ensure_csrf_token fresh session).1 (λ name.
            if text_eq name csrf_session_key
            then some (field (ensure_csrf_token fresh session).0)
            else none)
          ≡ ok tt)
      × (ensure_csrf_token other (ensure_csrf_token fresh session).1
          ≡ ensure_csrf_token fresh session)
unfolding require_csrf require_csrf_form text_eq
require_csrf-ensure_csrf_token fresh other session h a =
    let held = session_token-ensure fresh session h in
    let nonempty =
      (session_token-inv (ensure_csrf_token fresh session).1 (ensure_csrf_token fresh session).0
        held).1 in
    (
      rw (require_csrf, held, nonempty) (judge_token-same (ensure_csrf_token fresh session).0 a),
      rw (require_csrf_form, held) (judge_token-same (ensure_csrf_token fresh session).0 a),
      ensure_held other (ensure_csrf_token fresh session).1 (ensure_csrf_token fresh session).0
          held,
    )

-- A request that passes carries the token of the session, which is not empty: in its header, or in
-- its form.
pub require_csrf_sound :
    (session : Dict) (header : Option Text) (form : Text → Option FormValue)
    → (require_csrf session header ≡ ok tt) ⊎ (require_csrf_form session form ≡ ok tt)
    → (t : Text) × (get csrf_session_key session ≡ string t)
      × (is_empty t ≡ false)
      × ((header ≡ some t)
          ⊎ (form csrf_header_name ≡ some (field t))
          ⊎ (form csrf_session_key ≡ some (field t)))
unfolding require_csrf require_csrf_form
require_csrf_sound session header form h = elim (Option-cases (session_token session)) [
  | inl e ↦ absurd (no_token e h)
  | inr (t, e) ↦
      let (held, nonempty) = session_token-inv session t e in (t, held, nonempty, carried t e h)
]
  where
    no_token :
        session_token session ≡ none
        → ¬ ((require_csrf session header ≡ ok tt) ⊎ (require_csrf_form session form ≡ ok tt))
    no_token e (inl k) = let f : err forbidden ≡ ok tt = rw (require_csrf, e) at k in cc
    no_token e (inr k) = let f : err forbidden ≡ ok tt = rw (require_csrf_form, e) at k in cc

    in_header :
        (t : Text) (o : Option Text)
        → (elim (filled o) [ none ↦ err forbidden | some given ↦ judge_token t given ]) ≡ ok tt
        → o ≡ some t
    in_header t none k = absurd (cc)
    in_header t (some g) k = elim (Bool-cases (is_empty g)) [
      | inl n ↦ let f : err forbidden ≡ ok tt = rw n at k in absurd (cc)
      | inr n ↦ ap some (sym (judge_token-ok t g (rw n at k)))
    ]

    second :
        (t : Text) (p : Option FormValue)
        → (elim p [
          | none ↦ err forbidden
          | some file ↦ err forbidden
          | some (field given) ↦ judge_token t given
        ])
          ≡ ok tt
        → p ≡ some (field t)
    second t none k = absurd (cc)
    second t (some file) k = absurd (cc)
    second t (some (field g)) k = ap (λ x. some (field x)) (sym (judge_token-ok t g k))

    in_form :
        (t : Text) (o p : Option FormValue)
        → (elim (or_else o p) [
          | none ↦ err forbidden
          | some file ↦ err forbidden
          | some (field given) ↦ judge_token t given
        ])
          ≡ ok tt
        → (o ≡ some (field t)) ⊎ (p ≡ some (field t))
    in_form t none p k = inr (second t p k)
    in_form t (some file) p k = absurd (cc)
    in_form t (some (field g)) p k = elim (Bool-cases (is_empty g)) [
      | inl n ↦ inr (second t p (rw n at k))
      | inr n ↦ inl (ap (λ x. some (field x)) (sym (judge_token-ok t g (rw n at k))))
    ]

    carried :
        (t : Text)
        → session_token session ≡ some t
        → (require_csrf session header ≡ ok tt) ⊎ (require_csrf_form session form ≡ ok tt)
        → (header ≡ some t)
          ⊎ (form csrf_header_name ≡ some (field t))
          ⊎ (form csrf_session_key ≡ some (field t))
    carried t e (inl k) = inl (in_header t header (rw (require_csrf, e) at k))
    carried t e (inr k) = inr (in_form t _ _ (rw (require_csrf_form, e) at k))
