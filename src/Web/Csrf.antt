-- ===== src/Web/Csrf.antt =====
-- web/csrf.py: the tokens against cross-site requests. The session is the dict of the signed cookie.
pub mod Tokens
use meme_mcp.Base.{
  ℕ, ◌≡◌, ◌∙◌, refl, ap, inl, inr, Bool, true, false, not, ◌&&◌, ◌||◌, Option, none, some, List, [],
  ◌∷◌, arith, codes, ltb, Text, text_eq, text_eq_refl, text_eq_iff, is_empty, Result, ok, err,
  forbidden, type_error, if◌then◌else◌, Bool-cases, Option-cases,
}
use meme_mcp.Base.Json.{Json, string, Dict, get, set, get-set}
use meme_mcp.Metadata.Locales.{as_text}

abbrev pub csrf_session_key : Text
csrf_session_key = codes "csrf_token"

abbrev pub csrf_header_name : Text
csrf_header_name = codes "X-CSRF-Token"

-- `isinstance(value, str) and value`
abbrev pub filled : Option Text → Option Text
filled none = none
filled (some t) = if is_empty t then none else some t

-- The token of a session, if it holds one.
unfoldable pub session_token : Dict → Option Text
unfolding get is_empty
session_token session = filled (as_text (get csrf_session_key session))

-- `ensure_csrf_token`, where `fresh` is what `secrets.token_urlsafe` draws
unfoldable pub ensure_csrf_token : Text → Dict → Text × Dict
unfolding session_token set
ensure_csrf_token fresh session = elim (session_token session) [
  | some existing ↦ (existing, session)
  | none ↦ (fresh, set csrf_session_key (string fresh) session)
]

unfoldable pub is_ascii : Text → Bool
is_ascii [] = true
is_ascii (c ∷ t) = ltb c 128 && is_ascii t

-- `secrets.compare_digest` on texts, which refuses characters outside ASCII
unfoldable pub compare_digest : Text → Text → Result Bool
unfolding is_ascii text_eq
compare_digest a b = if is_ascii a && is_ascii b then ok (text_eq a b) else err type_error

-- The comparison that ends both validators.
unfoldable pub judge_token : Text → Text → Result (Unit {0})
unfolding compare_digest
judge_token expected given = elim (compare_digest expected given) [
  | err e ↦ err e
  | ok equal ↦ if equal then ok tt else err forbidden
]

unfoldable pub require_csrf : Dict → Option Text → Result (Unit {0})
unfolding session_token judge_token is_empty
require_csrf session header_token = elim (session_token session) [
  | none ↦ err forbidden
  | some expected ↦ elim (filled header_token) [
    | none ↦ err forbidden
    | some given ↦ judge_token expected given
  ]
]

-- A value of the form: a field, or an uploaded file.
pub data FormValue : Type 0 where
  field : Text → FormValue
  file : FormValue

-- `a or b` on what `form.get` gives
abbrev pub or_else : Option FormValue → Option FormValue → Option FormValue
or_else none other = other
or_else (some file) other = some file
or_else (some (field t)) other = if is_empty t then other else some (field t)

unfoldable pub require_csrf_form : Dict → (Text → Option FormValue) → Result (Unit {0})
unfolding session_token judge_token is_empty
require_csrf_form session form = elim (session_token session) [
  | none ↦ err forbidden
  | some expected ↦ elim (or_else (form csrf_header_name) (form csrf_session_key)) [
    | none ↦ err forbidden
    | some file ↦ err forbidden
    | some (field given) ↦ judge_token expected given
  ]
]
