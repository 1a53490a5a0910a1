-- ===== src/Auth/Authorization/Forms.antt =====
-- auth/authorization.py: `principal_match_values` on a GitHub login and on a Google `sub`.
use meme_mcp.Base.{
  ◌≡◌, refl, true, false, [], ◌∷◌, arith, Text, text_eq, text_eq_refl, text_eq_of_ne, ap, length,
  contains, ok, ◌==◌, is_space, is_empty, partition-absent, NoSpaces, strip-NoSpaces, All,
}
use meme_mcp.Auth.Authorization.{
  colon, github, google, named, all_login_chars, is_login, normalize_principal, forms,
  principal_match_values,
}
use meme_mcp.Auth.Authorization.Normal.{all_login_chars-NoSpaces, normalize-github}

all_login_chars-colon : (s : Text) → all_login_chars s ≡ true → All (λ c. (c == colon) ≡ false) s
unfolding all_login_chars
all_login_chars-colon [] h = tt
all_login_chars-colon (c ∷ cs) h = (ground arith, all_login_chars-colon cs (ground arith))

pub normalize-bare :
    (login : Text) → is_login login ≡ true → normalize_principal login ≡ ok (named github login)
unfolding normalize_principal
normalize-bare [] h = cc
normalize-bare (c ∷ cs) h =
    rw
      (
        strip-NoSpaces (c ∷ cs) (all_login_chars-NoSpaces (c ∷ cs) h),
        partition-absent colon (c ∷ cs) (all_login_chars-colon (c ∷ cs) h),
        (let e : all_login_chars (c ∷ cs) ≡ true = h in e),
      )
      refl

-- A text is not its own namespaced form: it is shorter.
ne-named : (login : Text) → text_eq login (named github login) ≡ false
ne-named login = text_eq_of_ne login (named github login) (λ e. omega (arith, ap length e))

forms-bare :
    (login : Text)
    → is_login login ≡ true
    → forms login (named github login) ≡ named github login ∷ login ∷ []
unfolding forms
forms-bare [] h = cc
forms-bare (c ∷ cs) h =
    rw (ne-named (c ∷ cs), text_eq_refl (c ∷ cs)) (ground (arith, ne-named (c ∷ cs)))

forms-github :
    (login : Text)
    → is_login login ≡ true
    → forms (named github login) (named github login) ≡ named github login ∷ login ∷ []
unfolding forms
forms-github [] h = cc
forms-github (c ∷ cs) h = rw (text_eq_refl (named github (c ∷ cs)), ne-named (c ∷ cs)) refl

forms-google : (sub : Text) → forms (named google sub) (named google sub) ≡ named google sub ∷ []
unfolding forms
forms-google sub = rw (text_eq_refl (named google sub)) refl

-- A friend who is known by a GitHub login has two stored forms, the namespaced principal and the bare
-- login, whichever of the two is looked up.
pub principal_match_values-login :
    (login : Text)
    → is_login login ≡ true
    → (principal_match_values login ≡ named github login ∷ login ∷ [])
      × (principal_match_values (named github login) ≡ named github login ∷ login ∷ [])
unfolding principal_match_values
principal_match_values-login login h = (
  rw (normalize-bare login h, principal_match_values) (forms-bare login h),
  rw (normalize-github login h, principal_match_values) (forms-github login h),
)

google-NoSpaces : (s : Text) → NoSpaces s → NoSpaces (named google s)
unfolding is_space
google-NoSpaces s h = (refl, (refl, (refl, (refl, (refl, (refl, (refl, h)))))))

pub normalize-google :
    (sub : Text)
    → is_empty sub ≡ false
    → NoSpaces sub
    → normalize_principal (named google sub) ≡ ok (named google sub)
unfolding normalize_principal text_eq
normalize-google [] e h = cc
normalize-google (c ∷ cs) e h =
    rw (strip-NoSpaces (named google (c ∷ cs)) (google-NoSpaces (c ∷ cs) h)) refl

-- A Google principal has one stored form.
pub principal_match_values-google :
    (sub : Text)
    → is_empty sub ≡ false
    → NoSpaces sub
    → principal_match_values (named google sub) ≡ named google sub ∷ []
unfolding principal_match_values
principal_match_values-google sub e h =
    rw (normalize-google sub e h, principal_match_values) (forms-google sub)

contains-forms : (principal : Text) → contains principal (forms principal principal) ≡ true
unfolding forms
contains-forms principal = rw text_eq_refl (ground (arith, text_eq_refl principal))

-- A principal is one of its own forms.
pub contains-principal_match_values :
    (principal : Text)
    → normalize_principal principal ≡ ok principal
    → contains principal (principal_match_values principal) ≡ true
unfolding principal_match_values
contains-principal_match_values principal n =
    rw (n, principal_match_values) (contains-forms principal)
