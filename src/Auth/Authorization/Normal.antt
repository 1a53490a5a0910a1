-- ===== src/Auth/Authorization/Normal.antt =====
-- auth/authorization.py: what `normalize_principal` accepts.
use meme_mcp.Base.{
  ◌≡◌, refl, Bool, true, false, [], ◌∷◌, arith, Text, text_eq, ok, Bool-cases, inl, inr, strip,
  is_space, is_empty, partition, NoSpaces, partition-not_found, strip-strip, strip-NoSpaces,
}
use meme_mcp.Auth.Authorization.{
  colon, github, google, named, known_provider, all_login_chars, is_login, judge_candidate,
  normalize_principal,
}

pub all_login_chars-NoSpaces : (s : Text) → all_login_chars s ≡ true → NoSpaces s
unfolding all_login_chars is_space
all_login_chars-NoSpaces [] h = tt
all_login_chars-NoSpaces (c ∷ cs) h = (ground arith, all_login_chars-NoSpaces cs (ground arith))

-- The two ways in which a value is accepted.
pub data Accepted (value principal : Text) : Type 0 where
  namespaced :
      (provider subject : Text)
      → partition colon (strip value) ≡ (provider, true, subject)
      → known_provider provider ≡ true
      → is_empty subject ≡ false
      → principal ≡ strip value
      → Accepted value principal
  bare :
      partition colon (strip value) ≡ (strip value, false, [])
      → is_login (strip value) ≡ true
      → principal ≡ named github (strip value)
      → Accepted value principal

module _ (value : Text) {principal : Text} where
  judge_candidate-Accepted :
      (parts : Text × Bool × Text)
      → partition colon (strip value) ≡ parts
      → judge_candidate (strip value) parts ≡ ok principal
      → Accepted value principal
  unfolding judge_candidate
  judge_candidate-Accepted (provider, true, subject) e h =
      namespaced provider subject e (ground arith) (ground arith) (ground arith)
  judge_candidate-Accepted (provider, false, subject) e h =
      let (before, after) = partition-not_found colon (strip value) provider subject e in
      bare (rw (before, after) at e) (ground arith) (ground arith)

  pub normalize-Accepted : normalize_principal value ≡ ok principal → Accepted value principal
  unfolding normalize_principal
  normalize-Accepted h = elim (Bool-cases (is_empty (strip value))) [
    | inl e ↦ absurd (ground arith)
    | inr e ↦ judge_candidate-Accepted (partition colon (strip value)) refl (ground arith)
  ]

-- Whether a value is accepted does not depend on the space around it.
normalize-strip : (value : Text) → normalize_principal (strip value) ≡ normalize_principal value
unfolding normalize_principal
normalize-strip value = rw (strip-strip value) refl

github-NoSpaces : (s : Text) → NoSpaces s → NoSpaces (named github s)
unfolding is_space
github-NoSpaces s h = (refl, (refl, (refl, (refl, (refl, (refl, (refl, h)))))))

pub partition-github : (s : Text) → partition colon (named github s) ≡ (github, true, s)
unfolding partition
partition-github s = refl

pub partition-google : (s : Text) → partition colon (named google s) ≡ (google, true, s)
unfolding partition
partition-google s = refl

pub normalize-github :
    (login : Text)
    → is_login login ≡ true
    → normalize_principal (named github login) ≡ ok (named github login)
unfolding normalize_principal text_eq
normalize-github [] h = cc
normalize-github (c ∷ cs) h =
    rw
      (strip-NoSpaces (named github (c ∷ cs))
        (github-NoSpaces (c ∷ cs) (all_login_chars-NoSpaces (c ∷ cs) h)))
      refl

-- A principal is its own normal form: normalizing again changes nothing.
pub normalize_idem :
    (value principal : Text)
    → normalize_principal value ≡ ok principal
    → normalize_principal principal ≡ ok principal
normalize_idem value principal h = settled (normalize-Accepted value h)
  where
    settled : Accepted value principal → normalize_principal principal ≡ ok principal
    settled (namespaced provider subject e known full same) =
        rw (same, normalize-strip value) (rw same at h)
    settled (bare e login same) = rw same (normalize-github (strip value) login)
