-- ===== src/Web/SafeNext/Local.antt =====
-- web/csrf.py, `safe_next`: where the result leads.
use meme_mcp.Base.{
  ℕ, ◌≡◌, ◌∙◌, refl, ap, inl, inr, Bool, true, false, not, ◌&&◌, ◌||◌, Option, none, some, List, [],
  ◌∷◌, ◌++◌, arith, ◌==◌, ==_iff, Text, contains, is_empty, partition, Bool-cases,
}
use meme_mcp.Oauth.Redirect.{SplitResult, urlsplit, split_scheme, split_netloc}
use meme_mcp.Web.SafeNext.{
  is_server_relative, has_control, is_template_detail, is_oauth_consent, judge_parts, safe_next,
}

-- What may follow the first slash.
abbrev good_head : Text → Bool
good_head [] = true
good_head (b ∷ s) = not (b == b'/' || b == b'\\')

good_head-slash : (s : Text) → is_server_relative (b'/' ∷ s) ≡ good_head s
unfolding is_server_relative
good_head-slash [] = refl
good_head-slash (b ∷ s) = refl

good_head-partition : (c : ℕ) (s : Text) → good_head s ≡ true → good_head (partition c s).0 ≡ true
unfolding partition
good_head-partition c [] h = refl
good_head-partition c (b ∷ s) h = ground arith

good_head-append :
    (s t : Text) (c : ℕ)
    → good_head s ≡ true
    → good_head (c ∷ t) ≡ true
    → good_head (s ++ (c ∷ t)) ≡ true
good_head-append [] t c h k = k
good_head-append (b ∷ s) t c h k = h

has_control-partition :
    (c : ℕ) (s : Text)
    → has_control s ≡ false
    → (has_control (partition c s).0 ≡ false) × (has_control (partition c s).2 ≡ false)
unfolding has_control partition
has_control-partition c [] h = (refl, refl)
has_control-partition c (x ∷ s) h =
    let (before, after) = has_control-partition c s (ground (arith, h)) in
    ground (arith, before, after, h)

has_control-append :
    (s t : Text) → has_control s ≡ false → has_control t ≡ false → has_control (s ++ t) ≡ false
unfolding has_control
has_control-append [] t h k = k
has_control-append (x ∷ s) t h k = ground (arith, has_control-append s t)

split_scheme-slash :
    (s : Text) → split_scheme (b'/' ∷ s) (partition b':' (b'/' ∷ s)) ≡ ([], b'/' ∷ s)
unfolding split_scheme partition
split_scheme-slash s = elim (Bool-cases (partition b':' s).1) [
  | inl e ↦ rw e refl
  | inr e ↦ rw e refl
]

split_netloc-slash : (s : Text) → good_head s ≡ true → split_netloc (b'/' ∷ s) ≡ ([], b'/' ∷ s)
unfolding split_netloc
split_netloc-slash [] h = refl
split_netloc-slash (b ∷ s) h = ground arith

-- The parts of a reference with one slash.
urlsplit-slash :
    (s : Text)
    → good_head s ≡ true
    → ((urlsplit (b'/' ∷ s)).path ≡ b'/' ∷ (partition b'?' (partition b'#' s).0).0)
      × ((urlsplit (b'/' ∷ s)).query ≡ (partition b'?' (partition b'#' s).0).2)
unfolding urlsplit partition
urlsplit-slash s h = (
  rw (split_scheme-slash s, split_netloc-slash s h) refl,
  rw (split_scheme-slash s, split_netloc-slash s h) refl,
)

relative-slash :
    (s : Text)
    → is_server_relative s ≡ true
    → (rest : Text) × (s ≡ b'/' ∷ rest) × (good_head rest ≡ true)
unfolding is_server_relative
relative-slash [] h = absurd (cc)
relative-slash (a ∷ []) h = ([], ap (λ x. x ∷ []) ((==_iff a b'/').0 h), refl)
relative-slash (a ∷ b ∷ s) h =
    (b ∷ s, ap (λ x. x ∷ b ∷ s) ((==_iff a b'/').0 (ground arith)), ground arith)

-- A local path: one slash that no slash or backslash follows, and no control character or blank.
abbrev pub IsLocal : Text → Type 0
IsLocal s = (is_server_relative s ≡ true) × (has_control s ≡ false)

module _ (allowlist : List Text) (default : Text) (keep_query : Bool) (l : IsLocal default) where
  -- Whatever the judgement of the parts is, it is one of three texts.
  judge_parts-cases :
      (P : Text → Type 0) (parts : SplitResult)
      → P default
      → P (parts.path ++ (b'?' ∷ parts.query))
      → P parts.path
      → P (judge_parts parts allowlist default keep_query)
  unfolding judge_parts
  judge_parts-cases P parts d q p =
      elim (Bool-cases (not (is_empty parts.scheme) || not (is_empty parts.netloc))) [
        | inl e ↦ rw e d
        | inr e ↦
            elim (Bool-cases (
              not (contains parts.path allowlist)
              && not (is_template_detail parts.path)
              && not (is_oauth_consent parts.path))) [
                | inl f ↦ rw (e, f) d
                | inr f ↦ elim (Bool-cases (keep_query && not (is_empty parts.query))) [
                  | inl g ↦ rw (e, f, g) q
                  | inr g ↦ rw (e, f, g) p
                ]
              ]
      ]

  slash-IsLocal : (s : Text) → good_head s ≡ true → has_control s ≡ false → IsLocal (b'/' ∷ s)
  unfolding has_control
  slash-IsLocal s g c = (good_head-slash s ∙ g, c)

  judge-IsLocal :
      (s : Text)
      → good_head s ≡ true
      → has_control s ≡ false
      → IsLocal (judge_parts (urlsplit (b'/' ∷ s)) allowlist default keep_query)
  unfolding has_control
  judge-IsLocal s g c =
      let (path, query) = urlsplit-slash s g in
      let (before, _) = has_control-partition b'#' s c in
      let (p, q) = has_control-partition b'?' (partition b'#' s).0 before in
      let head : good_head (partition b'?' (partition b'#' s).0).0 ≡ true =
        good_head-partition b'?' (partition b'#' s).0 (good_head-partition b'#' s g) in
      let target = (partition b'?' (partition b'#' s).0).0 in
      let asked = (partition b'?' (partition b'#' s).0).2 in
      judge_parts-cases IsLocal (urlsplit (b'/' ∷ s)) l
        (rw (path, query)
          (slash-IsLocal (target ++ (b'?' ∷ asked)) (good_head-append target asked b'?' head refl)
            (has_control-append target (b'?' ∷ asked) p q)))
        (rw path (slash-IsLocal _ head p))

  -- Wherever the return target comes from, the result is a local path, if the default is one: it starts
  -- with one slash that no slash or backslash follows, so that a browser stays on the server, and it has
  -- no blank and no control character.
  pub safe_next-IsLocal : (raw : Option Text) → IsLocal (safe_next raw allowlist default keep_query)
  unfolding safe_next has_control
  safe_next-IsLocal none = l
  safe_next-IsLocal (some raw) = elim (Bool-cases (is_empty raw)) [
    | inl e ↦ rw e l
    | inr e ↦ elim (Bool-cases (has_control raw)) [
      | inl c ↦ rw (e, c) l
      | inr c ↦ elim (Bool-cases (is_server_relative raw)) [
        | inl r ↦ rw (e, c, r) (relative raw r c)
        | inr r ↦ rw (e, c, r) l
      ]
    ]
  ]
    where
      relative :
          (s : Text)
          → is_server_relative s ≡ true
          → has_control s ≡ false
          → IsLocal (judge_parts (urlsplit s) allowlist default keep_query)
      relative s r c =
          let (rest, e, g) = relative-slash s r in rw e (judge-IsLocal rest g (rw e at c))
