-- ===== src/Rendering/Signing.antt =====
-- rendering/signing.py: the signed addresses of renders.
pub mod Capability
use meme_mcp.Base.{
  ℕ, ◌+◌, Bool, true, false, ◌&&◌, Option, none, some, [], ◌∷◌, ◌++◌, codes, ltb, ◌==◌, Text,
  is_empty, Result, ok, err, index_error, ◌>>=◌, if◌then◌else◌,
}
use meme_mcp.Base.Numerals.{Numeral, nonneg, minus, str_of_nat, str_of_int, int_of_str}
use meme_mcp.Web.Csrf.{compare_digest}
use meme_mcp.Web.SafeNext.{remove_prefix}

-- What hmac, base64 and the encoding of texts give.
pub record Codec : Type 0 where
  pub utf8 : Text → Text
  pub mac : Text → Text → Text
  pub urlsafe_b64encode : Text → Text

-- `_DOMAIN`
abbrev pub domain : Text
domain = codes "render-url-v1"

abbrev pub renders : Text
renders = codes "/renders/"

-- `s.split(sep, 1)[1]`, if the text holds the separator
unfoldable pub behind : Text → Text → Option Text
unfolding remove_prefix
behind sep [] = remove_prefix sep []
behind sep (c ∷ s) =
    let later = behind sep s in
    elim (remove_prefix sep (c ∷ s)) [ some rest ↦ some rest | none ↦ later ]

-- `s.rstrip(c)`
unfoldable pub rstrip_char : ℕ → Text → Text
unfolding is_empty
rstrip_char c [] = []
rstrip_char c (x ∷ s) =
    let rest = rstrip_char c s in if is_empty rest && x == c then [] else x ∷ rest

-- The comparison `now > exp`
abbrev pub is_past : Numeral → ℕ → Bool
is_past (nonneg e) now = ltb e now
is_past (minus e) now = ltb 0 (now + e)

module _ (v : Codec) where
  unfoldable pub signing_key : Text → Text
  signing_key secret = v.mac (v.utf8 secret) domain

  -- `_signature`, on the text of `exp`
  unfoldable pub signature : Text → Text → Text → Text
  unfolding signing_key rstrip_char
  signature path exp secret =
      rstrip_char b'='
        (v.urlsafe_b64encode (v.mac (signing_key secret) (v.utf8 (path ++ (b':' ∷ exp)))))

  unfoldable pub sign_render_url : Text → Text → ℕ → ℕ → Result Text
  unfolding behind str_of_nat signature
  sign_render_url rendered_url secret now ttl_seconds = elim (behind renders rendered_url) [
    | none ↦ err index_error
    | some path ↦ str_of_nat (now + ttl_seconds) >>= (λ exp.
        ok (rendered_url ++ codes "?exp=" ++ exp ++ codes "&sig=" ++ signature path exp secret))
  ]

  unfoldable pub verify_render_signature : Text → Text → Text → Text → ℕ → Result Bool
  unfolding int_of_str str_of_int signature compare_digest
  verify_render_signature path exp sig secret now = elim (int_of_str exp) [
    | none ↦ ok false
    | some exp_int ↦
        if is_past exp_int now
        then ok false
        else str_of_int exp_int >>= (λ e. compare_digest sig (signature path e secret))
  ]
