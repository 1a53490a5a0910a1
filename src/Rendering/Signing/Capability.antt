-- ===== src/Rendering/Signing/Capability.antt =====
-- rendering/signing.py: who can read what a signed address names.
use meme_mcp.Base.{
  ℕ, ◌+◌, ◌≡◌, refl, inl, inr, true, false, not, some, [], ◌∷◌, ◌++◌, arith, codes, ltb, Text,
  text_eq, text_eq_iff, text_eq_refl, ok, >>=-eq-ok, Bool-cases, Option-cases,
}
use meme_mcp.Base.Numerals.{Numeral, str_of_nat, str_of_int, int_of_str, int_of_str-str_of_nat}
use meme_mcp.Web.Csrf.{is_ascii, compare_digest}
use meme_mcp.Rendering.Signing.{
  Codec, renders, behind, rstrip_char, is_past, signature, sign_render_url, verify_render_signature,
}

is_ascii-rstrip_char : (c : ℕ) (s : Text) → is_ascii s ≡ true → is_ascii (rstrip_char c s) ≡ true
unfolding is_ascii rstrip_char
is_ascii-rstrip_char c [] h = refl
is_ascii-rstrip_char c (x ∷ s) h = ground (arith, h, is_ascii-rstrip_char c s)

compare_digest-same : (a : Text) → is_ascii a ≡ true → compare_digest a a ≡ ok true
unfolding compare_digest
compare_digest-same a h = rw (h, text_eq_refl a) refl

compare_digest-true : (a b : Text) → compare_digest a b ≡ ok true → a ≡ b
unfolding compare_digest
compare_digest-true a b h = elim (Bool-cases (text_eq a b)) [
  | inl e ↦ (text_eq_iff a b).0 e
  | inr e ↦ absurd (ground (arith, h, e))
]

module _ (v : Codec) where
  signature-is_ascii :
      (path exp secret : Text)
      → ((b : Text) → is_ascii (v.urlsafe_b64encode b) ≡ true)
      → is_ascii (signature v path exp secret) ≡ true
  unfolding signature
  signature-is_ascii path exp secret a = is_ascii-rstrip_char b'=' _ (a _)

  -- A signed address is the address with a time and a signature, and with these the path that it names is
  -- granted until that time and not later, under the same secret. Base64 writes ASCII.
  pub verify_render_signature-sign_render_url :
      (url path secret signed : Text) (now ttl_seconds later : ℕ)
      → ((b : Text) → is_ascii (v.urlsafe_b64encode b) ≡ true)
      → behind renders url ≡ some path
      → sign_render_url v url secret now ttl_seconds ≡ ok signed
      → (exp : Text) × (sig : Text) × (signed ≡ url ++ codes "?exp=" ++ exp ++ codes "&sig=" ++ sig)
        × (verify_render_signature v path exp sig secret later
            ≡ ok (not (ltb (now + ttl_seconds) later)))
  unfolding sign_render_url verify_render_signature str_of_int
  verify_render_signature-sign_render_url url path secret signed now ttl_seconds later a p h =
      let (exp, written, done) =
        >>=-eq-ok (str_of_nat (now + ttl_seconds)) _ (rw (sign_render_url, p) at h) in
      (exp, signature v path exp secret, cc, verified exp written)
    where
      verified :
          (exp : Text)
          → str_of_nat (now + ttl_seconds) ≡ ok exp
          → verify_render_signature v path exp (signature v path exp secret) secret later
            ≡ ok (not (ltb (now + ttl_seconds) later))
      verified exp written = elim (Bool-cases (ltb (now + ttl_seconds) later)) [
        | inl e ↦
            rw (verify_render_signature, int_of_str-str_of_nat (now + ttl_seconds) exp written, e)
              refl
        | inr e ↦
            rw (verify_render_signature, int_of_str-str_of_nat (now + ttl_seconds) exp written, e)
              (rw
                (
                  written,
                  compare_digest-same (signature v path exp secret)
                      (signature-is_ascii path exp secret a),
                )
                refl)
      ]

  -- What is granted is not past its time, and carries the signature of the path and of this time.
  pub verify_render_signature_sound :
      (path exp sig secret : Text) (now : ℕ)
      → verify_render_signature v path exp sig secret now ≡ ok true
      → (n : Numeral) × (e : Text) × (int_of_str exp ≡ some n)
        × (is_past n now ≡ false)
        × (str_of_int n ≡ ok e)
        × (sig ≡ signature v path e secret)
  unfolding verify_render_signature
  verify_render_signature_sound path exp sig secret now h = elim (Option-cases (int_of_str exp)) [
    | inl p ↦ let k : ok false ≡ ok true = rw (verify_render_signature, p) at h in absurd (cc)
    | inr (n, p) ↦ elim (Bool-cases (is_past n now)) [
      | inl q ↦ let k : ok false ≡ ok true = rw (verify_render_signature, p, q) at h in absurd (cc)
      | inr q ↦
          let (e, written, compared) =
            >>=-eq-ok (str_of_int n) _ (rw (verify_render_signature, p, q) at h) in
          (n, e, p, q, written, compare_digest-true sig (signature v path e secret) compared)
    ]
  ]
