-- ===== src/Examples/Signatures.antt =====
-- A signed address of a render.
use meme_mcp.Base.{
  ◌≡◌, refl, true, some, ◌+◌, ◌++◌, Text, codes, ltb, not, ok, err, type_error, is_space,
}
use meme_mcp.Web.Csrf.{is_ascii}
use meme_mcp.Rendering.Signing.{Codec, renders, behind, sign_render_url, verify_render_signature}
use meme_mcp.Rendering.Signing.Capability.{verify_render_signature-sign_render_url}

abbrev codec : Codec
codec = record {
  utf8 = λ t. t;
  mac = λ key message. key ++ message;
  urlsafe_b64encode = λ _. codes "c2ln==";
}

writes_ascii : (b : Text) → is_ascii (codec.urlsafe_b64encode b) ≡ true
unfolding is_ascii
writes_ascii b = refl

abbrev address : Text
address = codes "https://meme.example/renders/ab/cd.png"

names : behind renders address ≡ some (codes "ab/cd.png")
unfolding behind
names = refl

signs :
    sign_render_url codec address (codes "secret") 100 25
    ≡ ok (address ++ codes "?exp=125&sig=c2ln")
unfolding sign_render_url
signs = refl

verify_render_signature-sign_render_url_example :
    (exp : Text) × (sig : Text) × (address ++ codes "?exp=125&sig=c2ln"
      ≡ address ++ codes "?exp=" ++ exp ++ codes "&sig=" ++ sig)
    × (verify_render_signature codec (codes "ab/cd.png") exp sig (codes "secret") 110
        ≡ ok (not (ltb (100 + 25) 110)))
verify_render_signature-sign_render_url_example =
    verify_render_signature-sign_render_url codec address (codes "ab/cd.png") (codes "secret")
      (address ++ codes "?exp=125&sig=c2ln") 100 25 110 writes_ascii names signs

-- A signature with a character outside ASCII is an error, not a refusal.
raises_on_umlaut :
    verify_render_signature codec (codes "ab/cd.png") (codes "125") (codes "ü") (codes "secret") 110
    ≡ err type_error
unfolding verify_render_signature is_space
raises_on_umlaut = refl
