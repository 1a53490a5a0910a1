-- ===== src/Oauth/Provider/Register.antt =====
-- oauth/provider.py: `register_client`.
use meme_mcp.Base.{
  ℕ, ◌≡◌, ◌≢◌, refl, ◌↔◌, ◌⊎◌, inl, inr, true, false, List, [], ◌∷◌, ◌==◌, ==_iff, arith, codes,
  Text, text_eq, text_eq_iff, contains, Bool-cases, All, is_empty, ok, >>=-eq-ok,
}
use meme_mcp.Oauth.Schema.{ClientInfo, OauthStore}
use meme_mcp.Oauth.Store.Clients
use meme_mcp.Oauth.Redirect.{
  SplitResult, hostname, loopback_hosts, has_wildcard, urlsplit, secure, validate_redirect_uri,
  validate_all,
}
use meme_mcp.Oauth.Protocol.{Services}
use meme_mcp.Oauth.Provider.{register_client}

-- What carries a code is https, or http to a loopback host.
abbrev pub IsProtected : SplitResult → Type 0
IsProtected p =
    (p.scheme ≡ codes "https")
    ⊎ ((p.scheme ≡ codes "http")
        × ((hostname p.netloc ≡ codes "localhost")
            ⊎ (hostname p.netloc ≡ codes "127.0.0.1")
            ⊎ (hostname p.netloc ≡ codes "::1")))

-- A redirect URI that can be compared exactly, and that does not send a code in the clear.
pub record Exact (uri : Text) : Type 0 where
  pub no_wildcard : All (λ c. c ≢ b'*') uri
  pub no_fragment : (urlsplit uri).fragment ≡ []
  pub no_query : (urlsplit uri).query ≡ []
  pub no_clear_text : IsProtected (urlsplit uri)

has_wildcard-All : (uri : Text) → has_wildcard uri ≡ false → All (λ c. c ≢ b'*') uri
unfolding has_wildcard
has_wildcard-All [] h = tt
has_wildcard-All (c ∷ uri) h =
    (λ e. absurd (ground (arith, h, e)), has_wildcard-All uri (ground (arith, h)))

All-has_wildcard : (uri : Text) → All (λ c. c ≢ b'*') uri → has_wildcard uri ≡ false
unfolding has_wildcard
All-has_wildcard [] h = refl
All-has_wildcard (c ∷ uri) h = elim (Bool-cases (c == b'*')) [
  | inl e ↦ absurd (h.0 ((==_iff c b'*').0 e))
  | inr e ↦ rw e (All-has_wildcard uri h.1)
]

is_empty-true : (t : Text) → is_empty t ≡ true → t ≡ []
unfolding is_empty
is_empty-true [] h = refl
is_empty-true (c ∷ t) h = absurd (cc)

loopback-hosts :
    (h : Text)
    → contains h loopback_hosts ≡ true
    → (h ≡ codes "localhost") ⊎ (h ≡ codes "127.0.0.1") ⊎ (h ≡ codes "::1")
unfolding contains
loopback-hosts h m = elim (Bool-cases (text_eq h (codes "localhost"))) [
  | inl e ↦ inl ((text_eq_iff h (codes "localhost")).0 e)
  | inr e ↦ elim (Bool-cases (text_eq h (codes "127.0.0.1"))) [
    | inl f ↦ inr (inl ((text_eq_iff h (codes "127.0.0.1")).0 f))
    | inr f ↦ inr (inr ((text_eq_iff h (codes "::1")).0 (ground (arith, m, e, f))))
  ]
]

secure-true : (p : SplitResult) → secure p ≡ true → IsProtected p
secure-true p h = elim (Bool-cases (text_eq p.scheme (codes "https"))) [
  | inl e ↦ inl ((text_eq_iff p.scheme (codes "https")).0 e)
  | inr e ↦ inr (
    (text_eq_iff p.scheme (codes "http")).0 (ground (arith, h, e)),
    loopback-hosts (hostname p.netloc) (ground (arith, h, e)),
  )
]

true-secure : (p : SplitResult) → IsProtected p → secure p ≡ true
unfolding contains text_eq
true-secure p (inl e) = rw e refl
true-secure p (inr (e, inl h)) = rw (e, h) refl
true-secure p (inr (e, inr (inl h))) = rw (e, h) refl
true-secure p (inr (e, inr (inr h))) = rw (e, h) refl

validate-Exact : (uri : Text) → Exact uri → validate_redirect_uri uri ≡ ok tt
unfolding validate_redirect_uri is_empty
validate-Exact uri x =
    rw
      (
        All-has_wildcard uri x.no_wildcard,
        x.no_fragment,
        x.no_query,
        true-secure (urlsplit uri) x.no_clear_text,
      )
      refl

Exact-validate : (uri : Text) → validate_redirect_uri uri ≡ ok tt → Exact uri
unfolding validate_redirect_uri
Exact-validate uri h = record {
  no_wildcard = has_wildcard-All uri (ground arith);
  no_fragment = is_empty-true (urlsplit uri).fragment (ground arith);
  no_query = is_empty-true (urlsplit uri).query (ground arith);
  no_clear_text = secure-true (urlsplit uri) (ground arith);
}

validate_all-Exact : (uris : List Text) → All Exact uris → validate_all uris ≡ ok tt
unfolding validate_all
validate_all-Exact [] x = refl
validate_all-Exact (uri ∷ uris) x = rw (validate-Exact uri x.0) (validate_all-Exact uris x.1)

Exact-validate_all : (uris : List Text) → validate_all uris ≡ ok tt → All Exact uris
unfolding validate_all
Exact-validate_all [] h = tt
Exact-validate_all (uri ∷ uris) h =
    let (first, e, rest) = >>=-eq-ok (validate_redirect_uri uri) (λ checked. validate_all uris) h in
    (Exact-validate uri (rw e refl), Exact-validate_all uris rest)

module _ (v : Services) (info : ClientInfo) (nonce now : ℕ) (s s' : OauthStore) where
  -- A client registers exactly if each of its redirect URIs is without a wildcard, a fragment and a
  -- query, and is https, or http to a loopback host; and then it is stored. One URI that is not
  -- stops the registration.
  pub register_client-Exact :
      (uris : List Text)
      → (register_client v info uris nonce now s ≡ ok s')
        ↔ (All Exact uris × (s' ≡ Clients.register_client v.primitives info nonce now s))
  unfolding register_client
  register_client-Exact uris = (
    λ h.
        let (checked, e, stored) =
          >>=-eq-ok (validate_all uris)
            (λ checked. ok (Clients.register_client v.primitives info nonce now s)) h in
        (Exact-validate_all uris (rw e refl), cc stored),
    λ (exact, same). rw (validate_all-Exact uris exact, same) refl,
  )
