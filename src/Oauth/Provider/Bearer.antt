-- ===== src/Oauth/Provider/Bearer.antt =====
-- oauth/provider.py: `load_access_token`.
use meme_mcp.Base.{
  ℕ, ◌≡◌, refl, true, Option, none, some, arith, Text, sym, Bool-cases, Option-cases, inl, inr,
}
use meme_mcp.Oauth.Schema.{OauthStore}
use meme_mcp.Oauth.Store.Tokens.{StoredAccessToken, load_access_token}
use meme_mcp.Auth.Pat.{Capability, PatStore, verify_pat}
use meme_mcp.Oauth.Protocol.{Services, MemeAccessToken}
use meme_mcp.Oauth.Provider.{load_bearer, judge_pat, oauth_bearer, pat_bearer, authorized}

-- Where a bearer may come from: a token of the store, or a personal one that is none of the store's.
pub data Source (v : Services) (token : Text) (now later : ℕ) (s : OauthStore) (pats : PatStore)
    (b : MemeAccessToken) : Type 0 where
  oauth :
      (t : StoredAccessToken)
      → load_access_token v.primitives now token s ≡ some t
      → b ≡ oauth_bearer v token t
      → Source v token now later s pats b
  personal :
      (principal : Text) (capability : Capability)
      → load_access_token v.primitives now token s ≡ none
      → (verify_pat v.pat_hash token later pats).0 ≡ some (principal, capability)
      → b ≡ pat_bearer v token principal capability
      → Source v token now later s pats b

module _ (v : Services) (token : Text) (now later : ℕ) (s : OauthStore) (pats : PatStore)
    (b : MemeAccessToken) where
  bearer_stored :
      (t : StoredAccessToken)
      → load_access_token v.primitives now token s ≡ some t
      → (load_bearer v token now later s pats).0 ≡ some b
      → (authorized v b.principal ≡ true) × Source v token now later s pats b
  unfolding load_bearer
  bearer_stored t e h = elim (Bool-cases (authorized v t.principal)) [
    | inl h1 ↦
        let same : oauth_bearer v token t ≡ b = ground (arith, h1, e, h) in
        (rw (sym same) h1, Source.oauth t e (sym same))
    | inr h2 ↦ absurd (ground (arith, h2, e, h))
  ]

  bearer_personal :
      (verdict : Option (Text × Capability))
      → load_access_token v.primitives now token s ≡ none
      → (verify_pat v.pat_hash token later pats).0 ≡ verdict
      → (load_bearer v token now later s pats).0 ≡ some b
      → (authorized v b.principal ≡ true) × Source v token now later s pats b
  unfolding load_bearer judge_pat
  bearer_personal none e f h = absurd (ground (arith, e, f, h))
  bearer_personal (some (principal, capability)) e f h =
      elim (Bool-cases (authorized v principal)) [
        | inl h1 ↦
            let same : pat_bearer v token principal capability ≡ b = ground (arith, h1, e, f, h) in
            (rw (sym same) h1, Source.personal principal capability e f (sym same))
        | inr h2 ↦ absurd (ground (arith, h2, e, f, h))
      ]

  -- Whoever is let in is authorized at that moment, and holds a live token of the store or a live
  -- personal token, with the client, principal and scopes of that token.
  pub load_bearer-authorized :
      (load_bearer v token now later s pats).0 ≡ some b
      → (authorized v b.principal ≡ true) × Source v token now later s pats b
  load_bearer-authorized h = elim (Option-cases (load_access_token v.primitives now token s)) [
    | inl e ↦ bearer_personal (verify_pat v.pat_hash token later pats).0 e refl h
    | inr (t, e) ↦ bearer_stored t e h
  ]
