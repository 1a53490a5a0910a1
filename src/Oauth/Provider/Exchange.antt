-- ===== src/Oauth/Provider/Exchange.antt =====
-- oauth/provider.py: `exchange_authorization_code`.
use meme_mcp.Base.{
  ℕ, ◌≡◌, refl, none, arith, Text, Result, ok, err, invalid_grant, Bool-cases, inl, inr,
}
use meme_mcp.Oauth.Schema.{OauthStore, Draw}
use meme_mcp.Oauth.Store.Clients.{mark_client_used}
use meme_mcp.Oauth.Store.Codes.{consume_auth_code}
use meme_mcp.Oauth.Store.Tokens.{issue_initial_tokens}
use meme_mcp.Oauth.Store.Tokens.Mint.{issue_initial_tokens-inv}
use meme_mcp.Oauth.Store.Steps.{Reach}
use meme_mcp.Oauth.Store.Steps.Spent.{CodeSpent}
use meme_mcp.Oauth.Store.Steps.SingleUse.{
  consume_auth_code-CodeSpent, CodeSpent-refused, Reach-CodeSpent,
}
use meme_mcp.Oauth.Protocol.{Services, MemeAuthorizationCode, OauthToken, token_grant}
use meme_mcp.Oauth.Provider.{issue_for_code, exchange_authorization_code, load_authorization_code}

module _ (v : Services) (client : Text) (code : MemeAuthorizationCode) (now : ℕ) (family : Text)
    (a r : Draw) (used : ℕ) where
  issued_codes :
      (result : Result ((Text × Text) × OauthStore)) {t : OauthToken} (s : OauthStore)
      {s' : OauthStore}
      → issue_initial_tokens v.primitives (token_grant client code) family a r s ≡ result
      → issue_for_code v client code family a r used s ≡ (ok t, s')
      → s'.auth_codes ≡ s.auth_codes
  unfolding issue_for_code mark_client_used
  issued_codes (err e) s m h = absurd (ground (arith, m, h))
  issued_codes (ok (pair, s2)) s m h =
      let (_, _, _, e) =
        issue_initial_tokens-inv v.primitives (token_grant client code) family a r m in
      ground (arith, m, h, e)

  module _ (s : OauthStore) where
    exchanged :
        {t : OauthToken} {s' : OauthStore}
        → exchange_authorization_code v client code now family a r used s ≡ (ok t, s')
        → CodeSpent (v.primitives.hash code.code) s'
    unfolding exchange_authorization_code
    exchanged h = elim (Bool-cases (consume_auth_code v.primitives now code.code s).0) [
      | inl e ↦
          let codes_kept =
            issued_codes
              (issue_initial_tokens v.primitives (token_grant client code) family a r
                (consume_auth_code v.primitives now code.code s).1)
              (consume_auth_code v.primitives now code.code s).1 refl (rw e at h) in
          rw codes_kept (consume_auth_code-CodeSpent v.primitives code.code now s e)
      | inr e ↦ absurd (ground (arith, e, h))
    ]

  -- A code that was exchanged for tokens is refused for ever: after any calls of the store, whoever
  -- presents it gets `invalid_grant` and no tokens, and it does not load any more.
  pub exchange_authorization_code-once :
      (s s' s'' : OauthStore) (t : OauthToken) (other : Text)
      → exchange_authorization_code v client code now family a r used s ≡ (ok t, s')
      → Reach v.primitives other s' s''
      → (now' : ℕ)
      → ((client' family' : Text) (a' r' : Draw) (used' : ℕ)
          → (exchange_authorization_code v client' code now' family' a' r' used' s'').0
            ≡ err invalid_grant)
        × (load_authorization_code v now' code.code s'' ≡ none)
  unfolding exchange_authorization_code load_authorization_code
  exchange_authorization_code-once s s' s'' t other h reach now' =
      let spent = Reach-CodeSpent v.primitives reach (exchanged s h) in
      let (again, gone) = CodeSpent-refused v.primitives code.code now' s'' spent in
      (λ client' family' a' r' used'. ground (arith, again), ground (arith, gone))
