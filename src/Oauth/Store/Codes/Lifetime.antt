-- ===== src/Oauth/Store/Codes/Lifetime.antt =====
-- oauth/store.py: `load_auth_code` and `consume_auth_code` after `create_auth_code`.
use meme_mcp.Base.{
  ℕ, ◌+◌, ◌≡◌, refl, true, none, some, ◌∷◌, arith, ltb, Text, text_eq_refl, aware, expired, All, ok,
  if◌then◌else◌,
}
use meme_mcp.Base.Table.{count_where}
use meme_mcp.Base.Table.Keyed.{find, find-cons}
use meme_mcp.Oauth.Scopes.{IsScope, split_scopes-join_scopes}
use meme_mcp.Oauth.Schema.{OauthStore, Primitives, Draw, auth_code_ttl}
use meme_mcp.Oauth.Store.Codes.{
  StoredAuthCode, CodeGrant, key, code_row, create_auth_code, create_auth_code-inv, load_auth_code,
  consume_auth_code,
}

abbrev pub granted_code : CodeGrant → ℕ → StoredAuthCode
granted_code g now = record {
  client_id = g.client_id;
  redirect_uri = g.redirect_uri;
  redirect_uri_provided_explicitly = g.redirect_uri_provided_explicitly;
  code_challenge = g.code_challenge;
  scopes = g.scopes;
  principal = g.principal;
  resource = g.resource;
  expires_at = aware (now + auth_code_ttl);
}

module _ (k : Primitives) (g : CodeGrant) (d : Draw) (s : OauthStore) where
  abbrev with_code : OauthStore
  with_code = record s { auth_codes = code_row k g d ∷ s.auth_codes }

  found : find key (k.hash d.token) with_code.auth_codes ≡ some (code_row k g d)
  found = rw (find-cons key, text_eq_refl) refl

  load_auth_code-fresh :
      (now : ℕ)
      → All IsScope g.scopes
      → load_auth_code k now d.token with_code
        ≡ (if ltb now (d.now + auth_code_ttl) then some (granted_code g d.now) else none)
  unfolding load_auth_code expired
  load_auth_code-fresh now words = ground (arith, found, split_scopes-join_scopes g.scopes words)

  consume_auth_code-fresh : (now : ℕ) → (consume_auth_code k now d.token with_code).0 ≡ true
  unfolding consume_auth_code count_where
  consume_auth_code-fresh now = rw text_eq_refl (ground arith)

module _ (k : Primitives) (g : CodeGrant) (d : Draw) (s s' : OauthStore) (code : Text) where
  -- A code that was created loads with everything that it was created for, until five minutes are
  -- over, and not after that; in the store that holds it, it can be consumed. Scopes are words.
  pub load_auth_code-create_auth_code :
      create_auth_code k g d s ≡ ok (code, s')
      → All IsScope g.scopes
      → (code ≡ d.token)
        × ((now : ℕ)
            → load_auth_code k now code s'
              ≡ (if ltb now (d.now + auth_code_ttl) then some (granted_code g d.now) else none))
        × ((now : ℕ) → (consume_auth_code k now code s').0 ≡ true)
  load_auth_code-create_auth_code h words =
      let (new, same, e) = create_auth_code-inv k g d s h in
      rw (same, e)
        (
          refl,
          λ now. load_auth_code-fresh k g d s now words,
          λ now. consume_auth_code-fresh k g d s now,
        )
