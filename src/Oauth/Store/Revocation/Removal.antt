-- ===== src/Oauth/Store/Revocation/Removal.antt =====
-- oauth/store.py: `load_access_token` after `revoke_families_for_principal`.
use meme_mcp.Base.{
  ℕ, ◌≡◌, refl, Option, none, some, arith, Text, text_eq, Option-cases, inl, inr, if◌then◌else◌,
}
use meme_mcp.Base.Table.Keyed.{find, find-update_where}
use meme_mcp.Oauth.Schema.{AccessRow, OauthStore, Primitives}
use meme_mcp.Oauth.Store.Tokens.{StoredAccessToken, access_key, revoke_access, load_access_token}
use meme_mcp.Oauth.Store.Revocation.{access_of, revoke_families_for_principal}

abbrev pub keep_others : Text → Option StoredAccessToken → Option StoredAccessToken
keep_others principal none = none
keep_others principal (some t) = if text_eq t.principal principal then none else some t

module _ (k : Primitives) (principal : Text) (now : ℕ) (s : OauthStore) where
  found :
      (h : Text) (r : AccessRow)
      → find access_key h s.access_tokens ≡ some r
      → find access_key h (revoke_families_for_principal principal now s).1.access_tokens
        ≡ some (if access_of principal r then revoke_access now r else r)
  unfolding revoke_families_for_principal
  found h r f =
      rw
        (
          find-update_where access_key (access_of principal) (revoke_access now) (λ x. refl) h
              s.access_tokens,
          f,
        )
        refl

  missing :
      (h : Text)
      → find access_key h s.access_tokens ≡ none
      → find access_key h (revoke_families_for_principal principal now s).1.access_tokens ≡ none
  unfolding revoke_families_for_principal
  missing h f =
      rw
        (
          find-update_where access_key (access_of principal) (revoke_access now) (λ x. refl) h
              s.access_tokens,
          f,
        )
        refl

  -- After the removal an access token loads exactly if it did before and is not the principal's.
  pub load_access_token-removal :
      (t : ℕ) (token : Text)
      → load_access_token k t token (revoke_families_for_principal principal now s).1
        ≡ keep_others principal (load_access_token k t token s)
  unfolding load_access_token
  load_access_token-removal t token =
      elim (Option-cases (find access_key (k.hash token) s.access_tokens)) [
        | inl e ↦ rw (missing (k.hash token) e, load_access_token, e) refl
        | inr (r, e) ↦ rw (found (k.hash token) r e, load_access_token, e) (ground arith)
      ]
