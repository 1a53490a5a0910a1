-- ===== src/Oauth/Store/Tokens/Revoked.antt =====
-- oauth/store.py: loading a token of a revoked family.
use meme_mcp.Base.{ℕ, ◌≡◌, refl, none, some, arith, Text, text_eq_iff, ok}
use meme_mcp.Base.Table.Keyed.{find, find-update_where}
use meme_mcp.Oauth.Schema.{AccessRow, RefreshRow, OauthStore, Primitives}
use meme_mcp.Oauth.Store.Tokens.{
  access_in, refresh_in, revoke_access, revoke_refresh, revoke_family, access_key, refresh_key,
  load_access_token, load_refresh_token, fetch_usable_refresh,
}

-- A token of a family that was revoked that was live does not load.
module _ (k : Primitives) (token family : Text) (now : ℕ) where
  find_access-revoked :
      (s : OauthStore) {r : AccessRow}
      → find access_key (k.hash token) s.access_tokens ≡ some r
      → r.family_id ≡ family
      → r.revoked_at ≡ none
      → find access_key (k.hash token) (revoke_family family now s).access_tokens
        ≡ some (revoke_access now r)
  unfolding revoke_family
  find_access-revoked s {r} e f u =
      rw
        (
          find-update_where access_key (access_in family) (revoke_access now) (λ x. refl)
              (k.hash token) s.access_tokens,
          e,
        )
        (ground (arith, text_eq_iff r.family_id family, f, u))

  pub load_access_token-revoked :
      (t : ℕ) (s : OauthStore) {r : AccessRow}
      → find access_key (k.hash token) s.access_tokens ≡ some r
      → r.family_id ≡ family
      → r.revoked_at ≡ none
      → load_access_token k t token (revoke_family family now s) ≡ none
  unfolding load_access_token
  load_access_token-revoked t s e f u = rw (load_access_token, find_access-revoked s e f u) refl

  find_refresh-revoked :
      (s : OauthStore) {r : RefreshRow}
      → find refresh_key (k.hash token) s.refresh_tokens ≡ some r
      → r.family_id ≡ family
      → r.revoked_at ≡ none
      → find refresh_key (k.hash token) (revoke_family family now s).refresh_tokens
        ≡ some (revoke_refresh now r)
  unfolding revoke_family
  find_refresh-revoked s {r} e f u =
      rw
        (
          find-update_where refresh_key (refresh_in family) (revoke_refresh now) (λ x. refl)
              (k.hash token) s.refresh_tokens,
          e,
        )
        (ground (arith, text_eq_iff r.family_id family, f, u))

  pub load_refresh_token-revoked :
      (t clock : ℕ) (s : OauthStore) {r : RefreshRow}
      → find refresh_key (k.hash token) s.refresh_tokens ≡ some r
      → r.family_id ≡ family
      → r.revoked_at ≡ none
      → load_refresh_token k token t clock (revoke_family family now s)
        ≡ ok (none, revoke_family family now s)
  unfolding load_refresh_token fetch_usable_refresh
  load_refresh_token-revoked t clock s e f u =
      rw (fetch_usable_refresh, find_refresh-revoked s e f u) refl
