-- ===== src/Oauth/Store/Revocation.antt =====
-- oauth/store.py, "revocation".
pub mod Removal
use meme_mcp.Base.{ℕ, Bool, ◌&&◌, not, Option, none, some, Text, text_eq, is_some}
use meme_mcp.Base.Table.{update_where, count_where}
use meme_mcp.Base.Table.Keyed.{find}
use meme_mcp.Oauth.Schema.{AccessRow, RefreshRow, OauthStore, Primitives}
use meme_mcp.Oauth.Store.Tokens.{
  access_key, refresh_key, revoke_access, revoke_refresh, revoke_family,
}

-- `_family_for`: the access tokens are looked at first.
unfoldable pub family_for : Text → OauthStore → Option Text
family_for digest s = elim (find access_key digest s.access_tokens) [
  | some r ↦ some r.family_id
  | none ↦ elim (find refresh_key digest s.refresh_tokens) [
    | some r ↦ some r.family_id
    | none ↦ none
  ]
]

unfoldable pub revoke_token : Primitives → Text → ℕ → OauthStore → OauthStore
unfolding family_for revoke_family
revoke_token k token now s = elim (family_for (k.hash token) s) [
  | none ↦ s
  | some family ↦ revoke_family family now s
]

-- `WHERE principal = ? AND revoked_at IS NULL`
abbrev pub refresh_of : Text → RefreshRow → Bool
refresh_of principal r = text_eq r.principal principal && not (is_some r.revoked_at)

abbrev pub access_of : Text → AccessRow → Bool
access_of principal r = text_eq r.principal principal && not (is_some r.revoked_at)

unfoldable pub revoke_families_for_principal : Text → ℕ → OauthStore → ℕ × OauthStore
revoke_families_for_principal principal now s = (
  count_where (refresh_of principal) s.refresh_tokens,
  record s {
    refresh_tokens = update_where (refresh_of principal) (revoke_refresh now) s.refresh_tokens;
    access_tokens = update_where (access_of principal) (revoke_access now) s.access_tokens;
  },
)
