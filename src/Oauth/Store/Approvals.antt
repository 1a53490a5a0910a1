-- ===== src/Oauth/Store/Approvals.antt =====
-- oauth/store.py, "per-(principal, client) consent approvals".
pub mod Coverage
use meme_mcp.Base.{
  sorted_set, ℕ, ◌≡◌, refl, Bool, true, false, ◌&&◌, Option, none, some, List, [], ◌∷◌, ◌++◌, arith,
  Text, text_eq, Stamp, utc, subset,
}
use meme_mcp.Base.Table.{first_where, delete_where, count_where}
use meme_mcp.Oauth.Scopes.{split_scopes, join_scopes}
use meme_mcp.Oauth.Schema.{ApprovalRow, OauthStore}

-- `WHERE principal = ? AND client_id = ?`
abbrev pub of : Text → Text → ApprovalRow → Bool
of principal client_id r = text_eq r.principal principal && text_eq r.client_id client_id

-- The scopes approved so far: none where there is no row.
unfoldable pub approved : Text → Text → OauthStore → List Text
approved principal client_id s = elim (first_where (of principal client_id) s.client_approvals) [
  | none ↦ []
  | some r ↦ split_scopes r.scopes
]

-- `INSERT OR REPLACE` on the primary key (principal, client_id).
unfoldable pub record_approval : Text → Text → List Text → ℕ → OauthStore → OauthStore
unfolding approved
record_approval principal client_id scopes now s =
    let merged = approved principal client_id s ++ scopes in
    record s {
      client_approvals =
          record {
            principal = principal;
            client_id = client_id;
            scopes = join_scopes (sorted_set merged);
            approved_at = utc now;
          }
          ∷ delete_where (of principal client_id) s.client_approvals;
    }

unfoldable pub has_approval : Text → Text → List Text → OauthStore → Bool
has_approval principal client_id scopes s =
    elim (first_where (of principal client_id) s.client_approvals) [
      | none ↦ false
      | some r ↦ subset scopes (split_scopes r.scopes)
    ]

unfoldable pub delete_approvals_for_principal : Text → OauthStore → ℕ × OauthStore
delete_approvals_for_principal principal s =
    let mine : ApprovalRow → Bool = λ r. text_eq r.principal principal in
    (
      count_where mine s.client_approvals,
      record s { client_approvals = delete_where mine s.client_approvals },
    )
