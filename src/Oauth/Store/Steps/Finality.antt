-- ===== src/Oauth/Store/Steps/Finality.antt =====
-- oauth/store.py: revocation along the calls.
use meme_mcp.Base.{ℕ, ◌+◌, ◌<◌, ◌≡◌, ◌≢◌, none, some, List, Text, ok}
use meme_mcp.Oauth.Schema.{RefreshRow, OauthStore, Primitives, Draw, refresh_grace}
use meme_mcp.Oauth.Store.Tokens.{
  StoredAccessToken, StoredRefreshToken, load_access_token, load_refresh_token,
}
use meme_mcp.Oauth.Store.Tokens.Families.{
  IsDead, revoke_family-IsDead, load_access_token-family, load_refresh_token-family,
}
use meme_mcp.Oauth.Store.Rotation.{rotate_refresh_token}
use meme_mcp.Oauth.Store.Rotation.Reuse.{IsRotated, rotate-reuse}
use meme_mcp.Oauth.Store.Revocation.{family_for, revoke_token}
use meme_mcp.Oauth.Store.Steps.{Reach}
use meme_mcp.Oauth.Store.Steps.Death.{Reach-IsDead}

-- No token of the family can be used, by whoever presents it and at whatever time.
pub record IsUnusable (k : Primitives) (family : Text) (s : OauthStore) : Type 0 where
  pub access :
      (now : ℕ) (token : Text) (t : StoredAccessToken)
      → load_access_token k now token s ≡ some t
      → t.family_id ≢ family
  pub refresh :
      (token : Text) (now later : ℕ) (s' : OauthStore) (t : StoredRefreshToken)
      → load_refresh_token k token now later s ≡ ok (some t, s')
      → t.family_id ≢ family

IsDead-IsUnusable :
    (k : Primitives) (family : Text) (s : OauthStore) → IsDead family s → IsUnusable k family s
IsDead-IsUnusable k family s dead = record {
  access = λ now token t h. load_access_token-family k now token s h dead;
  refresh = λ token now later s' t h. load_refresh_token-family k token now later s h dead;
}

module _ (k : Primitives) (s s' s'' : OauthStore) where
  -- After a rotated token, neither revoked nor expired, was presented more than 30 seconds after its
  -- rotation, no token of its family can be used any more, whatever is called afterwards.
  pub reuse_is_final :
      (token : Text) (scopes : List Text) (now later : ℕ) (a d : Draw) (r : RefreshRow) (t : ℕ)
      → IsRotated k token now later s r t
      → t + refresh_grace < now
      → rotate_refresh_token k token scopes now later a d s ≡ ok (none, s')
      → Reach k r.family_id s' s''
      → IsUnusable k r.family_id s''
  reuse_is_final token scopes now later a d r t i late h reach =
      let (u, e, dead, _, _) = rotate-reuse k token now later s scopes a d i late in
      let same : u ≡ s' = cc (e, h) in
      IsDead-IsUnusable k r.family_id s'' (Reach-IsDead k (rw same at dead) reach)

module _ (k : Primitives) (s s'' : OauthStore) where
  -- After the revocation of a token, be it an access or a refresh token, no token of its family can be
  -- used any more, whatever is called afterwards.
  pub revocation_is_final :
      (token : Text) (now : ℕ) (family : Text)
      → family_for (k.hash token) s ≡ some family
      → Reach k family (revoke_token k token now s) s''
      → IsUnusable k family s''
  unfolding revoke_token
  revocation_is_final token now family f reach =
      IsDead-IsUnusable k family s''
        (Reach-IsDead k (rw (f, revoke_token) (revoke_family-IsDead family now s)) reach)
