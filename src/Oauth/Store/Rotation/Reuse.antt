-- ===== src/Oauth/Store/Rotation/Reuse.antt =====
-- oauth/store.py: reuse detection in `rotate_refresh_token`.
use meme_mcp.Base.{
  ℕ, ◌+◌, ◌<◌, ◌≤◌, ◌≡◌, refl, ◌≢◌, false, none, some, List, arith, Text, utc, expired, ok,
}
use meme_mcp.Base.Table.Keyed.{find}
use meme_mcp.Oauth.Schema.{AccessRow, RefreshRow, OauthStore, Primitives, Draw, refresh_grace}
use meme_mcp.Oauth.Store.Tokens.{
  RefreshState, access_key, refresh_key, revoke_family, fetch_usable_refresh,
}
use meme_mcp.Oauth.Store.Tokens.Mint.{
  with_access, with_refresh, mint_access-eq_ok, mint_refresh-eq_ok,
}
use meme_mcp.Oauth.Store.Tokens.Families.{
  IsDead, revoke_family-IsDead, find_access-revoke_family, find_refresh-revoke_family,
}
use meme_mcp.Oauth.Store.Rotation.{
  regrant, link_successor, mint_successors, rotate_fetched, rotate_refresh_token,
}

module _ (k : Primitives) (token : Text) (now later : ℕ) (s : OauthStore) where
  -- A token that was rotated away at time `t`, and is neither revoked nor expired.
  pub record IsRotated (r : RefreshRow) (t : ℕ) : Type 0 where
    pub stored : find refresh_key (k.hash token) s.refresh_tokens ≡ some r
    pub unrevoked : r.revoked_at ≡ none
    pub unexpired : expired r.expires_at now ≡ false
    pub rotated : r.rotated_at ≡ some (utc t)

  pub fetch_late :
      {r : RefreshRow} {t : ℕ}
      → IsRotated r t
      → t + refresh_grace < now
      → fetch_usable_refresh k token now later s ≡ ok (none, revoke_family r.family_id later s)
  unfolding fetch_usable_refresh
  fetch_late {r} {t} i late =
      rw (i.stored, fetch_usable_refresh, i.unrevoked, i.unexpired, i.rotated) (ground arith)

  fetch_soon :
      {r : RefreshRow} {t : ℕ}
      → IsRotated r t
      → now ≤ t + refresh_grace
      → fetch_usable_refresh k token now later s ≡ ok (some (r, RefreshState.grace), s)
  unfolding fetch_usable_refresh
  fetch_soon {r} {t} i soon =
      rw (i.stored, fetch_usable_refresh, i.unrevoked, i.unexpired, i.rotated) (ground arith)

  module _ (scopes : List Text) (a d : Draw) {r : RefreshRow} {t : ℕ} (i : IsRotated r t) where
    -- Presenting a token more than 30 seconds after it was rotated away gives no tokens, and every
    -- access and refresh token of its family is revoked; the rows of other families stay.
    pub rotate-reuse :
        t + refresh_grace < now
        → (s' : OauthStore) × (rotate_refresh_token k token scopes now later a d s ≡ ok (none, s'))
          × IsDead r.family_id s'
          × ((h : Text) (x : AccessRow)
              → find access_key h s.access_tokens ≡ some x
              → x.family_id ≢ r.family_id
              → find access_key h s'.access_tokens ≡ some x)
          × ((h : Text) (x : RefreshRow)
              → find refresh_key h s.refresh_tokens ≡ some x
              → x.family_id ≢ r.family_id
              → find refresh_key h s'.refresh_tokens ≡ some x)
    unfolding rotate_refresh_token rotate_fetched
    rotate-reuse late = (
      revoke_family r.family_id later s,
      rw (fetch_late i late) refl,
      revoke_family-IsDead r.family_id later s,
      find_access-revoke_family r.family_id later s,
      find_refresh-revoke_family r.family_id later s,
    )

    -- Within 30 seconds of its rotation the token gives a fresh pair again. The pair stands in the
    -- same family, nothing is revoked, and the time of the rotation does not move.
    pub rotate-grace :
        now ≤ t + refresh_grace
        → find access_key (k.hash a.token) s.access_tokens ≡ none
        → find refresh_key (k.hash d.token) s.refresh_tokens ≡ none
        → rotate_refresh_token k token scopes now later a d s
          ≡ ok (
            some (a.token, d.token),
            with_refresh k r.family_id
                (regrant r scopes)
                d
                (some (k.hash token))
                (with_access k r.family_id (regrant r scopes) a s),
          )
    unfolding rotate_refresh_token rotate_fetched mint_successors link_successor
        fetch_usable_refresh
    rotate-grace soon new_access new_refresh = rw (fetch_soon i soon) (
        rw
          (
            mint_access-eq_ok k r.family_id (regrant r scopes) a s new_access,
            mint_refresh-eq_ok k r.family_id (regrant r scopes) d (some (k.hash token))
                (with_access k r.family_id (regrant r scopes) a s) new_refresh,
          )
          refl)
