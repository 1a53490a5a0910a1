-- ===== src/Oauth/Store/Tokens/Fetch.antt =====
-- oauth/store.py: the outcomes of `_fetch_usable_refresh`.
use meme_mcp.Base.{
  ℕ, ◌≡◌, refl, false, ◌||◌, Option, none, some, arith, Text, is_some, expired, ok, Option-cases,
  Bool-cases, inl, inr,
}
use meme_mcp.Base.Table.Keyed.{find}
use meme_mcp.Oauth.Schema.{RefreshRow, OauthStore, Primitives}
use meme_mcp.Oauth.Store.Tokens.{
  RefreshState, active, grace, Rotation, never, within, beyond, unreadable, zoneless, refresh_key,
  revoke_family, rotation_age, judge_rotation, fetch_usable_refresh,
}

module _ (k : Primitives) (token : Text) (now later : ℕ) (s : OauthStore) where
  -- A fetch that does not raise refuses, or refuses and revokes a family, or hands out the row.
  pub data Outcome (fetched : Option (RefreshRow × RefreshState)) (s' : OauthStore) : Type 0 where
    refused : fetched ≡ none → s' ≡ s → Outcome fetched s'
    reused :
        (r : RefreshRow)
        → find refresh_key (k.hash token) s.refresh_tokens ≡ some r
        → rotation_age r.rotated_at now ≡ beyond
        → fetched ≡ none
        → s' ≡ revoke_family r.family_id later s
        → Outcome fetched s'
    usable :
        (r : RefreshRow) (state : RefreshState)
        → find refresh_key (k.hash token) s.refresh_tokens ≡ some r
        → is_some r.revoked_at ≡ false
        → expired r.expires_at now ≡ false
        → fetched ≡ some (r, state)
        → s' ≡ s
        → Outcome fetched s'

  judge_rotation-Outcome :
      (age : Rotation) (r : RefreshRow) {fetched : Option (RefreshRow × RefreshState)}
      {s' : OauthStore}
      → find refresh_key (k.hash token) s.refresh_tokens ≡ some r
      → rotation_age r.rotated_at now ≡ age
      → is_some r.revoked_at ≡ false
      → expired r.expires_at now ≡ false
      → judge_rotation k age r later s ≡ ok (fetched, s')
      → Outcome fetched s'
  unfolding judge_rotation
  judge_rotation-Outcome never r f a u e h = usable r active f u e (ground arith) (ground arith)
  judge_rotation-Outcome within r f a u e h = usable r grace f u e (ground arith) (ground arith)
  judge_rotation-Outcome beyond r f a u e h = reused r f a (ground arith) (ground arith)
  judge_rotation-Outcome unreadable r f a u e h = refused (ground arith) (ground arith)
  judge_rotation-Outcome zoneless r f a u e h = absurd (cc)

  fetch_row-Outcome :
      (r : RefreshRow) {fetched : Option (RefreshRow × RefreshState)} {s' : OauthStore}
      → find refresh_key (k.hash token) s.refresh_tokens ≡ some r
      → fetch_usable_refresh k token now later s ≡ ok (fetched, s')
      → Outcome fetched s'
  unfolding fetch_usable_refresh
  fetch_row-Outcome r f h = elim (Bool-cases (is_some r.revoked_at || expired r.expires_at now)) [
    | inl bad ↦ refused (ground arith) (ground arith)
    | inr good ↦
        judge_rotation-Outcome (rotation_age r.rotated_at now) r f refl (ground arith)
          (ground arith) (ground arith)
  ]

  pub fetch_usable_refresh-Outcome :
      {fetched : Option (RefreshRow × RefreshState)} {s' : OauthStore}
      → fetch_usable_refresh k token now later s ≡ ok (fetched, s')
      → Outcome fetched s'
  unfolding fetch_usable_refresh
  fetch_usable_refresh-Outcome h =
      elim (Option-cases (find refresh_key (k.hash token) s.refresh_tokens)) [
        | inl miss ↦ refused (ground arith) (ground arith)
        | inr (r, f) ↦ fetch_row-Outcome r f h
      ]
