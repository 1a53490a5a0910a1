-- ===== src/Oauth/Store/Gc/Invisible.antt =====
-- oauth/store.py: loading tokens after `gc_expired_tokens`.
use meme_mcp.Base.{
  ℕ, ◌≤◌, ◌≡◌, ◌∙◌, refl, true, false, ◌||◌, Bool-cases, is_some, type_error, Error, err, Option,
  none, some, arith, Text, Stamp, utc, naive, malformed, rank, expired, Option-cases, inl, inr, ok,
  ◌>>=◌,
}
use meme_mcp.Base.Table.Keyed.{find, Distinct, find-delete_where}
use meme_mcp.Oauth.Schema.{RefreshRow, OauthStore, Primitives}
use meme_mcp.Oauth.Store.Tokens.{
  StoredRefreshToken, access_key, refresh_key, load_access_token, load_refresh_token,
  fetch_usable_refresh, Rotation, never, within, beyond, unreadable, zoneless, rotation_age,
  judge_rotation, revoke_family, stored_refresh,
}
use meme_mcp.Oauth.Store.Gc.{sql_le, stale_access, stale_refresh, gc_expired_tokens}

-- What the collection takes for expired has expired, then and later.
expired-sql_le :
    (s : Option Stamp) (now later : ℕ) → now ≤ later → sql_le s now ≡ true → expired s later ≡ true
unfolding expired rank
expired-sql_le none now later h e = cc
expired-sql_le (some (utc t)) now later h e = ground arith
expired-sql_le (some (naive r)) now later h e = refl
expired-sql_le (some (malformed r)) now later h e = refl

-- A refresh token fares alike in two stores: it gives the same answer in both and changes neither, or
-- it is taken for reused in both, and the same family is revoked, or the call raises the same in both.
module _ (k : Primitives) (token : Text) (now clock : ℕ) where
  pub data Alike (s s' : OauthStore) : Type 0 where
    settled :
        (t : Option StoredRefreshToken)
        → load_refresh_token k token now clock s ≡ ok (t, s)
        → load_refresh_token k token now clock s' ≡ ok (t, s')
        → Alike s s'
    reused :
        (family : Text)
        → load_refresh_token k token now clock s ≡ ok (none, revoke_family family clock s)
        → load_refresh_token k token now clock s' ≡ ok (none, revoke_family family clock s')
        → Alike s s'
    failed :
        (e : Error)
        → load_refresh_token k token now clock s ≡ err e
        → load_refresh_token k token now clock s' ≡ err e
        → Alike s s'

  module _ (r : RefreshRow) where
    load_unusable :
        (u : OauthStore)
        → find refresh_key (k.hash token) u.refresh_tokens ≡ some r
        → (is_some r.revoked_at || expired r.expires_at now) ≡ true
        → load_refresh_token k token now clock u ≡ ok (none, u)
    unfolding load_refresh_token fetch_usable_refresh
    load_unusable u found bad = rw (fetch_usable_refresh, found, bad) refl

    load_aged :
        (u : OauthStore) (age : Rotation)
        → find refresh_key (k.hash token) u.refresh_tokens ≡ some r
        → (is_some r.revoked_at || expired r.expires_at now) ≡ false
        → rotation_age r.rotated_at now ≡ age
        → load_refresh_token k token now clock u ≡ (
            judge_rotation k age r clock u >>= (λ p. ok (
              elim p.0 [
                | none ↦ none
                | some usable ↦ some (stored_refresh k token usable.0 usable.1)
              ],
              p.1,
            )))
    unfolding load_refresh_token fetch_usable_refresh
    load_aged u age found good e = rw (fetch_usable_refresh, found, good, e) refl

    same_row-Alike :
        (s s' : OauthStore)
        → find refresh_key (k.hash token) s.refresh_tokens ≡ some r
        → find refresh_key (k.hash token) s'.refresh_tokens ≡ some r
        → Alike s s'
    unfolding judge_rotation
    same_row-Alike s s' f f' =
        elim (Bool-cases (is_some r.revoked_at || expired r.expires_at now)) [
          | inl bad ↦ settled none (load_unusable s f bad) (load_unusable s' f' bad)
          | inr good ↦ aged good (rotation_age r.rotated_at now) refl
        ]
      where
        aged :
            (is_some r.revoked_at || expired r.expires_at now) ≡ false
            → (age : Rotation) → rotation_age r.rotated_at now ≡ age
            → Alike s s'
        aged good never e = settled _ (load_aged s never f good e) (load_aged s' never f' good e)
        aged good within e = settled _ (load_aged s within f good e) (load_aged s' within f' good e)
        aged good beyond e =
            reused r.family_id (load_aged s beyond f good e) (load_aged s' beyond f' good e)
        aged good unreadable e =
            settled none (load_aged s unreadable f good e) (load_aged s' unreadable f' good e)
        aged good zoneless e =
            failed type_error (load_aged s zoneless f good e) (load_aged s' zoneless f' good e)

  load_absent :
      (u : OauthStore)
      → find refresh_key (k.hash token) u.refresh_tokens ≡ none
      → load_refresh_token k token now clock u ≡ ok (none, u)
  unfolding load_refresh_token fetch_usable_refresh
  load_absent u e = rw (fetch_usable_refresh, e) refl

module _ (k : Primitives) (token : Text) (now later : ℕ) (s : OauthStore) (h : now ≤ later) where
  -- Once tokens are collected, every access token loads at any later time exactly as it would have
  -- without the collection. Hashes are unique, as the primary key makes them.
  pub load_access_token-gc :
      Distinct access_key s.access_tokens
      → load_access_token k later token (gc_expired_tokens now s).1
        ≡ load_access_token k later token s
  unfolding load_access_token gc_expired_tokens
  load_access_token-gc d = elim (Option-cases (find access_key (k.hash token) s.access_tokens)) [
    | inl e ↦
        rw
          (
            find-delete_where access_key (stale_access now) (k.hash token) s.access_tokens d,
            load_access_token,
            e,
          )
          refl
    | inr (r, e) ↦
        rw
          (
            find-delete_where access_key (stale_access now) (k.hash token) s.access_tokens d,
            load_access_token,
            e,
          )
          (ground (arith, expired-sql_le (some r.expires_at) now later h))
  ]

  -- The same for refresh tokens, their reuse detection included.
  pub load_refresh_token-gc :
      (clock : ℕ)
      → Distinct refresh_key s.refresh_tokens
      → Alike k token later clock (gc_expired_tokens now s).1 s
  unfolding gc_expired_tokens
  load_refresh_token-gc clock d =
      let kept =
        find-delete_where refresh_key (stale_refresh now) (k.hash token) s.refresh_tokens d in
      elim (Option-cases (find refresh_key (k.hash token) s.refresh_tokens)) [
        | inl e ↦
            settled none (load_absent k token later clock _ (kept ∙ rw e refl))
              (load_absent k token later clock s e)
        | inr (r, e) ↦ elim (Bool-cases (stale_refresh now r)) [
          | inl old ↦ settled none (load_absent k token later clock _ (kept ∙ rw (e, old) refl)) (
              load_unusable k token later clock r s e
                (ground (arith, old, expired-sql_le r.expires_at now later h)))
          | inr young ↦
              same_row-Alike k token later clock r (gc_expired_tokens now s).1 s
                (kept ∙ rw (e, young) refl) e
        ]
      ]
