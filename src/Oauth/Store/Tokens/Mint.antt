-- ===== src/Oauth/Store/Tokens/Mint.antt =====
-- oauth/store.py: `_mint_access`, `_mint_refresh` and `issue_initial_tokens`, where they do not
-- raise.
use meme_mcp.Base.{◌≡◌, refl, Option, none, ◌∷◌, Text, Result, ok, >>=-eq-ok}
use meme_mcp.Base.Table.Keyed.{find, insert, insert-inv, insert-eq_ok}
use meme_mcp.Oauth.Schema.{OauthStore, Primitives, Draw}
use meme_mcp.Oauth.Store.Tokens.{
  Grant, access_key, refresh_key, access_row, refresh_row, mint_access, mint_refresh,
  issue_initial_tokens,
}

module _ (k : Primitives) (family : Text) (g : Grant) (d : Draw) where
  abbrev pub with_access : OauthStore → OauthStore
  with_access s = record s { access_tokens = access_row k family g d ∷ s.access_tokens }

  abbrev pub with_refresh : Option Text → OauthStore → OauthStore
  with_refresh prev s = record s {
    refresh_tokens = refresh_row k family prev g d ∷ s.refresh_tokens;
  }

  pub mint_access-inv :
      {s s' : OauthStore}
      → mint_access k family g d s ≡ ok s'
      → (find access_key (k.hash d.token) s.access_tokens ≡ none) × (s' ≡ with_access s)
  unfolding mint_access
  mint_access-inv {s} {s'} h =
      let (rows, i, e) =
        >>=-eq-ok (insert access_key (access_row k family g d) s.access_tokens) _ h in
      let (new, shape) = insert-inv access_key (access_row k family g d) s.access_tokens rows i in
      (new, cc)

  pub mint_access-eq_ok :
      (s : OauthStore)
      → find access_key (k.hash d.token) s.access_tokens ≡ none
      → mint_access k family g d s ≡ ok (with_access s)
  unfolding mint_access
  mint_access-eq_ok s new = rw (insert-eq_ok, new) refl

  module _ (prev : Option Text) where
    pub mint_refresh-inv :
        {s s' : OauthStore}
        → mint_refresh k family prev g d s ≡ ok s'
        → (find refresh_key (k.hash d.token) s.refresh_tokens ≡ none) × (s' ≡ with_refresh prev s)
    unfolding mint_refresh
    mint_refresh-inv {s} {s'} h =
        let (rows, i, e) =
          >>=-eq-ok (insert refresh_key (refresh_row k family prev g d) s.refresh_tokens) _ h in
        let (new, shape) =
          insert-inv refresh_key (refresh_row k family prev g d) s.refresh_tokens rows i in
        (new, cc)

    pub mint_refresh-eq_ok :
        (s : OauthStore)
        → find refresh_key (k.hash d.token) s.refresh_tokens ≡ none
        → mint_refresh k family prev g d s ≡ ok (with_refresh prev s)
    unfolding mint_refresh
    mint_refresh-eq_ok s new = rw (insert-eq_ok, new) refl

module _ (k : Primitives) (g : Grant) (family : Text) (a r : Draw) where
  minted_pair :
      {s s1 s2 s' : OauthStore} {pair : Text × Text}
      → mint_access k family g a s ≡ ok s1
      → mint_refresh k family none g r s1 ≡ ok s2
      → ◌≡◌ {A = Result ((Text × Text) × OauthStore)} (ok ((a.token, r.token), s2)) (ok (pair, s'))
      → (find access_key (k.hash a.token) s.access_tokens ≡ none)
        × (find refresh_key (k.hash r.token) s.refresh_tokens ≡ none)
        × (pair ≡ (a.token, r.token))
        × (s' ≡ with_refresh k family g r none (with_access k family g a s))
  minted_pair {s} {s1} {s2} {s'} {pair} m1 m2 e =
      let (new1, shape1) = mint_access-inv k family g a m1 in
      let (new2, shape2) = mint_refresh-inv k family g r none m2 in
      (
        new1,
        rw shape1 at new2,
        cc,
        rw shape1 at (let q : s' ≡ with_refresh k family g r none s1 = cc in q),
      )

  pub issue_initial_tokens-inv :
      {s s' : OauthStore} {pair : Text × Text}
      → issue_initial_tokens k g family a r s ≡ ok (pair, s')
      → (find access_key (k.hash a.token) s.access_tokens ≡ none)
        × (find refresh_key (k.hash r.token) s.refresh_tokens ≡ none)
        × (pair ≡ (a.token, r.token))
        × (s' ≡ with_refresh k family g r none (with_access k family g a s))
  unfolding issue_initial_tokens
  issue_initial_tokens-inv {s} h =
      let (s1, m1, rest) = >>=-eq-ok (mint_access k family g a s) _ h in
      let (s2, m2, e) = >>=-eq-ok (mint_refresh k family none g r s1) _ rest in minted_pair m1 m2 e
