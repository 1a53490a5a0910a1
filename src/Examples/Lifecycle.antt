-- ===== src/Examples/Lifecycle.antt =====
-- The life of a family: rotation, grace, reuse, revocation and single use, in one small store.
use meme_mcp.Base.{
  ℕ, ◌≡◌, refl, true, false, none, some, [], ◌∷◌, arith, text_eq, ok, expired, aware, if◌then◌else◌,
  ltb, subset, List, Text, contains, ◌&&◌,
}
use meme_mcp.Base.Table.Keyed.{find}
use meme_mcp.Oauth.Scopes.{split_scopes}
use meme_mcp.Oauth.Schema.{OauthStore}
use meme_mcp.Oauth.Store.Tokens.{
  RefreshState, revoke_family, fetch_usable_refresh, load_access_token, load_refresh_token,
}
use meme_mcp.Oauth.Store.Tokens.Families.{IsDead}
use meme_mcp.Oauth.Store.Tokens.Loading.{minted_access}
use meme_mcp.Oauth.Store.Rotation.{regrant, rotate_fetched, rotate_refresh_token}
use meme_mcp.Oauth.Store.Rotation.Reuse.{IsRotated}
use meme_mcp.Oauth.Store.Rotation.Lifecycle.{IsActive, IsNew, rotate-loads, rotate-single_use}
use meme_mcp.Oauth.Store.Rotation.Narrowing.{wanted}
use meme_mcp.Oauth.Store.Revocation.{family_for, revoke_token}
use meme_mcp.Oauth.Store.Steps.{Step, Reach}
use meme_mcp.Oauth.Store.Steps.Finality.{IsUnusable, reuse_is_final, revocation_is_final}
use meme_mcp.Oauth.Protocol.{Services, MemeRefreshToken, announced}
use meme_mcp.Oauth.Provider.{exchange_refresh_token}
use meme_mcp.Oauth.Provider.Refresh.{exchange_refresh_token-scope}
use meme_mcp.Examples.Fixtures.{plain, draw, family, refresh, rotated, opened, rotated_away}

opened-IsActive : IsActive plain (2 ∷ []) 5 6 opened refresh
unfolding find expired text_eq
opened-IsActive = record { stored = refl; unrevoked = refl; unexpired = refl; unrotated = refl }

opened-IsNew : IsNew plain (2 ∷ []) 5 6 opened (draw (3 ∷ []) 7) (draw (4 ∷ []) 8)
unfolding find text_eq
opened-IsNew = record { access = refl; refresh = refl }

abbrev late : ℕ
late = 40000000

rotated-IsRotated : IsRotated plain (2 ∷ []) late late rotated_away rotated 10
unfolding find expired text_eq
rotated-IsRotated = record { stored = refl; unrevoked = refl; unexpired = refl; rotated = refl }

abbrev after_reuse : OauthStore
after_reuse = revoke_family family late rotated_away

reused :
    rotate_refresh_token plain
      (2 ∷ [])
      []
      late
      late
      (draw (5 ∷ []) late)
      (draw (6 ∷ []) late)
      rotated_away
    ≡ ok (none, after_reuse)
unfolding rotate_refresh_token find expired text_eq rotate_fetched fetch_usable_refresh
reused = refl

-- The client retries the reuse of the token after the family has been revoked.
reuse_is_final_example : IsUnusable plain family (revoke_token plain (2 ∷ []) late after_reuse)
reuse_is_final_example =
    reuse_is_final plain rotated_away after_reuse (revoke_token plain (2 ∷ []) late after_reuse)
      (2 ∷ []) [] late late (draw (5 ∷ []) late) (draw (6 ∷ []) late) rotated 10 rotated-IsRotated
      (omega arith) reused (Reach.next Reach.here (Step.revokes (2 ∷ []) late refl))

family_found : family_for (plain.hash (1 ∷ [])) opened ≡ some family
unfolding family_for find text_eq
family_found = refl

revocation_is_final_example : IsUnusable plain family (revoke_token plain (1 ∷ []) 5 opened)
revocation_is_final_example =
    revocation_is_final plain opened (revoke_token plain (1 ∷ []) 5 opened) (1 ∷ []) 5 family
      family_found Reach.here

rotate-loads_example :
    (s' : OauthStore) × (rotate_refresh_token plain
        (2 ∷ [])
        []
        5
        6
        (draw (3 ∷ []) 7)
        (draw (4 ∷ []) 8)
        opened
      ≡ ok (some (3 ∷ [], 4 ∷ []), s'))
    × ((granted : List Text) × ((x : Text)
          → contains x granted ≡ (contains x (split_scopes refresh.scopes) && wanted [] x))
        × ((t : ℕ)
            → load_access_token plain t (3 ∷ []) s' ≡ (
                if ltb t 900000007
                then some (record {
                  client_id = refresh.client_id;
                  principal = refresh.principal;
                  scopes = granted;
                  resource = refresh.resource;
                  expires_at = aware 900000007;
                  family_id = family;
                })
                else none))
        × ((t later : ℕ)
            → load_refresh_token plain (4 ∷ []) t later s'
              ≡ ok (
                if ltb t 2592000000008
                    then some (record {
                      token = 4 ∷ [];
                      client_id = refresh.client_id;
                      principal = refresh.principal;
                      scopes = granted;
                      resource = refresh.resource;
                      family_id = family;
                      expires_at = some (aware 2592000000008);
                      state = RefreshState.active;
                    })
                    else none,
                s',
              )))
rotate-loads_example =
    rotate-loads plain (2 ∷ []) 5 6 opened [] (draw (3 ∷ []) 7) (draw (4 ∷ []) 8) refresh
      opened-IsActive opened-IsNew

still_valid : expired refresh.expires_at late ≡ false
unfolding expired
still_valid = refl

rotate-single_use_example :
    (s' s'' : OauthStore) × (rotate_refresh_token plain
        (2 ∷ [])
        []
        5
        6
        (draw (3 ∷ []) 7)
        (draw (4 ∷ []) 8)
        opened
      ≡ ok (some (3 ∷ [], 4 ∷ []), s'))
    × (rotate_refresh_token plain (2 ∷ []) [] late late (draw (5 ∷ []) late) (draw (6 ∷ []) late) s'
        ≡ ok (none, s''))
    × IsDead family s''
    × ((t : ℕ) → load_access_token plain t (3 ∷ []) s'' ≡ none)
    × ((t clock : ℕ) → load_refresh_token plain (4 ∷ []) t clock s'' ≡ ok (none, s''))
rotate-single_use_example =
    rotate-single_use plain (2 ∷ []) 5 6 opened [] (draw (3 ∷ []) 7) (draw (4 ∷ []) 8) refresh
      opened-IsActive opened-IsNew [] late late (draw (5 ∷ []) late) (draw (6 ∷ []) late)
      (omega arith) still_valid

abbrev services : Services
services = record {
  primitives = plain;
  pat_hash = λ t. t;
  is_allowlisted = λ login. true;
  pins = none;
  resource_url = 85 ∷ [];
  any_url = λ t. t;
}

abbrev presented : MemeRefreshToken
presented = record {
  token = 2 ∷ [];
  client_id = 67 ∷ [];
  scopes = split_scopes refresh.scopes;
  expires_at = none;
  principal = 80 ∷ [];
  resource = none;
  family_id = family;
}

none_asked : subset [] presented.scopes ≡ true
unfolding subset
none_asked = refl

exchange_refresh_token-scope_example :
    (s' : OauthStore) × (exchange_refresh_token services
        (67 ∷ [])
        presented
        []
        5
        6
        (draw (3 ∷ []) 7)
        (draw (4 ∷ []) 8)
        9
        opened
      ≡ (
        ok (record {
          access_token = 3 ∷ [];
          refresh_token = 4 ∷ [];
          scope = announced (regrant refresh []).scopes;
        }),
        s',
      ))
    × ((t : ℕ)
        → load_access_token plain t (3 ∷ []) s' ≡ (
            if ltb t 900000007
            then some (minted_access family (regrant refresh []) (draw (3 ∷ []) 7))
            else none))
exchange_refresh_token-scope_example =
    exchange_refresh_token-scope services (67 ∷ []) presented [] 5 6 (draw (3 ∷ []) 7)
      (draw (4 ∷ []) 8) 9 opened refresh opened-IsActive opened-IsNew refl none_asked
