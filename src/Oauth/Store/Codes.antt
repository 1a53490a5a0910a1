-- ===== src/Oauth/Store/Codes.antt =====
-- oauth/store.py, "authorization codes": stored by hash, short-lived, used once.
pub mod Lifetime
use meme_mcp.Base.{
  ℕ, ◌+◌, ltb, Bool, ◌&&◌, not, ◌||◌, Option, none, some, List, ◌∷◌, ◌≡◌, arith, Text, Stamp, utc,
  DateTime, parse_dt, is_some, expired, Result, ok, ◌>>=◌, if◌then◌else◌,
}
use meme_mcp.Base.Table.{update_where, count_where}
use meme_mcp.Base.Table.Keyed.{find, at, insert}
use meme_mcp.Oauth.Scopes.{split_scopes, join_scopes}
use meme_mcp.Oauth.Schema.{AuthCodeRow, OauthStore, Primitives, Draw, auth_code_ttl}

pub record StoredAuthCode : Type 0 where
  pub client_id : Text
  pub redirect_uri : Text
  pub redirect_uri_provided_explicitly : Bool
  pub code_challenge : Text
  pub scopes : List Text
  pub principal : Text
  pub resource : Option Text
  pub expires_at : DateTime

-- The arguments of `create_auth_code`.
pub record CodeGrant : Type 0 where
  pub client_id : Text
  pub redirect_uri : Text
  pub redirect_uri_provided_explicitly : Bool
  pub code_challenge : Text
  pub scopes : List Text
  pub principal : Text
  pub resource : Option Text

abbrev pub key : AuthCodeRow → Text
key r = r.code_hash

abbrev pub unconsumed : AuthCodeRow → Bool
unconsumed r = not (is_some r.consumed_at)

abbrev pub stored_code : AuthCodeRow → DateTime → StoredAuthCode
stored_code r expires = record {
  client_id = r.client_id;
  redirect_uri = r.redirect_uri;
  redirect_uri_provided_explicitly = r.redirect_uri_provided_explicitly;
  code_challenge = r.code_challenge;
  scopes = split_scopes r.scopes;
  principal = r.principal;
  resource = r.resource;
  expires_at = expires;
}

module _ (k : Primitives) where
  abbrev pub code_row : CodeGrant → Draw → AuthCodeRow
  code_row g d = record {
    code_hash = k.hash d.token;
    client_id = g.client_id;
    redirect_uri = g.redirect_uri;
    redirect_uri_provided_explicitly = g.redirect_uri_provided_explicitly;
    code_challenge = g.code_challenge;
    scopes = join_scopes g.scopes;
    principal = g.principal;
    resource = g.resource;
    expires_at = utc (d.now + auth_code_ttl);
    created_at = utc d.now;
    consumed_at = none;
  }

  unfoldable pub create_auth_code : CodeGrant → Draw → OauthStore → Result (Text × OauthStore)
  create_auth_code g d s = do
    rows ← insert key (code_row g d) s.auth_codes
    ok (d.token, record s { auth_codes = rows })

  unfoldable pub load_auth_code : ℕ → Text → OauthStore → Option StoredAuthCode
  load_auth_code now code s = elim (find key (k.hash code) s.auth_codes) [
    | none ↦ none
    | some r ↦
        if is_some r.consumed_at || expired (some r.expires_at) now
        then none
        else elim (parse_dt (some r.expires_at)) [
          | none ↦ none
          | some expires ↦ some (stored_code r expires)
        ]
  ]

  unfoldable pub consume_auth_code : ℕ → Text → OauthStore → Bool × OauthStore
  consume_auth_code now code s =
      let mine : AuthCodeRow → Bool = λ r. at key (k.hash code) r && unconsumed r in
      (
        ltb 0 (count_where mine s.auth_codes),
        record s {
          auth_codes =
              update_where mine (λ r. record r { consumed_at = some (utc now) }) s.auth_codes;
        },
      )

  -- What a call that does not raise has done.
  pub create_auth_code-inv :
      (g : CodeGrant) (d : Draw) (s : OauthStore) {code : Text} {s' : OauthStore}
      → create_auth_code g d s ≡ ok (code, s')
      → (find key (k.hash d.token) s.auth_codes ≡ none)
        × (code ≡ d.token)
        × (s' ≡ record s { auth_codes = code_row g d ∷ s.auth_codes })
  unfolding create_auth_code insert
  create_auth_code-inv g d s h = ground arith
