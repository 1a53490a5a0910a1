-- ===== src/Oauth/Store/Tokens.antt =====
-- oauth/store.py, "tokens" and "revocation": the pair that opens a family, its loading, its
-- rotation with reuse detection, and the revocation of families.
pub mod Families
pub mod Mint
pub mod Fetch
pub mod Loading
pub mod Revoked
use meme_mcp.Base.{
  ℕ, ◌+◌, leb, Bool, true, false, ◌&&◌, not, ◌||◌, Option, none, some, List, [], ◌∷◌, Text, text_eq,
  Stamp, utc, DateTime, aware, unaware, from_isoformat, parse_dt, is_some, expired, Result, ok, err,
  type_error, ◌>>=◌, if◌then◌else◌,
}
use meme_mcp.Base.Table.{update_where, count_where}
use meme_mcp.Base.Table.Keyed.{find, at, insert}
use meme_mcp.Oauth.Scopes.{split_scopes, join_scopes, narrow}
use meme_mcp.Oauth.Schema.{
  AccessRow, RefreshRow, OauthStore, Primitives, Draw, access_ttl, refresh_ttl, refresh_grace,
}

pub record StoredAccessToken : Type 0 where
  pub client_id : Text
  pub principal : Text
  pub scopes : List Text
  pub resource : Option Text
  pub expires_at : DateTime
  pub family_id : Text

pub data RefreshState : Type 0 where
  active grace : RefreshState

pub record StoredRefreshToken : Type 0 where
  pub token : Text
  pub client_id : Text
  pub principal : Text
  pub scopes : List Text
  pub resource : Option Text
  pub family_id : Text
  pub expires_at : Option DateTime
  pub state : RefreshState

-- What the tokens of one family have in common.
pub record Grant : Type 0 where
  pub client_id : Text
  pub principal : Text
  pub scopes : List Text
  pub resource : Option Text

abbrev pub access_key : AccessRow → Text
access_key r = r.token_hash

abbrev pub refresh_key : RefreshRow → Text
refresh_key r = r.token_hash

-- `WHERE family_id = ? AND revoked_at IS NULL`
abbrev pub access_in : Text → AccessRow → Bool
access_in family r = text_eq r.family_id family && not (is_some r.revoked_at)

abbrev pub refresh_in : Text → RefreshRow → Bool
refresh_in family r = text_eq r.family_id family && not (is_some r.revoked_at)

abbrev pub revoke_access : ℕ → AccessRow → AccessRow
revoke_access now r = record r { revoked_at = some (utc now) }

abbrev pub revoke_refresh : ℕ → RefreshRow → RefreshRow
revoke_refresh now r = record r { revoked_at = some (utc now) }

-- `_revoke_family`
unfoldable pub revoke_family : Text → ℕ → OauthStore → OauthStore
revoke_family family now s = record s {
  access_tokens = update_where (access_in family) (revoke_access now) s.access_tokens;
  refresh_tokens = update_where (refresh_in family) (revoke_refresh now) s.refresh_tokens;
}

-- The age of a rotation, as `_fetch_usable_refresh` tells it: `now - rotated_at` raises where the
-- stored time has no time zone.
pub data Rotation : Type 0 where
  never within beyond unreadable zoneless : Rotation

unfoldable pub rotation_age : Option Stamp → ℕ → Rotation
unfolding from_isoformat
rotation_age none now = never
rotation_age (some s) now = elim (from_isoformat s) [
  | none ↦ unreadable
  | some (unaware _) ↦ zoneless
  | some (aware t) ↦ if leb now (t + refresh_grace) then within else beyond
]

module _ (k : Primitives) where
  abbrev pub access_row : Text → Grant → Draw → AccessRow
  access_row family g d = record {
    token_hash = k.hash d.token;
    family_id = family;
    client_id = g.client_id;
    principal = g.principal;
    scopes = join_scopes g.scopes;
    resource = g.resource;
    expires_at = utc (d.now + access_ttl);
    created_at = utc d.now;
    revoked_at = none;
  }

  abbrev pub refresh_row : Text → Option Text → Grant → Draw → RefreshRow
  refresh_row family prev g d = record {
    token_hash = k.hash d.token;
    family_id = family;
    prev_token_hash = prev;
    client_id = g.client_id;
    principal = g.principal;
    scopes = join_scopes g.scopes;
    resource = g.resource;
    expires_at = some (utc (d.now + refresh_ttl));
    created_at = utc d.now;
    rotated_at = none;
    revoked_at = none;
    superseded_by_hash = none;
  }

  unfoldable pub mint_access : Text → Grant → Draw → OauthStore → Result OauthStore
  mint_access family g d s = do
    rows ← insert access_key (access_row family g d) s.access_tokens
    ok (record s { access_tokens = rows })

  unfoldable pub mint_refresh : Text → Option Text → Grant → Draw → OauthStore → Result OauthStore
  mint_refresh family prev g d s = do
    rows ← insert refresh_key (refresh_row family prev g d) s.refresh_tokens
    ok (record s { refresh_tokens = rows })

  -- `family` is a fresh token too.
  unfoldable pub issue_initial_tokens :
      Grant → Text → Draw → Draw → OauthStore → Result ((Text × Text) × OauthStore)
  unfolding mint_access mint_refresh
  issue_initial_tokens g family a r s = do
    s1 ← mint_access family g a s
    s2 ← mint_refresh family none g r s1
    ok ((a.token, r.token), s2)

  unfoldable pub load_access_token : ℕ → Text → OauthStore → Option StoredAccessToken
  load_access_token now token s = elim (find access_key (k.hash token) s.access_tokens) [
    | none ↦ none
    | some r ↦
        if is_some r.revoked_at || expired (some r.expires_at) now
        then none
        else elim (parse_dt (some r.expires_at)) [
          | none ↦ none
          | some expires ↦ some (record {
            client_id = r.client_id;
            principal = r.principal;
            scopes = split_scopes r.scopes;
            resource = r.resource;
            expires_at = expires;
            family_id = r.family_id;
          })
        ]
  ]

  -- The cases after the row was found to be neither revoked nor expired. `later` is the clock
  -- reading of `_revoke_family`.
  unfoldable pub judge_rotation :
      Rotation
      → RefreshRow
      → ℕ
      → OauthStore
      → Result (Option (RefreshRow × RefreshState) × OauthStore)
  unfolding revoke_family
  judge_rotation never r later s = ok (some (r, active), s)
  judge_rotation within r later s = ok (some (r, grace), s)
  judge_rotation beyond r later s = ok (none, revoke_family r.family_id later s)
  judge_rotation unreadable r later s = ok (none, s)
  judge_rotation zoneless r later s = err type_error

  unfoldable pub fetch_usable_refresh :
      Text → ℕ → ℕ → OauthStore → Result (Option (RefreshRow × RefreshState) × OauthStore)
  unfolding judge_rotation rotation_age
  fetch_usable_refresh token now later s = elim (find refresh_key (k.hash token) s.refresh_tokens) [
    | none ↦ ok (none, s)
    | some r ↦
        if is_some r.revoked_at || expired r.expires_at now
        then ok (none, s)
        else judge_rotation (rotation_age r.rotated_at now) r later s
  ]

  abbrev pub stored_refresh : Text → RefreshRow → RefreshState → StoredRefreshToken
  stored_refresh token r state = record {
    token = token;
    client_id = r.client_id;
    principal = r.principal;
    scopes = split_scopes r.scopes;
    resource = r.resource;
    family_id = r.family_id;
    expires_at = parse_dt r.expires_at;
    state = state;
  }

  unfoldable pub load_refresh_token :
      Text → ℕ → ℕ → OauthStore → Result (Option StoredRefreshToken × OauthStore)
  unfolding fetch_usable_refresh
  load_refresh_token token now later s = do
    (fetched, s') ← fetch_usable_refresh token now later s
    ok (elim fetched [ none ↦ none | some (r, state) ↦ some (stored_refresh token r state) ], s')
