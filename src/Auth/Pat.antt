-- ===== src/Auth/Pat.antt =====
-- auth/pat.py: `SQLitePatStore`, and the functions that issue and verify through it. The dummy
-- comparisons of the failure paths change only the time that they take, and are not modelled.
pub mod Rows
pub mod Issue
pub mod Status
pub mod Account
use meme_mcp.Base.{
  ℕ, ◌+◌, ◌*◌, ◌≡◌, Bool, true, false, ◌&&◌, ◌||◌, not, Option, none, some, List, [], ◌∷◌, ltb, leb,
  codes, Text, text_eq, contains, Stamp, DateTime, utc, rank, parse_dt, expired, is_some, Result,
  ok, err, value_error, integrity_error, ◌>>=◌, ◌==◌, if◌then◌else◌,
}
use meme_mcp.Base.Table.{update_where, select_where}
use meme_mcp.Base.Table.Keyed.{find, at}
use meme_mcp.Auth.Authorization.{normalize_principal, principal_match_values}

pub data Capability : Type 0 where
  read readwrite : Capability

pub data PatState : Type 0 where
  absent active lapsed revoked : PatState

pub record PatRow : Type 0 where
  pub id : ℕ
  pub friend_login : Text
  pub pat_hash : Text
  pub created_at : Stamp
  pub expires_at : Option Stamp
  pub capability : Option Text
  pub last_used_at : Option Stamp
  pub revoked_at : Option Stamp

-- `next_id` is the counter behind AUTOINCREMENT.
pub record PatStore : Type 0 where
  pub pats : List PatRow
  pub next_id : ℕ

pub record PatStatus : Type 0 where
  pub state : PatState
  pub capability : Option Capability
  pub expires_at : Option DateTime
  pub last_used_at : Option DateTime

abbrev pub capability_text : Capability → Text
capability_text read = codes "read"
capability_text readwrite = codes "readwrite"

-- `_coerce_capability`
unfoldable pub coerce_capability : Option Text → Option Capability
unfolding text_eq
coerce_capability none = some readwrite
coerce_capability (some t) =
    if text_eq t (codes "read")
    then some read
    else if text_eq t (codes "readwrite")
    then some readwrite
    else none

-- `friend_login IN (…)`
abbrev pub belongs : Text → PatRow → Bool
belongs login r = contains r.friend_login (principal_match_values login)

abbrev pub live : Text → PatRow → Bool
live login r = belongs login r && not (is_some r.revoked_at)

abbrev pub revoke : ℕ → PatRow → PatRow
revoke now r = record r { revoked_at = some (utc now) }

abbrev pub new_row : Text → Text → Option Stamp → Capability → ℕ → PatStore → PatRow
new_row principal pat_hash expires_at capability now s = record {
  id = s.next_id;
  friend_login = principal;
  pat_hash = pat_hash;
  created_at = utc now;
  expires_at = expires_at;
  capability = some (capability_text capability);
  last_used_at = none;
  revoked_at = none;
}

abbrev pub pat_key : PatRow → Text
pat_key r = r.pat_hash

-- The two statements of `issue`; UNIQUE(pat_hash) may refuse the second, which undoes the first.
unfoldable pub supersede : Text → Text → Option Stamp → Capability → ℕ → PatStore → Result PatStore
supersede principal pat_hash expires_at capability now s =
    let pats = update_where (live principal) (revoke now) s.pats in
    elim (find pat_key pat_hash pats) [
      | some _ ↦ err integrity_error
      | none ↦ ok (record {
        pats = new_row principal pat_hash expires_at capability now s ∷ pats;
        next_id = s.next_id + 1;
      })
    ]

unfoldable pub issue : Text → Text → Option Stamp → Capability → ℕ → PatStore → Result PatStore
unfolding supersede
issue friend_login pat_hash expires_at capability now s = do
  principal ← normalize_principal friend_login
  supersede principal pat_hash expires_at capability now s

-- The checks of `verify` on the row that was fetched.
unfoldable pub judge_row : ℕ → PatRow → Option (Text × Capability)
unfolding coerce_capability
judge_row now r =
    if is_some r.revoked_at || expired r.expires_at now
    then none
    else elim (coerce_capability r.capability) [
      | none ↦ none
      | some capability ↦ elim (normalize_principal r.friend_login) [
        | err _ ↦ none
        | ok principal ↦ some (principal, capability)
      ]
    ]

abbrev pub touch : ℕ → PatRow → PatRow
touch now r = record r { last_used_at = some (utc now) }

abbrev pub judge_found : ℕ → Option PatRow → Option (Text × Capability)
judge_found now none = none
judge_found now (some r) = judge_row now r

unfoldable pub verify : Text → ℕ → PatStore → Option (Text × Capability) × PatStore
unfolding judge_row
verify pat_hash now s =
    let verdict = judge_found now (find pat_key pat_hash s.pats) in
    (
      verdict,
      if is_some verdict
          then record s { pats = update_where (at pat_key pat_hash) (touch now) s.pats }
          else s,
    )

-- `ORDER BY created_at DESC, id DESC LIMIT 1`
abbrev pub newer : PatRow → PatRow → Bool
newer a b =
    ltb (rank b.created_at) (rank a.created_at)
    || (rank a.created_at == rank b.created_at && ltb b.id a.id)

unfoldable pub newest : List PatRow → Option PatRow
unfolding rank
newest [] = none
newest (r ∷ t) = elim (newest t) [ none ↦ some r | some x ↦ if newer x r then some x else some r ]

unfoldable pub revoke_active : Text → ℕ → PatStore → Bool × PatStore
revoke_active friend_login now s = elim (newest (select_where (live friend_login) s.pats)) [
  | none ↦ (false, s)
  | some r ↦
      if expired r.expires_at now
      then (false, s)
      else (true, record s { pats = update_where (λ x. x.id == r.id) (revoke now) s.pats })
]

abbrev pub state_of : ℕ → PatRow → PatState
state_of now r =
    if is_some r.revoked_at
    then revoked
    else if not (is_some (coerce_capability r.capability)) || expired r.expires_at now
    then lapsed
    else active

unfoldable pub current_status : Text → ℕ → PatStore → PatStatus
unfolding coerce_capability
current_status friend_login now s = elim (newest (select_where (belongs friend_login) s.pats)) [
  | none ↦ record { state = absent; capability = none; expires_at = none; last_used_at = none }
  | some r ↦ record {
    state = state_of now r;
    capability = coerce_capability r.capability;
    expires_at = parse_dt r.expires_at;
    last_used_at = parse_dt r.last_used_at;
  }
]

-- `scopes_for_capability`
unfoldable pub scopes_for_capability : Capability → List Text
scopes_for_capability readwrite = codes "meme:read" ∷ codes "meme:write" ∷ []
scopes_for_capability read = codes "meme:read" ∷ []

abbrev pub day : ℕ
day = 86400000000

-- `now + timedelta(days=ttl_days) if ttl_days else None`
abbrev pub expiry : Option ℕ → ℕ → Option Stamp
expiry none now = none
expiry (some days) now = if days == 0 then none else some (utc (now + days * day))

-- `issue_pat` and `verify_pat` on the SQLite store; `hash` is the HMAC under the pepper, `plaintext`
-- the token that was drawn, and `now` and `then` are the two readings of the clock.
module _ (hash : Text → Text) where
  unfoldable pub issue_pat :
      Text → Option ℕ → Capability → Text → ℕ → ℕ → PatStore → Result (Text × PatStore)
  unfolding issue
  issue_pat friend_login ttl_days capability plaintext now later s = do
    s' ← issue friend_login (hash plaintext) (expiry ttl_days now) capability later s
    ok (plaintext, s')

  unfoldable pub verify_pat : Text → ℕ → PatStore → Option (Text × Capability) × PatStore
  unfolding verify
  verify_pat plaintext now s = verify (hash plaintext) now s
