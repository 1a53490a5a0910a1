-- ===== src/Auth/Sessions.antt =====
-- auth/depends.py and auth/session.py: who a request of the HTTP front doors is from; and
-- `_resolve_google_principal` of app.py, the end of a sign-in with Google.
pub mod Authenticated
pub mod GoogleSignIn
use meme_mcp.Base.{
  ℕ, Bool, true, false, not, ◌&&◌, Option, none, some, List, [], ◌∷◌, codes, Text, text_eq,
  is_empty, is_some, strip, Result, ok, err, ◌>>=◌, unauthorized, forbidden,
  forbidden_not_allowlisted, if◌then◌else◌,
}
use meme_mcp.Base.Json.{Json, Dict, get}
use meme_mcp.Metadata.Locales.{as_text}
use meme_mcp.Web.SafeNext.{remove_prefix}
use meme_mcp.Web.Csrf.{filled}
use meme_mcp.Auth.Authorization.{PinLookup, named, google, normalize_principal, is_authorized}
use meme_mcp.Auth.Pat.{Capability, readwrite, PatStore, verify_pat}
use meme_mcp.Auth.Allowlist.{canonical_email}
use meme_mcp.Auth.GooglePins.{Pins, email_for_sub, create_pin}

pub record Friend : Type 0 where
  pub principal : Text
  pub capability : Capability

-- `DEFAULT_CAPABILITY`
abbrev pub default_capability : Capability
default_capability = readwrite

unfoldable pub require_operator : Friend → Text → Result Friend
unfolding normalize_principal text_eq
require_operator user operator_login = do
  operator ← normalize_principal operator_login
  if text_eq user.principal operator then ok user else err forbidden

abbrev pub can_write : Capability → Bool
can_write Capability.read = false
can_write Capability.readwrite = true

unfoldable pub require_write : Friend → Result Friend
require_write friend = if can_write friend.capability then ok friend else err unauthorized

-- What the two front doors read of the application.
pub record Doors : Type 0 where
  pub has_settings : Bool
  pub hash : Text → Text
  pub allowlist : Text → Bool
  pub web_allowlist : Text → Bool
  pub pins : PinLookup

module _ (d : Doors) where
  -- The end of `require_pat`, on what `verify_pat` gives.
  unfoldable pub judge_verified : Option (Text × Capability) → Result Friend
  unfolding is_authorized
  judge_verified none = err unauthorized
  judge_verified (some (principal, capability)) =
      if is_authorized principal d.allowlist d.pins
      then ok record { principal = principal; capability = capability }
      else err forbidden_not_allowlisted

  -- `require_pat`; the store notes when a token was last used.
  unfoldable pub require_pat : Option Text → ℕ → PatStore → Result Friend × PatStore
  unfolding remove_prefix strip verify_pat judge_verified
  require_pat none now store = (err unauthorized, store)
  require_pat (some authorization) now store =
      elim (remove_prefix (codes "Bearer ") authorization) [
        | none ↦ (err unauthorized, store)
        | some rest ↦
            let (verdict, store') = verify_pat d.hash (strip rest) now store in
            (judge_verified verdict, store')
      ]

  -- The end of `session_login`, on the text of the session.
  unfoldable pub judge_session : Text → Option Text
  unfolding normalize_principal is_authorized
  judge_session raw = elim (normalize_principal raw) [
    | err _ ↦ none
    | ok principal ↦ if is_authorized principal d.web_allowlist d.pins then some principal else none
  ]

  unfoldable pub session_login : Dict → Option Text
  unfolding get judge_session is_empty
  session_login session = elim (filled (as_text (get (codes "github_login") session))) [
    | none ↦ none
    | some raw ↦ judge_session raw
  ]

  unfoldable pub has_web_session : Dict → Bool
  unfolding session_login
  has_web_session session = is_some (session_login session)

  unfoldable pub friend_from_header : Option Text → ℕ → PatStore → Result Friend × PatStore
  unfolding require_pat
  friend_from_header authorization now store =
      if not d.has_settings then (err unauthorized, store) else require_pat authorization now store

  unfoldable pub friend_from_request_or_header :
      Dict → Option Text → ℕ → PatStore → Result Friend × PatStore
  unfolding friend_from_header session_login is_empty
  friend_from_request_or_header session authorization now store = elim (filled authorization) [
    | some header ↦ friend_from_header (some header) now store
    | none ↦ elim (session_login session) [
      | none ↦ (err unauthorized, store)
      | some login ↦ (ok record { principal = login; capability = default_capability }, store)
    ]
  ]

-- The live pin store, as the predicate reads it.
abbrev pub lookup : Pins → PinLookup
lookup pins = some (λ sub. email_for_sub sub pins)

unfoldable pub resolve_google_principal :
    (Text → Bool) → Text → Text → ℕ → Pins → Option Text × Pins
unfolding is_empty email_for_sub is_authorized canonical_email create_pin
resolve_google_principal web_allowlist sub email now pins =
    let principal = named google sub in
    if is_empty sub then (none, pins) else elim (email_for_sub sub pins) [
      | some _ ↦ (
        if is_authorized principal web_allowlist (lookup pins) then some principal else none,
        pins,
      )
      | none ↦
          let canonical = canonical_email email in
          if not (web_allowlist (named google canonical))
          then (none, pins)
          else let (created, pins') = create_pin sub canonical now pins in
            (if created then some principal else none, pins')
    ]
