-- ===== src/Examples/Doors.antt =====
-- The front doors and the return targets at concrete inputs.
use meme_mcp.Base.{
  ◌≡◌, refl, ◌⊎◌, inl, false, true, none, some, [], Bool, Text, codes, is_space, ok, text_eq,
  is_empty, lower, strip, lower_char, contains,
}
use meme_mcp.Base.Json.{Dict, no_entries, entry, string, get}
use meme_mcp.Auth.Authorization.{named, google, is_authorized}
use meme_mcp.Auth.Pat.{PatStore}
use meme_mcp.Auth.Sessions.{
  Friend, Doors, default_capability, friend_from_request_or_header, lookup,
  resolve_google_principal,
}
use meme_mcp.Auth.Sessions.Authenticated.{Entry, friend_from_request_or_header-Entry}
use meme_mcp.Auth.Sessions.GoogleSignIn.{resolve_google_principal-authorized}
use meme_mcp.Web.Csrf.{field, csrf_session_key, require_csrf}
use meme_mcp.Web.Csrf.Tokens.{require_csrf_sound}
use meme_mcp.Web.SafeNext.{
  allowed_next_paths, default_next, safe_next, has_control, is_server_relative,
}
use meme_mcp.Web.SafeNext.Local.{IsLocal, safe_next-IsLocal}
use meme_mcp.Base.Table.Keyed.{find}

-- The web allowlist has one mailbox; the tokens' has nobody.
abbrev doors : Doors
doors = record {
  has_settings = true;
  hash = λ t. t;
  allowlist = λ _. false;
  web_allowlist = text_eq (codes "ada");
  pins = none;
}

abbrev signed_in : Dict
signed_in = entry (codes "github_login") (string (codes "ada")) no_entries

abbrev no_tokens : PatStore
no_tokens = record { pats = []; next_id = 1 }

abbrev ada : Friend
ada = record { principal = codes "github:ada"; capability = default_capability }

lets_in : (friend_from_request_or_header doors signed_in none 5 no_tokens).0 ≡ ok ada
unfolding friend_from_request_or_header is_authorized is_space
lets_in = refl

friend_from_request_or_header-Entry_example : Entry doors signed_in none 5 no_tokens ada
friend_from_request_or_header-Entry_example =
    friend_from_request_or_header-Entry doors signed_in none 5 no_tokens ada lets_in

abbrev invites : Text → Bool
invites = text_eq (codes "google:ab@gmail.com")

resolves :
    (resolve_google_principal invites (codes "17") (codes "A.B@gmail.com") 5 []).0
    ≡ some (codes "google:17")
unfolding resolve_google_principal find lower strip is_space lower_char contains
resolves = refl

resolve_google_principal-authorized_example :
    (codes "google:17" ≡ named google (codes "17"))
    × (is_authorized
          (codes "google:17")
          invites
          (lookup (resolve_google_principal invites (codes "17") (codes "A.B@gmail.com") 5 []).1)
        ≡ true)
resolve_google_principal-authorized_example =
    resolve_google_principal-authorized invites (codes "17") (codes "A.B@gmail.com") 5 []
      (codes "google:17") resolves

default-IsLocal : IsLocal default_next
unfolding has_control is_server_relative
default-IsLocal = (refl, refl)

safe_next-IsLocal_example :
    IsLocal (safe_next (some (codes "//evil.example/upload")) allowed_next_paths default_next true)
safe_next-IsLocal_example =
    safe_next-IsLocal allowed_next_paths default_next true default-IsLocal
      (some (codes "//evil.example/upload"))

abbrev guarded : Dict
guarded = entry csrf_session_key (string (codes "t0ken")) no_entries

passes : require_csrf guarded (some (codes "t0ken")) ≡ ok tt
unfolding require_csrf
passes = refl

require_csrf_sound_example :
    (t : Text) × (get csrf_session_key guarded ≡ string t)
    × (is_empty t ≡ false)
    × ((some (codes "t0ken") ≡ some t) ⊎ (none ≡ some (field t)) ⊎ (none ≡ some (field t)))
require_csrf_sound_example =
    require_csrf_sound guarded (some (codes "t0ken")) (λ _. none) (inl passes)
