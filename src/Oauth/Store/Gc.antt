-- ===== src/Oauth/Store/Gc.antt =====
-- oauth/store.py, "garbage collection".
pub mod Invisible
use meme_mcp.Base.{
  ℕ, ◌+◌, ◌-◌, ◌*◌, leb, Bool, false, ◌&&◌, ◌||◌, not, Option, none, some, Stamp, utc, rank,
  is_some,
}
use meme_mcp.Base.Table.{delete_where, count_where}
use meme_mcp.Oauth.Schema.{AccessRow, RefreshRow, ClientRow, OauthStore, seconds}

-- `column <= ?` in SQL, false on NULL.
abbrev pub sql_le : Option Stamp → ℕ → Bool
sql_le none now = false
sql_le (some s) now = leb (rank s) now

-- `revoked_at IS NOT NULL OR (expires_at IS NOT NULL AND expires_at <= ?)`
abbrev pub stale_access : ℕ → AccessRow → Bool
stale_access now r = is_some r.revoked_at || sql_le (some r.expires_at) now

abbrev pub stale_refresh : ℕ → RefreshRow → Bool
stale_refresh now r = is_some r.revoked_at || sql_le r.expires_at now

unfoldable pub gc_expired_tokens : ℕ → OauthStore → ℕ × OauthStore
unfolding rank
gc_expired_tokens now s = (
  count_where (stale_access now) s.access_tokens + count_where (stale_refresh now) s.refresh_tokens,
  record s {
    access_tokens = delete_where (stale_access now) s.access_tokens;
    refresh_tokens = delete_where (stale_refresh now) s.refresh_tokens;
  },
)

abbrev pub days : ℕ → ℕ
days n = seconds (n * 86400)

-- `(last_used_at IS NULL AND registered_at <= ?) OR last_used_at <= ?`
abbrev pub unused : ℕ → ClientRow → Bool
unused cutoff r =
    (not (is_some r.last_used_at) && leb (rank r.registered_at) cutoff)
    || sql_le r.last_used_at cutoff

unfoldable pub gc_unused_clients : ℕ → ℕ → OauthStore → ℕ × OauthStore
unfolding rank
gc_unused_clients ttl_days now s =
    let cutoff = now - days ttl_days in
    (
      count_where (unused cutoff) s.clients,
      record s { clients = delete_where (unused cutoff) s.clients },
    )
