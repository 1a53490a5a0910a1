-- ===== src/Base/Stamps.antt =====
-- A time in a text column. The program writes `datetime.now(UTC).isoformat()`, a text that sorts as
-- its instant does; a column may also hold a text that has no time zone, or is no time at all.
use Prim.Native.Nat.{ℕ, ◌≤◌}
use mathlib.Core.Path.{◌≡◌}
use mathlib.Core.Bool.{Bool, true, false}
use mathlib.Core.Option.{Option, none, some}
use native.Mathlib.Omega.{arith}
use meme_mcp.Base.Tests.{leb}

-- Instants are microseconds. `naive r` and `malformed r` carry the place `r` of their text in the
-- order of texts, which is what SQL compares.
pub data Stamp : Type 0 where
  utc : ℕ → Stamp
  naive : ℕ → Stamp
  malformed : ℕ → Stamp

-- The place in SQLite's order of texts.
unfoldable pub rank : Stamp → ℕ
rank (utc t) = t
rank (naive r) = r
rank (malformed r) = r

-- A parsed `datetime`: with a time zone or without.
pub data DateTime : Type 0 where
  aware : ℕ → DateTime
  unaware : ℕ → DateTime

-- `datetime.fromisoformat`, with `None` for its `ValueError`.
unfoldable pub from_isoformat : Stamp → Option DateTime
from_isoformat (utc t) = some (aware t)
from_isoformat (naive r) = some (unaware r)
from_isoformat (malformed r) = none

-- `_parse_dt` of oauth/store.py and `_parse_optional_iso` of auth/pat.py.
unfoldable pub parse_dt : Option Stamp → Option DateTime
unfolding from_isoformat
parse_dt none = none
parse_dt (some s) = from_isoformat s

-- `parsed is None or parsed.tzinfo is None or parsed <= now`
unfoldable pub past : Option DateTime → ℕ → Bool
past none now = true
past (some (unaware t)) now = true
past (some (aware t)) now = leb t now

-- `_expired` of oauth/store.py and `_is_expired` of auth/pat.py: NULL never expires, and what does
-- not parse or has no time zone has expired.
unfoldable pub expired : Option Stamp → ℕ → Bool
unfolding parse_dt past from_isoformat
expired none now = false
expired (some s) now = past (parse_dt (some s)) now

-- Expiry is final.
pub expired_mono : (s : Option Stamp) (a b : ℕ) → a ≤ b → expired s a ≡ true → expired s b ≡ true
unfolding expired
expired_mono none a b h e = e
expired_mono (some (utc t)) a b h e = ground arith
expired_mono (some (naive r)) a b h e = e
expired_mono (some (malformed r)) a b h e = e
