-- ===== src/Limits.antt =====
-- limits.py: the two rate limiters. A key without an entry has count 0; times are ticks of the
-- monotonic clock; the state stands beside the result, since a hit over the limit counts too.
pub mod Bounds
use meme_mcp.Base.{
  ℕ, suc, ◌+◌, Bool, true, false, ◌&&◌, Option, none, some, List, [], ◌∷◌, ltb, leb, Text, text_eq,
  is_some, Result, ok, err, rate_limited, if◌then◌else◌,
}

-- `mapping[key] = value`
abbrev pub assign {ℓ} : {A : Type ℓ} → Text → A → (Text → A) → Text → A
assign key value mapping other = if text_eq key other then value else mapping other

pub record RateLimiter : Type 0 where
  pub limit : ℕ
  pub counts : Text → ℕ

abbrev pub with_limit : ℕ → RateLimiter
with_limit limit = record { limit = limit; counts = λ key. 0 }

-- The verdict of both limiters on a count.
abbrev pub verdict : ℕ → ℕ → Result (Unit {0})
verdict limit count = if ltb limit count then err rate_limited else ok tt

unfoldable pub hit : Text → RateLimiter → Result (Unit {0}) × RateLimiter
hit key r =
    let count = r.counts key + 1 in
    (verdict r.limit count, record r { counts = assign key count r.counts })

pub record WindowedRateLimiter : Type 0 where
  pub limit : ℕ
  pub window_seconds : ℕ
  pub windows : Text → Option (ℕ × ℕ)

-- The window of a key after a hit: its start and its count. `now - start` is at least the window.
unfoldable pub count_hit : ℕ → ℕ → Option (ℕ × ℕ) → ℕ × ℕ
count_hit window now none = (now, 1)
count_hit window now (some (start, count)) =
    if leb (start + window) now then (now, 1) else (start, count + 1)

unfoldable pub windowed_hit :
    Text → ℕ → WindowedRateLimiter → Result (Unit {0}) × WindowedRateLimiter
unfolding count_hit
windowed_hit key now w =
    let entry = count_hit w.window_seconds now (w.windows key) in
    (verdict w.limit entry.1, record w { windows = assign key (some entry) w.windows })

abbrev pub is_ok : Result (Unit {0}) → Bool
is_ok (ok u) = true
is_ok (err e) = false

-- How many hits of a key pass, of a sequence of hits by any keys.
unfoldable pub passed : Text → List Text → RateLimiter → ℕ
unfolding hit
passed key [] r = 0
passed key (k ∷ hits) r =
    let rest = passed key hits (hit k r).1 in
    if text_eq k key && is_ok (hit k r).0 then suc rest else rest

unfoldable pub windowed_passed : Text → List (Text × ℕ) → WindowedRateLimiter → ℕ
unfolding windowed_hit
windowed_passed key [] w = 0
windowed_passed key ((k, now) ∷ hits) w =
    let rest = windowed_passed key hits (windowed_hit k now w).1 in
    if text_eq k key && is_ok (windowed_hit k now w).0 then suc rest else rest
