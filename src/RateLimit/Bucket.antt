-- ===== src/RateLimit/Bucket.antt =====
-- internal/infrastructure/redis/ratelimit.go: the Lua script and the call of it. The script counts
-- tokens in floating point; here a token is `window` units and the refill `limit` units for each
-- millisecond, so that all amounts are whole numbers and the arithmetic is exact.
pub mod Laws
pub mod Expiry
use usp_cloud_native.Prelude.{
  ℕ, zero, suc, ◌+◌, ◌-◌, ◌*◌, ◌/◌, min, Str, str_eq, leb, ltb, ◌==◌, Bool, true, false,
  if◌then◌else◌, Option, none, some, List, [], ◌∷◌,
}
use usp_cloud_native.RateLimit.Policy.{Policy, bucket_capacity}

-- The state behind a key: the units left, the time of the last refill, and when the key expires.
pub record Bucket : Type 0 where
  pub tokens : ℕ
  pub last_refill : ℕ
  pub expires : ℕ

-- What the script returns.
pub record Outcome : Type 0 where
  pub allowed : Bool
  pub remaining : ℕ
  pub reset : ℕ

-- `BucketCapacity()`, in units.
unfoldable pub capacity : Policy → ℕ
unfolding bucket_capacity
capacity p = bucket_capacity p * p.window

-- `Window.Milliseconds() * 2`
abbrev pub ttl_ms : Policy → ℕ
ttl_ms p = p.window * 2

-- `math.ceil(a / b)`
abbrev pub ceil_div : ℕ → ℕ → ℕ
ceil_div a b = (a + b - 1) / b

-- The tokens and the time of the last refill, with a full bucket where there is no state.
abbrev pub loaded : Policy → Option Bucket → ℕ → Bucket
loaded p none now = record { tokens = capacity p; last_refill = now; expires = now }
loaded p (some b) now =
    if ltb now b.expires
    then b
    else record { tokens = capacity p; last_refill = now; expires = now }

-- `now_ms - last_refill_ms`, at least 0, is the truncated subtraction.
abbrev pub refilled : Policy → Bucket → ℕ → ℕ
refilled p b now = min (capacity p) (b.tokens + (now - b.last_refill) * p.limit)

abbrev pub ms_to_full : Policy → ℕ → ℕ
ms_to_full p tokens = if ltb 0 p.limit then ceil_div (capacity p - tokens) p.limit else ttl_ms p

-- The state that is written, and the time of the reset that goes with it.
abbrev pub saved : Policy → ℕ → ℕ → Bucket
saved p tokens now = record {
  tokens = tokens;
  last_refill = now;
  expires = now + ceil_div (ttl_ms p) 1000 * 1000;
}

-- The script with a cost of one token.
unfoldable pub take_token : Policy → Option Bucket → ℕ → Outcome × Bucket
take_token p state now =
    let tokens = refilled p (loaded p state now) now in
    if leb p.window tokens
    then (
      record {
        allowed = true;
        remaining = (tokens - p.window) / p.window;
        reset = now + ms_to_full p (tokens - p.window);
      },
      saved p (tokens - p.window) now,
    )
    else (
      record { allowed = false; remaining = 0; reset = now + ms_to_full p tokens },
      saved p tokens now,
    )

-- What `Check` answers; `RetryAfter` counts from `clock`, a second reading of the clock.
pub record CheckResult : Type 0 where
  pub allowed : Bool
  pub remaining : ℕ
  pub limit : ℕ
  pub reset_at : ℕ
  pub retry_after : ℕ

abbrev checked : Policy → Outcome → ℕ → CheckResult
checked p o clock = record {
  allowed = o.allowed;
  remaining = o.remaining;
  limit = bucket_capacity p;
  reset_at = o.reset;
  retry_after = if o.allowed then 0 else o.reset - clock;
}

-- The buckets by key.
abbrev pub Buckets : Type 0
Buckets = List (Str × Bucket)

abbrev pub bucket_at : Str → Buckets → Option Bucket
bucket_at key [] = none
bucket_at key ((k, b) ∷ s) = if str_eq k key then some b else bucket_at key s

-- `none` is the error of a script that could not be run.
unfoldable pub check :
    Bool → Buckets → Str → Policy → (now clock : ℕ) → Option CheckResult × Buckets
unfolding take_token
check lost s key p now clock =
    let (o, b) = take_token p (bucket_at key s) now in
    if lost then (none, s) else (some (checked p o clock), (key, b) ∷ s)
