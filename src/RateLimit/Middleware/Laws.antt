-- ===== src/RateLimit/Middleware/Laws.antt =====
-- What the rate limiter leaves alone, and what it answers.
use usp_cloud_native.Prelude.{ℕ, Str, str_eq_iff, Bool, arith, ◌≡◌, ◌≢◌}
use usp_cloud_native.RateLimit.Bucket.{Buckets, bucket_at, check}
use usp_cloud_native.RateLimit.Middleware.{Config, Request, request_key, rate_limit}

-- A request leaves the bucket behind every other key as it was.
pub rate_limit-other :
    (config : Config) (lost : Bool) (s : Buckets) (r : Request) (now clock : ℕ) (key : Str)
    → request_key config r ≢ key
    → bucket_at key (rate_limit config lost s r now clock).1 ≡ bucket_at key s
unfolding rate_limit check
rate_limit-other config lost s r now clock key h =
    ground (arith, str_eq_iff (request_key config r) key)
