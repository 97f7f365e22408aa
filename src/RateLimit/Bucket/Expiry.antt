-- ===== src/RateLimit/Bucket/Expiry.antt =====
-- Keys expire after two windows: for which policies that changes the number of requests admitted.
use usp_cloud_native.Prelude.{
  ℕ, ◌+◌, ◌-◌, ◌*◌, ◌≤◌, ◌<◌, Str, str_eq_iff, none, some, List, ltb, arith, ◌≡◌, ◌≢◌, Bool-cases,
  inl, inr,
}
use usp_cloud_native.RateLimit.Policy.{Policy, bucket_capacity, get_policy, tier_enterprise}
use usp_cloud_native.RateLimit.Policy.Laws.{get_policy-IsUsable}
use usp_cloud_native.RateLimit.Bucket.{
  capacity, loaded, refilled, take_token, saved, ceil_div, ttl_ms,
}
use usp_cloud_native.RateLimit.Bucket.Laws.{
  take_token-saved, admit, sum, admit_bound, elapsed, mul_mono,
}

burst_at_most_two :
    (tier class : Str)
    → tier ≢ tier_enterprise
    → bucket_capacity (get_policy tier class) ≤ (get_policy tier class).limit * 2
unfolding get_policy bucket_capacity
burst_at_most_two tier class h = ground (arith, str_eq_iff tier_enterprise tier)

capacity_fits : (p : Policy) → bucket_capacity p ≤ p.limit * 2 → capacity p ≤ ttl_ms p * p.limit
unfolding capacity
capacity_fits p h = omega (arith, mul_mono (bucket_capacity p) (p.limit * 2) p.window h)

-- Every caller that is not of the enterprise tier, from the first request on and however the others
-- are spread, is admitted at most the capacity of its policy, and its limit for each minute.
pub get_policy-admit_bound :
    (tier class : Str) (now : ℕ) (gaps : List ℕ)
    → tier ≢ tier_enterprise
    → let p = get_policy tier class in
      (admit p (take_token p none now).1 gaps).0 * 60000
      ≤ bucket_capacity p * 60000 + sum gaps * p.limit
unfolding capacity get_policy
get_policy-admit_bound tier class now gaps h =
    let p = get_policy tier class in
    let (full, lasts, _) = take_token-saved p none now in
    let window = (get_policy-IsUsable tier class).window in
    let bound =
      admit_bound p (take_token p none now).1 gaps
        (capacity_fits p (burst_at_most_two tier class h)) lasts full in
    rw window at bound

-- Where a full bucket takes longer to refill than its key lives, the expiry fills it early: an empty
-- bucket that is left alone until then is full, although the limit has not given that much.
pub expiry_refills_early :
    (p : Policy) (now : ℕ)
    → ceil_div (ttl_ms p) 1000 * 1000 * p.limit < capacity p
    → let b = saved p 0 now in
      (refilled p (loaded p (some b) b.expires) b.expires ≡ capacity p)
      × ((b.expires - now) * p.limit < capacity p)
expiry_refills_early p now h =
    let b = saved p 0 now in
    elim (Bool-cases (ltb b.expires b.expires)) [
      | inl e ↦ absurd (ground arith)
      | inr e ↦ rw e (omega arith, rw (elapsed now (ceil_div (ttl_ms p) 1000 * 1000)) h)
    ]
