-- ===== src/RateLimit/Tests.antt =====
-- The rate limiter at concrete inputs.
use usp_cloud_native.Prelude.{
  ◌+◌, ◌*◌, ◌≤◌, codes, str_eq, true, none, some, [], ◌∷◌, arith, ◌≡◌, ◌≢◌, refl,
}
use usp_cloud_native.RateLimit.Policy.{
  Policy, get_policy, bucket_capacity, per_minute, tier_enterprise, class_write, class_redirect,
}
use usp_cloud_native.RateLimit.Bucket.{Bucket, capacity, take_token}
use usp_cloud_native.RateLimit.Bucket.Laws.{admit, admit_bound}
use usp_cloud_native.RateLimit.Middleware.{Config, Request, request_key}

-- Ten requests in a minute, with a bucket of ten.
abbrev ten : Policy
ten = per_minute 10 1

-- One token is left.
abbrev last_token : Bucket
last_token = record { tokens = 60000; last_refill = 0; expires = 120000 }

-- The second request comes too early for a new token, the third does not.
admitted_two : (admit ten last_token (0 ∷ 1000 ∷ 5000 ∷ [])).0 ≡ 2
unfolding admit take_token capacity bucket_capacity
admitted_two = refl

capacity-ten : capacity ten ≡ 600000
unfolding capacity bucket_capacity
capacity-ten = refl

admit_bound_example :
    (admit ten last_token (0 ∷ 1000 ∷ 5000 ∷ [])).0 * 60000 ≤ capacity ten + 6000 * 10
admit_bound_example =
    admit_bound ten last_token (0 ∷ 1000 ∷ 5000 ∷ []) (rw capacity-ten (omega arith)) (omega arith)
      (rw capacity-ten (omega arith))

reset_in_time : (take_token ten (some last_token) 0).0.reset ≤ 60000
unfolding take_token capacity bucket_capacity
reset_in_time = omega arith

abbrev enterprise_redirect : Policy
enterprise_redirect = per_minute 100000 3

-- It is the policy of that tier and class.
enterprise_redirect_used : get_policy tier_enterprise class_redirect ≡ enterprise_redirect
unfolding get_policy str_eq
enterprise_redirect_used = refl

capacity_enterprise : capacity enterprise_redirect ≡ 18000000000
unfolding capacity bucket_capacity
capacity_enterprise = refl

abbrev api : Config
api = record { service_name = codes "api"; endpoint_class = class_write; fail_open = true }

abbrev visitor : Request
visitor = record { claims = none; remote_addr = codes "203.0.113.7" }

differs : request_key api visitor ≢ codes "k"
unfolding request_key
differs e = ground arith
