-- ===== src/RateLimit/Middleware.antt =====
-- internal/interfaces/http/middleware/ratelimit.go. The claims are those that an authentication
-- middleware may have left; of the answer the status and the result of the check are kept.
pub mod Laws
use usp_cloud_native.Prelude.{
  ℕ, Str, str_eq, str_eq_iff, is_empty, Bool, true, false, not, if◌then◌else◌, Option, none, some,
  List, [], ◌∷◌, arith, ◌≡◌, ◌≢◌, refl,
}
use usp_cloud_native.Access.Claims.{Claims}
use usp_cloud_native.RateLimit.Policy.{
  Policy, tier_unauthenticated, tier_free, get_policy, identity_key,
}
use usp_cloud_native.RateLimit.Bucket.{Bucket, CheckResult, Buckets, bucket_at, check}

pub record Config : Type 0 where
  pub service_name : Str
  pub endpoint_class : Str
  pub fail_open : Bool

pub record Request : Type 0 where
  pub claims : Option Claims
  pub remote_addr : Str

-- The identity and the tier.
unfoldable pub resolve_identity : Request → Str × Str
resolve_identity r = elim r.claims [
  | none ↦ (r.remote_addr, tier_unauthenticated)
  | some c ↦ (if is_empty c.token_id then c.user_id else c.token_id, tier_free)
]

-- The next handler runs, with the headers of a result if there is one; or 429; or 503.
pub data Reply : Type 0 where
  served : Option CheckResult → Reply
  too_many : CheckResult → Reply
  unavailable : Reply

abbrev reply : Bool → Option CheckResult → Reply
reply fail_open none = if fail_open then served none else unavailable
reply fail_open (some result) = if result.allowed then served (some result) else too_many result

unfoldable pub request_key : Config → Request → Str
unfolding resolve_identity identity_key
request_key config r =
    let (identity, tier) = resolve_identity r in
    identity_key config.service_name tier config.endpoint_class identity

unfoldable pub rate_limit : Config → Bool → Buckets → Request → (now clock : ℕ) → Reply × Buckets
unfolding request_key get_policy check
rate_limit config lost s r now clock =
    let (identity, tier) = resolve_identity r in
    let policy = get_policy tier config.endpoint_class in
    let (result, s') = check lost s (request_key config r) policy now clock in
    (reply config.fail_open result, s')
