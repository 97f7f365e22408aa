-- ===== src/RateLimit/Policy.antt =====
-- internal/domain/ratelimit/policy.go. A window is a number of milliseconds.
pub mod Laws
use usp_cloud_native.Prelude.{
  ℕ, ◌*◌, Str, codes, str_eq, leb, ◌==◌, Bool, true, false, if◌then◌else◌, Option, none, some, List,
  [], ◌∷◌, ◌++◌, map, lookup,
}

abbrev pub tier_unauthenticated : Str
tier_unauthenticated = codes "unauthenticated"

abbrev pub tier_free : Str
tier_free = codes "free"

abbrev pub tier_pro : Str
tier_pro = codes "pro"

abbrev pub tier_enterprise : Str
tier_enterprise = codes "enterprise"

abbrev pub class_redirect : Str
class_redirect = codes "redirect"

abbrev pub class_read : Str
class_read = codes "read"

abbrev pub class_write : Str
class_write = codes "write"

pub record Policy : Type 0 where
  pub limit : ℕ
  pub window : ℕ
  pub burst_factor : ℕ

unfoldable pub bucket_capacity : Policy → ℕ
bucket_capacity p = if leb p.burst_factor 1 then p.limit else p.limit * p.burst_factor

-- A policy over sixty seconds.
abbrev pub per_minute : ℕ → ℕ → Policy
per_minute limit burst = record { limit = limit; window = 60000; burst_factor = burst }

-- The policies of a tier: for redirects, reads and writes.
abbrev tier_policies : Policy → Policy → Policy → List (Str × Policy)
tier_policies redirect read write =
    (class_redirect, redirect) ∷ (class_read, read) ∷ (class_write, write) ∷ []

abbrev pub default_policies : List (Str × List (Str × Policy))
default_policies =
    (tier_unauthenticated, tier_policies (per_minute 300 2) (per_minute 10 1) (per_minute 10 1))
    ∷ (tier_free, tier_policies (per_minute 1000 2) (per_minute 100 1) (per_minute 100 1))
    ∷ (tier_pro, tier_policies (per_minute 10000 2) (per_minute 1000 1) (per_minute 1000 1))
    ∷ (
      tier_enterprise,
      tier_policies (per_minute 100000 3) (per_minute 10000 2) (per_minute 10000 2),
    )
    ∷ []

-- The safe fallback, `defaultPolicies[TierUnauthenticated][ClassWrite]`.
abbrev pub fallback : Policy
fallback = per_minute 10 1

abbrev of_class : Str → Option (List (Str × Policy)) → Policy
of_class class none = fallback
of_class class (some policies) = elim (lookup class policies) [ none ↦ fallback | some p ↦ p ]

unfoldable pub get_policy : Str → Str → Policy
get_policy tier class = of_class class (lookup tier default_policies)

-- `strings.ReplaceAll(identity, ":", "_")`
abbrev pub safe_byte : ℕ → ℕ
safe_byte c = if c == b':' then b'_' else c

abbrev pub safe_identity : Str → Str
safe_identity identity = map safe_byte identity

unfoldable pub identity_key : (service tier class identity : Str) → Str
identity_key service tier class identity =
    codes "rl:"
    ++ (service
        ++ (codes ":" ++ (tier ++ (codes ":" ++ (class ++ (codes ":" ++ safe_identity identity))))))
