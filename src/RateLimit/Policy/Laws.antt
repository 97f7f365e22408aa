-- ===== src/RateLimit/Policy/Laws.antt =====
-- What every policy guarantees, and which requests share a bucket.
use usp_cloud_native.Prelude.{
  ◌*◌, ◌≤◌, ◌<◌, Str, codes, [], ◌∷◌, ◌++◌, arith, ◌≡◌, ◌≢◌, refl, append_cancel,
}
use usp_cloud_native.RateLimit.Policy.{
  Policy, bucket_capacity, get_policy, identity_key, safe_identity,
}

-- A policy that the limiter can run: some requests are allowed, over a minute, and the capacity is
-- the limit once to three times.
pub record IsUsable (p : Policy) : Type 0 where
  pub positive : 0 < p.limit
  pub window : p.window ≡ 60000
  pub at_least : p.limit ≤ bucket_capacity p
  pub at_most : bucket_capacity p ≤ p.limit * 3

-- Whatever the tier and the class, known or not, the policy is usable.
pub get_policy-IsUsable : (tier class : Str) → IsUsable (get_policy tier class)
unfolding get_policy bucket_capacity
get_policy-IsUsable tier class = record {
  positive = ground arith;
  window = ground arith;
  at_least = ground arith;
  at_most = ground arith;
}

abbrev pub HasNoColon : Str → Type 0
HasNoColon [] = Unit
HasNoColon (c ∷ s) = (c ≢ b':') × HasNoColon s

-- A text before the first colon is determined.
split_at_colon :
    (s t x y : Str)
    → HasNoColon s
    → HasNoColon t
    → s ++ b':' ∷ x ≡ t ++ b':' ∷ y
    → (s ≡ t) × (x ≡ y)
split_at_colon [] [] x y h k e = (refl, ground arith)
split_at_colon [] (c ∷ t) x y h k e = absurd (k.0 (ground arith))
split_at_colon (c ∷ s) [] x y h k e = absurd (h.0 (ground arith))
split_at_colon (c ∷ s) (d ∷ t) x y h k e =
    let (same, rest) = split_at_colon s t x y h.1 k.1 (ground arith) in (ground arith, rest)

-- Within a service, and for tiers and classes without a colon, two requests share a bucket only if
-- their tiers, their classes and their identities, up to colons, are the same: an identity cannot
-- name the bucket of another tier or class.
pub identity_key-injective :
    (service tier tier' class class' identity identity' : Str)
    → HasNoColon tier
    → HasNoColon tier'
    → HasNoColon class
    → HasNoColon class'
    → identity_key service tier class identity ≡ identity_key service tier' class' identity'
    → (tier ≡ tier') × (class ≡ class') × (safe_identity identity ≡ safe_identity identity')
unfolding identity_key
identity_key-injective service tier tier' class class' identity identity' t t' c c' e =
    let after_service =
      append_cancel (codes ":") _ _
        (append_cancel service _ _ (append_cancel (codes "rl:") _ _ e)) in
    let (same_tier, rest) = split_at_colon tier tier' _ _ t t' after_service in
    let (same_class, rest') = split_at_colon class class' _ _ c c' rest in
    (same_tier, same_class, rest')
