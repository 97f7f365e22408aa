-- ===== src/Urls/Cache/Keys.antt =====
-- The two key spaces of the cache, and the commands of the store on a key and on another.
use usp_cloud_native.Prelude.{
  ℕ, Str, codes, str_eq, str_eq_iff, false, if◌then◌else◌, Option, none, some, [], ◌∷◌, ◌++◌, arith,
  ◌≡◌, ◌↔◌, ◌≢◌, refl, ap, subst, append_cancel, Bool-cases, inl, inr,
}
use usp_cloud_native.Urls.Cache.{
  Value, Redis, is_visible, redis_get, redis_del, redis_set, positive_key, negative_key,
}

pub redis_get-del :
    (s : Redis) (key other : Str) (now : ℕ)
    → redis_get (redis_del s key) other now
      ≡ (if str_eq key other then none else redis_get s other now)
unfolding redis_get redis_del
redis_get-del [] key other now = ground arith
redis_get-del (b ∷ s) key other now = ground (
  arith,
  redis_get-del s key other now,
  str_eq_iff b.key key,
  str_eq_iff b.key other,
  str_eq_iff key other,
)

pub redis_get-set :
    (s : Redis) (key other : Str) (v : Value) (expires : Option ℕ) (now : ℕ)
    → redis_get (redis_set s key v expires) other now ≡ (
        if str_eq key other
        then (if is_visible expires now then some v else none)
        else redis_get s other now)
unfolding redis_set redis_get
redis_get-set s key other v expires now = ground (arith, redis_get-del s key other now)

pub positive_key-injective : (a b : Str) → positive_key a ≡ positive_key b → a ≡ b
unfolding positive_key
positive_key-injective a b h = append_cancel (codes "url:v1:") a b h

pub negative_key-injective : (a b : Str) → negative_key a ≡ negative_key b → a ≡ b
unfolding negative_key
negative_key-injective a b h = append_cancel (codes "url:v1:notfound:") a b h

-- The key of a code is the negative key of another exactly when the first code is "notfound:" and
-- the second.
pub positive_key-negative_key :
    (a b : Str) → (positive_key a ≡ negative_key b) ↔ (a ≡ codes "notfound:" ++ b)
unfolding positive_key negative_key
positive_key-negative_key a b = (
  λ h. append_cancel (codes "url:v1:") a (codes "notfound:" ++ b) h,
  λ h. ap (λ (s : Str). codes "url:v1:" ++ s) h,
)

-- A text with no colon, as every short code that can be created is.
abbrev pub HasNoColon : Str → Type 0
HasNoColon [] = Unit
HasNoColon (c ∷ s) = (c ≢ b':') × HasNoColon s

HasNoColon-ne : (a b : Str) → HasNoColon a → a ≢ codes "notfound:" ++ b
HasNoColon-ne a b h e = (subst HasNoColon e h).1.1.1.1.1.1.1.1.0 refl

pub positive-ne-negative :
    (a b : Str) → HasNoColon a → str_eq (positive_key a) (negative_key b) ≡ false
positive-ne-negative a b h = elim (Bool-cases (str_eq (positive_key a) (negative_key b))) [
  | inl e ↦ absurd (
      HasNoColon-ne a b h
        ((positive_key-negative_key a b).0 ((str_eq_iff (positive_key a) (negative_key b)).0 e)))
  | inr e ↦ e
]
