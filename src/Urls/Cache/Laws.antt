-- ===== src/Urls/Cache/Laws.antt =====
-- What the cache answers after each operation that arrives.
use usp_cloud_native.Prelude.{
  ℕ, Str, codes, str_eq, str_eq_iff, str_eq_refl, Bool, true, false, if◌then◌else◌, none, some,
  ◌++◌, arith, ◌≡◌, refl, ap, ok, err,
}
use usp_cloud_native.Urls.Entity.{Url}
use usp_cloud_native.Urls.Cache.{
  json, text, Redis, expiry, is_visible, redis_del, redis_set, positive_key, negative_key,
  to_cache_entry, to_domain_url, get, set, set_not_found, is_not_found, delete, decode,
}
use usp_cloud_native.Urls.Cache.Keys.{
  redis_get-del, redis_get-set, positive_key-injective, negative_key-injective, HasNoColon,
  positive_key-negative_key, positive-ne-negative,
}

-- The entity that comes back from the cache: the document has no `deleted_at`.
abbrev pub cached : Url → Url
cached u = record u { deleted_at = none }

positive_key-eq : (a b : Str) → str_eq (positive_key a) (positive_key b) ≡ str_eq a b
positive_key-eq a b = ground (
  arith,
  str_eq_iff (positive_key a) (positive_key b),
  str_eq_iff a b,
  positive_key-injective a b,
  ap positive_key,
)

negative_key-eq : (a b : Str) → str_eq (negative_key a) (negative_key b) ≡ str_eq a b
negative_key-eq a b = ground (
  arith,
  str_eq_iff (negative_key a) (negative_key b),
  str_eq_iff a b,
  negative_key-injective a b,
  ap negative_key,
)

-- Round trip: a URL whose set arrived is read back under its short code, without its deletion
-- time, as long as the entry lives; under any other short code the cache answers what it answered
-- before.
pub get-set :
    (del_lost : Bool) (s : Redis) (u : Url) (ttl_seconds now later : ℕ) (code : Str)
    → let s' = (set false s u ttl_seconds now).1 in
      (get false del_lost s' code later).0 ≡ (
        if str_eq u.short_code code
        then ok (if is_visible (expiry ttl_seconds now) later then some (cached u) else none)
        else (get false del_lost s code later).0)
unfolding get set to_cache_entry to_domain_url
get-set del_lost s u ttl_seconds now later code = ground (
  arith,
  redis_get-set s (positive_key u.short_code) (positive_key code) (json (to_cache_entry u now))
      (expiry ttl_seconds now) later,
  positive_key-eq u.short_code code,
)

-- After a delete that arrives neither entry of the short code is there.
pub delete_clears :
    (del_lost : Bool) (s : Redis) (code : Str) (now : ℕ)
    → let s' = (delete false s code).1 in
      ((get false del_lost s' code now).0 ≡ ok none) × (is_not_found false s' code now ≡ ok false)
unfolding delete get is_not_found
delete_clears del_lost s code now =
    let s₁ = redis_del s (positive_key code) in
    let laws₁ = redis_get-del s₁ (negative_key code) (positive_key code) now in
    let laws₂ = redis_get-del s (positive_key code) (positive_key code) now in
    let laws₃ = redis_get-del s₁ (negative_key code) (negative_key code) now in
    ground
      (arith, laws₁, laws₂, laws₃, str_eq_refl (positive_key code), str_eq_refl (negative_key code))

-- A negative entry is read back under its code, and hides no URL that is cached under a code with
-- no colon.
pub set_not_found_lem :
    (del_lost : Bool) (s : Redis) (code other : Str) (ttl_seconds now later : ℕ)
    → HasNoColon other
    → let s' = (set_not_found false s code ttl_seconds now).1 in
      (is_not_found false s' other later ≡ (
        if str_eq code other
        then ok (is_visible (expiry ttl_seconds now) later)
        else is_not_found false s other later))
      × ((get false del_lost s' other later).0 ≡ (get false del_lost s other later).0)
unfolding set_not_found is_not_found get
set_not_found_lem del_lost s code other ttl_seconds now later h =
    let key = negative_key code in
    let expires = expiry ttl_seconds now in
    let at_negative = redis_get-set s key (negative_key other) (text (codes "1")) expires later in
    let at_positive = redis_get-set s key (positive_key other) (text (codes "1")) expires later in
    (
      ground (arith, at_negative, negative_key-eq code other),
      ground (
        arith,
        at_positive,
        positive-ne-negative other code h,
        str_eq_iff (positive_key other) key,
        str_eq_iff key (positive_key other),
      ),
    )

-- The two key spaces meet: while a negative entry of a code lives, a lookup of "notfound:" and the
-- code reads that entry, fails to decode it, and deletes it.
pub get_drops_negative :
    (s : Redis) (code : Str) (ttl_seconds now later : ℕ)
    → is_visible (expiry ttl_seconds now) later ≡ true
    → let s' = (set_not_found false s code ttl_seconds now).1 in
      let (answer, s'') = get false false s' (codes "notfound:" ++ code) later in
      (is_not_found false s' code later ≡ ok true)
      × (answer ≡ err decode)
      × (is_not_found false s'' code later ≡ ok false)
unfolding set_not_found is_not_found get
get_drops_negative s code ttl_seconds now later h =
    let key = negative_key code in
    let s' = redis_set s key (text (codes "1")) (expiry ttl_seconds now) in
    let same : positive_key (codes "notfound:" ++ code) ≡ key =
      (positive_key-negative_key (codes "notfound:" ++ code) code).1 refl in
    let there = redis_get-set s key key (text (codes "1")) (expiry ttl_seconds now) later in
    let gone = redis_get-del s' key key later in
    (
      ground (arith, there, str_eq_refl key),
      ground (arith, there, str_eq_refl key, same),
      ground (arith, there, gone, str_eq_refl key, same),
    )

-- What a lookup finds does not depend on the commands that get lost.
pub get-of-lost :
    (lost del_lost : Bool) (s : Redis) (code : Str) (now : ℕ) (u : Url)
    → (get lost del_lost s code now).0 ≡ ok (some u)
    → (get false false s code now).0 ≡ ok (some u)
unfolding get
get-of-lost lost del_lost s code now u h = ground arith

pub is_not_found-of-lost :
    (lost : Bool) (s : Redis) (code : Str) (now : ℕ)
    → is_not_found lost s code now ≡ ok true
    → is_not_found false s code now ≡ ok true
unfolding is_not_found
is_not_found-of-lost lost s code now h = ground arith

-- A lookup adds no negative entry.
pub get-keeps :
    (lost del_lost : Bool) (s : Redis) (code other : Str) (now later : ℕ)
    → is_not_found false (get lost del_lost s code now).1 other later ≡ ok true
    → is_not_found false s other later ≡ ok true
unfolding get is_not_found
get-keeps lost del_lost s code other now later h =
    ground (arith, redis_get-del s (positive_key code) (negative_key other) later)

-- A lookup that finds nothing leaves the store as it was.
pub get-missed :
    (lost del_lost : Bool) (s : Redis) (code : Str) (now : ℕ)
    → (get lost del_lost s code now).0 ≡ ok none
    → (get lost del_lost s code now).1 ≡ s
unfolding get
get-missed lost del_lost s code now h = ground arith
