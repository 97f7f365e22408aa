-- ===== src/Resolve/Paths.antt =====
-- The ways through the lookup, for a cache whose state on the code is known.
use usp_cloud_native.Prelude.{
  ◌≤◌, [], ◌∷◌, Str, true, false, Option, none, some, Result, ok, err, arith, ◌≡◌, ap, refl, inl,
  inr,
}
use usp_cloud_native.Urls.Entity.{Url, is_expired, can_redirect}
use usp_cloud_native.Urls.Cache as Cache
use usp_cloud_native.Urls.Cache.{Redis, CacheErr}
use usp_cloud_native.Urls.Store.{Store, invalidate}
use usp_cloud_native.Errors.{AppErr, url_expired, UrlErr}
use usp_cloud_native.Urls.Repository.{get_by_short_code}
use usp_cloud_native.Urls.Repository.Reads.{get_by_short_code-eq-err}
use usp_cloud_native.Urls.Cache.Laws.{
  get-of-lost, get-keeps, is_not_found-of-lost, get-missed, delete_clears,
}
use usp_cloud_native.Resolve.{
  CacheStatus, hit, miss, Outside, set_not_found, resolved, judge, from_database, from_positive,
  past_cache, handle,
}
use usp_cloud_native.Resolve.Laws.{past_cache-cases}
use usp_cloud_native.Resolve.Coherence.{target-from_database}

module _ (w : Outside) (code : Str) where
  from_positive-found :
      (s : Store) (p : Result CacheErr (Option Url) × Redis) (u : Url)
      → p.0 ≡ ok (some u)
      → (from_positive w code s p).result ≡ judge w code hit u
  from_positive-found s (ok (some v), c) u h = ground arith
  from_positive-found s (ok none, c) u h = absurd (ground arith)
  from_positive-found s (err e, c) u h = absurd (ground arith)

  -- A cached URL that redirects is served.
  pub handle-hit :
      (s : Store) (c : Redis) (u : Url)
      → s.cache ≡ some c
      → (Cache.get w.get_lost w.del_lost c code w.read_at).0 ≡ ok (some u)
      → can_redirect u w.checked_at ≡ true
      → (handle w code s).result ≡ ok (resolved w code hit u)
  unfolding handle judge
  handle-hit s c u cached there can =
      rw (cached, from_positive-found s (Cache.get w.get_lost w.del_lost c code w.read_at) u there)
        (ground arith)

  from_positive-missed :
      (s : Store) (p : Result CacheErr (Option Url) × Redis)
      → ((u : Url) → p.0 ≡ ok (some u) → ⊥)
      → (from_positive w code s p).result ≡ (past_cache w code s p.1).result
  from_positive-missed s (ok (some v), c) h = absurd (h v refl)
  from_positive-missed s (ok none, c) h = refl
  from_positive-missed s (err e, c) h = refl

  from_positive-none :
      (s : Store) (p : Result CacheErr (Option Url) × Redis)
      → p.0 ≡ ok none
      → from_positive w code s p ≡ past_cache w code s p.1
  from_positive-none s (ok (some v), c) h = absurd (ground arith)
  from_positive-none s (ok none, c) h = refl
  from_positive-none s (err e, c) h = absurd (ground arith)

  -- A code with no entry is answered as without a cache.
  pub handle-miss :
      (s : Store) (c : Redis)
      → s.cache ≡ some c
      → ((u : Url) → (Cache.get w.get_lost w.del_lost c code w.read_at).0 ≡ ok (some u) → ⊥)
      → (Cache.is_not_found w.exists_lost
              (Cache.get w.get_lost w.del_lost c code w.read_at).1
              code
              w.read_at
            ≡ ok true
          → ⊥)
      → (handle w code s).result ≡ (handle w code (record s { cache = none })).result
  unfolding handle
  handle-miss s c cached no_positive no_negative =
      let p = Cache.get w.get_lost w.del_lost c code w.read_at in
      rw (cached, from_positive-missed s p no_positive)
        (elim (past_cache-cases w code s p.1) [
          | inl e ↦ rw e (target-from_database w code s p.1)
          | inr (e, negative) ↦ absurd (no_negative negative)
        ])

  -- A negative entry answers for the code.
  pub handle-negative :
      (s : Store) (c : Redis)
      → s.cache ≡ some c
      → ((u : Url) → (Cache.get w.get_lost w.del_lost c code w.read_at).0 ≡ ok (some u) → ⊥)
      → Cache.is_not_found w.exists_lost
          (Cache.get w.get_lost w.del_lost c code w.read_at).1
          code
          w.read_at
        ≡ ok true
      → (handle w code s).result ≡ err AppErr.not_found
  unfolding handle from_database
  handle-negative s c cached no_positive negative =
      let p = Cache.get w.get_lost w.del_lost c code w.read_at in
      rw (cached, from_positive-missed s p no_positive) (rw negative)

  -- Without a cache a row is answered by its state, and a missing one is not found.
  pub handle-row :
      (s : Store) (u : Url)
      → s.cache ≡ none
      → w.query_fault ≡ none
      → get_by_short_code none s.replica code ≡ ok u
      → (handle w code s).result ≡ judge w code miss u
  unfolding handle from_database
  handle-row s u no_cache no_fault row = ground arith

  pub handle-no_row :
      (s : Store) (e : UrlErr)
      → s.cache ≡ none
      → w.query_fault ≡ none
      → get_by_short_code none s.replica code ≡ err e
      → (handle w code s).result ≡ err AppErr.not_found
  unfolding handle from_database
  handle-no_row s e no_cache no_fault row =
      ground (arith, get_by_short_code-eq-err s.replica code e row)

  pub judge-usable :
      (status : CacheStatus) (u : Url)
      → can_redirect u w.checked_at ≡ true
      → judge w code status u ≡ ok (resolved w code status u)
  unfolding judge
  judge-usable status u can = ground arith

  -- After an invalidation that arrived, the code is answered as without a cache.
  pub handle-invalidated :
      (s : Store) (c : Option Redis)
      → s.cache ≡ invalidate false c code
      → (handle w code s).result ≡ (handle w code (record s { cache = none })).result
  handle-invalidated s none h = ap (λ x. (handle w code (record s { cache = x })).result) h
  handle-invalidated s (some c) h =
      let (no_positive, no_negative) = delete_clears w.del_lost c code w.read_at in
      let r = (Cache.delete false c code).1 in
      let clear = (delete_clears false c code w.read_at).0 in
      handle-miss s r h
        (λ u e. absurd (ground (arith, get-of-lost w.get_lost w.del_lost r code w.read_at u e)))
        (λ e. absurd (
          ground (
            arith,
            get-keeps w.get_lost w.del_lost r code code w.read_at w.read_at
                (is_not_found-of-lost w.exists_lost _ code w.read_at e),
          )))

  -- An expired row behind a cache with no entry for its code: 410, and a goroutine that will store
  -- a negative entry.
  pub handle-expired :
      (s : Store) (c : Redis) (u : Url)
      → s.cache ≡ some c
      → (Cache.get w.get_lost w.del_lost c code w.read_at).0 ≡ ok none
      → Cache.is_not_found w.exists_lost c code w.read_at ≡ ok false
      → w.query_fault ≡ none
      → get_by_short_code none s.replica code ≡ ok u
      → is_expired u w.checked_at ≡ true
      → w.checked_at ≤ w.classified_at
      → handle w code s
        ≡ record { result = err url_expired; cache = some c; tasks = set_not_found code ∷ [] }
  unfolding handle from_database judge
  handle-expired s c u cached none_positive none_negative no_fault row past clock =
      let p = Cache.get w.get_lost w.del_lost c code w.read_at in
      let same : p.1 ≡ c = get-missed w.get_lost w.del_lost c code w.read_at none_positive in
      ground (arith, from_positive-none s p none_positive, same)
