-- ===== src/Resolve/Laws.antt =====
-- What a redirect may send a visitor to, and when it answers 302, 404 and 410.
use usp_cloud_native.Prelude.{
  Str, true, Option, none, some, Result, ok, err, Result-cases, Option-cases, Bool-cases, arith,
  ◌≡◌, ◌⊎◌, refl, inl, inr,
}
use usp_cloud_native.Errors.{AppErr}
use usp_cloud_native.Urls.Entity.{Url, can_redirect}
use usp_cloud_native.Urls.Repository.{get_by_short_code}
use usp_cloud_native.Urls.Repository.Reads.{get_by_short_code-eq-err}
use usp_cloud_native.Urls.Cache as Cache
use usp_cloud_native.Urls.Cache.{Redis, CacheErr}
use usp_cloud_native.Urls.Store.{Store}
use usp_cloud_native.Resolve.{
  CacheStatus, hit, miss, Resolved, Outside, resolved, judge, from_database, from_positive,
  past_cache, handle,
}

module _ (w : Outside) (code : Str) where
  judge-eq-ok :
      (status : CacheStatus) (u : Url) (r : Resolved)
      → judge w code status u ≡ ok r
      → (can_redirect u w.checked_at ≡ true) × (r ≡ resolved w code status u)
  unfolding judge
  judge-eq-ok status u r h = elim (Bool-cases (can_redirect u w.checked_at)) [
    | inl e ↦ (e, ground arith)
    | inr e ↦ absurd (ground arith)
  ]

  -- The URL behind an answer, and where it was read: in the cache, or in the replica.
  pub record IsServed (s : Store) (r : Resolved) : Type 0 where
    pub url : Url
    pub redirects : can_redirect url w.checked_at ≡ true
    pub answer : r ≡ resolved w code r.cache_status url
    pub source :
        ((r.cache_status ≡ hit)
          × (c : Redis) × (s.cache ≡ some c)
          × ((Cache.get w.get_lost w.del_lost c code w.read_at).0 ≡ ok (some url)))
        ⊎ ((r.cache_status ≡ miss) × (get_by_short_code w.query_fault s.replica code ≡ ok url))

  from_database-IsServed :
      (s : Store) (c : Option Redis) (r : Resolved)
      → (from_database w code s c).result ≡ ok r
      → IsServed s r
  unfolding from_database
  from_database-IsServed s c r h =
      elim (Result-cases (get_by_short_code w.query_fault s.replica code)) [
        | inl (u, e) ↦
            let (can, same) = judge-eq-ok miss u r (ground arith) in
            record {
              url = u;
              redirects = can;
              answer = ground arith;
              source = inr (ground arith, e);
            }
        | inr (x, e) ↦ absurd (ground arith)
      ]

  -- A lookup that passes the positive entry ends at a negative entry or in the database.
  pub past_cache-cases :
      (s : Store) (c : Redis)
      → (past_cache w code s c ≡ from_database w code s (some c))
        ⊎ ((past_cache w code s c).result ≡ err AppErr.not_found)
          × (Cache.is_not_found w.exists_lost c code w.read_at ≡ ok true)
  past_cache-cases s c = elim (Result-cases (Cache.is_not_found w.exists_lost c code w.read_at)) [
    | inl (b, e) ↦ elim (Bool-cases b) [
      | inl yes_negative ↦ inr (ground arith, ground arith)
      | inr not_negative ↦ inl (ground arith)
    ]
    | inr (x, e) ↦ inl (ground arith)
  ]

  past_cache-IsServed :
      (s : Store) (c : Redis) (r : Resolved) → (past_cache w code s c).result ≡ ok r → IsServed s r
  past_cache-IsServed s c r h = elim (past_cache-cases s c) [
    | inl e ↦ from_database-IsServed s (some c) r (rw e at h)
    | inr (e, _) ↦ absurd (ground arith)
  ]

  from_positive-eq-ok :
      (s : Store) (p : Result CacheErr (Option Url) × Redis) (r : Resolved)
      → (from_positive w code s p).result ≡ ok r
      → ((u : Url) × (p.0 ≡ ok (some u)) × (judge w code hit u ≡ ok r))
        ⊎ (past_cache w code s p.1).result ≡ ok r
  from_positive-eq-ok s (ok (some u), c) r h = inl (u, refl, h)
  from_positive-eq-ok s (ok none, c) r h = inr h
  from_positive-eq-ok s (err e, c) r h = inr h

  -- A redirect that is answered goes to a URL that was found under the short code, in the cache or
  -- in the replica, and that was active and not expired when it was checked.
  pub handle-IsServed : (s : Store) (r : Resolved) → (handle w code s).result ≡ ok r → IsServed s r
  unfolding handle
  handle-IsServed s r h = elim (Option-cases s.cache) [
    | inl e ↦ from_database-IsServed s none r (ground arith)
    | inr (c, e) ↦
        elim (from_positive-eq-ok s (Cache.get w.get_lost w.del_lost c code w.read_at) r
          (ground arith)) [
            | inl (u, got, judged) ↦
                let (can, same) = judge-eq-ok hit u r judged in
                record {
                  url = u;
                  redirects = can;
                  answer = ground arith;
                  source = inl (ground arith, c, e, got);
                }
            | inr later ↦ past_cache-IsServed s _ r later
          ]
  ]

  abbrev pub IsRow : Store → Url → Type 0
  IsRow s u = get_by_short_code none s.replica code ≡ ok u

  pub uncached :
      (s : Store)
      → s.cache ≡ none
      → w.query_fault ≡ none
      → ((u : Url) × IsRow s u × ((handle w code s).result ≡ judge w code miss u))
        ⊎ (((u : Url) → ¬ IsRow s u) × ((handle w code s).result ≡ err AppErr.not_found))
  unfolding handle from_database
  uncached s no_cache no_fault = elim (Result-cases (get_by_short_code none s.replica code)) [
    | inl (u, e) ↦ inl (u, e, ground arith)
    | inr (x, e) ↦
        inr ((λ u h. ground arith), ground (arith, get_by_short_code-eq-err s.replica code x e))
  ]
