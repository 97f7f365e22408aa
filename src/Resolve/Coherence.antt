-- ===== src/Resolve/Coherence.antt =====
-- When the cache hides nothing of the database.
use usp_cloud_native.Prelude.{
  ℕ, ◌≤◌, Str, true, false, Option, none, some, Result, ok, err, arith, ◌≡◌, refl, inl, inr,
}
use usp_cloud_native.Errors.{AppErr}
use usp_cloud_native.Urls.Entity.{Url, can_redirect}
use usp_cloud_native.Urls.Repository.{Table, get_by_short_code}
use usp_cloud_native.Urls.Cache as Cache
use usp_cloud_native.Urls.Cache.{Redis, CacheErr}
use usp_cloud_native.Urls.Cache.Laws.{get-of-lost, get-keeps, is_not_found-of-lost}
use usp_cloud_native.Urls.Store.{Store}
use usp_cloud_native.Resolve.{
  CacheStatus, hit, miss, Resolved, Outside, judge, from_database, from_positive, past_cache,
  handle,
}
use usp_cloud_native.Resolve.Laws.{IsRow, uncached, past_cache-cases}

-- The columns that a redirect depends on.
pub record Agrees (u v : Url) : Type 0 where
  pub original_url : u.original_url ≡ v.original_url
  pub workspace_id : u.workspace_id ≡ v.workspace_id
  pub status : u.status ≡ v.status
  pub expires_at : u.expires_at ≡ v.expires_at

-- A cached URL agrees with the row of its code, and a negative entry stands for a code that does
-- not redirect.
pub record IsCoherent (c : Redis) (t : Table) (code : Str) (now : ℕ) : Type 0 where
  pub positive :
      (u : Url)
      → (Cache.get false false c code now).0 ≡ ok (some u)
      → (v : Url) × (get_by_short_code none t code ≡ ok v) × Agrees u v
  pub negative :
      Cache.is_not_found false c code now ≡ ok true
      → (v : Url) → get_by_short_code none t code ≡ ok v
      → can_redirect v now ≡ false

-- Where an answer sends the visitor, and on whose account.
abbrev pub target : Result AppErr Resolved → Option (Str × Str)
target (ok r) = some (r.original_url, r.workspace_id)
target (err e) = none

module _ (w : Outside) (code : Str) where
  target-judge :
      (a b : CacheStatus) (u v : Url)
      → Agrees u v
      → target (judge w code a u) ≡ target (judge w code b v)
  unfolding judge
  target-judge a b u v h = ground (arith, h.original_url, h.workspace_id, h.status, h.expires_at)

  target-refused :
      (a : CacheStatus) (v : Url)
      → w.read_at ≤ w.checked_at
      → can_redirect v w.read_at ≡ false
      → target (judge w code a v) ≡ none
  unfolding judge
  target-refused a v h e = ground arith

  -- Behind the cache's entries stands the lookup without a cache.
  pub target-from_database :
      (s : Store) (c : Redis)
      → (from_database w code s (some c)).result
        ≡ (handle w code (record s { cache = none })).result
  unfolding handle from_database
  target-from_database s c = ground arith

  target-negative :
      (s : Store)
      → w.query_fault ≡ none
      → w.read_at ≤ w.checked_at
      → ((v : Url) → IsRow w code s v → can_redirect v w.read_at ≡ false)
      → target (handle w code (record s { cache = none })).result ≡ none
  target-negative s no_fault clock idle =
      elim (uncached w code (record s { cache = none }) refl no_fault) [
        | inl (v, row, same) ↦ rw same (target-refused miss v clock (idle v row))
        | inr (absent, same) ↦ rw same
      ]

  target-past_cache :
      (s : Store) (c : Redis)
      → w.query_fault ≡ none
      → w.read_at ≤ w.checked_at
      → (Cache.is_not_found false c code w.read_at ≡ ok true
          → (v : Url) → IsRow w code s v
          → can_redirect v w.read_at ≡ false)
      → target (past_cache w code s c).result
        ≡ target (handle w code (record s { cache = none })).result
  target-past_cache s c no_fault clock idle = elim (past_cache-cases w code s c) [
    | inl e ↦ rw (e, target-from_database s c)
    | inr (e, negative) ↦ rw (
      e,
      target-negative s no_fault clock
          (idle (is_not_found-of-lost w.exists_lost c code w.read_at negative)),
    )
  ]

  target-from_positive :
      (s : Store) (p : Result CacheErr (Option Url) × Redis)
      → w.query_fault ≡ none
      → w.read_at ≤ w.checked_at
      → ((u : Url) → p.0 ≡ ok (some u) → (v : Url) × IsRow w code s v × Agrees u v)
      → (Cache.is_not_found false p.1 code w.read_at ≡ ok true
          → (v : Url) → IsRow w code s v
          → can_redirect v w.read_at ≡ false)
      → target (from_positive w code s p).result
        ≡ target (handle w code (record s { cache = none })).result
  target-from_positive s (ok (some u), c) no_fault clock there idle =
      let (v, row, agrees) = there u refl in
      elim (uncached w code (record s { cache = none }) refl no_fault) [
        | inl (v', row', same) ↦
            rw (same, target-judge hit miss u v' (rw (only v v' row row') agrees))
        | inr (absent, same) ↦ absurd (absent v row)
      ]
    where
      only : (v v' : Url) → IsRow w code s v → IsRow w code s v' → v' ≡ v
      only v v' h k = ground arith
  target-from_positive s (ok none, c) no_fault clock there idle =
      target-past_cache s c no_fault clock idle
  target-from_positive s (err e, c) no_fault clock there idle =
      target-past_cache s c no_fault clock idle

  -- With a coherent cache that is read no later than the URL is checked, whichever of its
  -- commands are lost, and where the query goes through, a visitor is sent to the same place as
  -- without a cache, or like there to none.
  pub cache_transparent :
      (s : Store) (c : Redis)
      → s.cache ≡ some c
      → w.query_fault ≡ none
      → w.read_at ≤ w.checked_at
      → IsCoherent c s.replica code w.read_at
      → target (handle w code s).result ≡ target (handle w code (record s { cache = none })).result
  unfolding handle
  cache_transparent s c cached no_fault clock coherent = rw cached (
      target-from_positive s (Cache.get w.get_lost w.del_lost c code w.read_at) no_fault clock
        (λ u e. coherent.positive u (get-of-lost w.get_lost w.del_lost c code w.read_at u e))
        (λ e.
          coherent.negative (get-keeps w.get_lost w.del_lost c code code w.read_at w.read_at e)))
