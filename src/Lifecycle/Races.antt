-- ===== src/Lifecycle/Races.antt =====
-- Orders of the steps in which a redirect answers from the past.
use usp_cloud_native.Prelude.{
  ℕ, ◌≤◌, Str, str_eq_refl, true, false, none, some, [], ◌∷◌, ok, arith, ◌≡◌, refl,
}
use usp_cloud_native.Urls.Entity.{Url, is_expired, can_redirect}
use usp_cloud_native.Urls.Repository.{get_by_short_code}
use usp_cloud_native.Urls.Cache as Cache
use usp_cloud_native.Urls.Cache.{Redis, expiry, is_visible}
use usp_cloud_native.Urls.Cache.Laws.{cached, get-set, get-missed, set_not_found_lem}
use usp_cloud_native.Urls.Cache.Keys.{HasNoColon}
use usp_cloud_native.Urls.Store.{Store}
use usp_cloud_native.Resolve
use usp_cloud_native.Resolve.{resolved, hit, set_cache, set_not_found, run_task, status_of}
use usp_cloud_native.Resolve.Paths.{handle-hit, handle-expired, handle-negative}

-- A goroutine of an earlier redirect whose write to the cache arrives late has the last word:
-- while its entry lives and is read, and the URL that it read redirects, redirects go to that
-- URL, whatever the databases hold by then.
pub late_task_wins :
    (s : Store) (c : Redis) (u : Url) (config : Resolve.Config) (now : ℕ) (v : Resolve.Outside)
    → s.cache ≡ some c
    → v.get_lost ≡ false
    → is_visible (expiry config.cache_ttl now) v.read_at ≡ true
    → can_redirect u v.checked_at ≡ true
    → let late = record s { cache = run_task config false s.cache now (set_cache u) } in
      (Resolve.handle v u.short_code late).result ≡ ok (resolved v u.short_code hit u)
unfolding run_task can_redirect
late_task_wins s c u config now v had read lives can =
    let s₁ = (Cache.set false c u config.cache_ttl now).1 in
    let written = get-set v.del_lost c u config.cache_ttl now v.read_at u.short_code in
    let late : Store = record s { cache = run_task config false s.cache now (set_cache u) } in
    let holds : late.cache ≡ some s₁ = rw had refl in
    let there : (Cache.get v.get_lost v.del_lost s₁ u.short_code v.read_at).0
        ≡ ok (some (cached u)) =
      ground (arith, str_eq_refl u.short_code) in
    handle-hit v u.short_code late s₁ (cached u) holds there can

-- A visitor of an expired URL that the cache does not know, by a short code without a colon, gets
-- 410 where the query goes through; once the write of the goroutine that this starts has arrived,
-- a visitor who follows gets 404 for as long as its entry lives and is read.
pub expired_gone_then_not_found :
    (s : Store) (c : Redis) (u : Url) (code : Str) (config : Resolve.Config) (now : ℕ)
    (v later : Resolve.Outside)
    → HasNoColon code
    → s.cache ≡ some c
    → (Cache.get v.get_lost v.del_lost c code v.read_at).0 ≡ ok none
    → Cache.is_not_found v.exists_lost c code v.read_at ≡ ok false
    → v.query_fault ≡ none
    → get_by_short_code none s.replica code ≡ ok u
    → is_expired u v.checked_at ≡ true
    → v.checked_at ≤ v.classified_at
    → (Cache.get false later.del_lost c code later.read_at).0 ≡ ok none
    → later.get_lost ≡ false
    → later.exists_lost ≡ false
    → is_visible (expiry config.negative_ttl now) later.read_at ≡ true
    → let answer = Resolve.handle v code s in
      let s' = record s { cache = run_task config false answer.cache now (set_not_found code) } in
      (status_of answer.result ≡ 410)
      × (answer.tasks ≡ set_not_found code ∷ [])
      × (status_of (Resolve.handle later code s').result ≡ 404)
unfolding run_task
expired_gone_then_not_found s c u code config now v later plain had no_entry no_negative no_fault
      row past clock no_entry' read read' lives =
    let first = handle-expired v code s c u had no_entry no_negative no_fault row past clock in
    let c' = (Cache.set_not_found false c code config.negative_ttl now).1 in
    let s' : Store = record s { cache = some c' } in
    let (stored, unseen) =
      set_not_found_lem later.del_lost c code code config.negative_ttl now later.read_at plain in
    let missed : (Cache.get later.get_lost later.del_lost c' code later.read_at).0 ≡ ok none =
      ground arith in
    let negative : Cache.is_not_found later.exists_lost
          (Cache.get later.get_lost later.del_lost c' code later.read_at).1 code later.read_at
        ≡ ok true =
      ground (
        arith,
        str_eq_refl code,
        get-missed later.get_lost later.del_lost c' code later.read_at missed,
      ) in
    let second = handle-negative later code s' c' refl (λ x e. absurd (ground arith)) negative in
    rw first (refl, refl, rw second)
