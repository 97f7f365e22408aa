-- ===== src/Lifecycle/Creation.antt =====
-- A redirect after the creation of a URL.
use usp_cloud_native.Prelude.{
  true, false, none, some, ok, arith, ◌≡◌, ◌∙◌, refl, str_eq, str_eq_refl,
}
use usp_cloud_native.Urls.Entity.{has_passed, can_redirect}
use usp_cloud_native.Urls.Repository.{get_by_short_code}
use usp_cloud_native.Urls.Repository.Reads.{get_by_short_code-append}
use usp_cloud_native.Urls.Cache.{Redis, expiry, is_visible}
use usp_cloud_native.Urls.Cache as Cache
use usp_cloud_native.Urls.Cache.Laws.{cached, get-set}
use usp_cloud_native.Urls.Store.{Store}
use usp_cloud_native.Shorten
use usp_cloud_native.Shorten.{Command, Created}
use usp_cloud_native.Shorten.Laws.{handle-IsStored}
use usp_cloud_native.Resolve
use usp_cloud_native.Resolve.Paths.{handle-hit, handle-row, judge-usable}
use usp_cloud_native.Resolve.{Resolved, hit, miss, judge}

-- The answer that the creator of a URL expects from a redirect.
abbrev pub expected : Command → Created → Resolve.CacheStatus → Resolved
expected cmd r status = record {
  original_url = cmd.original_url;
  short_code = r.short_code;
  workspace_id = cmd.workspace_id;
  cache_status = status;
}

-- After a successful creation whose write to the cache arrived, while that entry lives and is
-- read, and before the URL expires, a redirect is served from the cache with the URL of the
-- command, whatever the databases hold.
pub cached_redirect :
    (config : Shorten.Config) (w : Shorten.Outside) (cmd : Command) (s s' later : Store)
    (r : Created) (c : Redis) (v : Resolve.Outside)
    → Shorten.handle config w cmd s ≡ ok (r, s')
    → s.cache ≡ some c
    → w.set_lost ≡ false
    → later.cache ≡ s'.cache
    → v.get_lost ≡ false
    → is_visible (expiry config.cache_ttl w.now) v.read_at ≡ true
    → has_passed cmd.expires_at v.checked_at ≡ false
    → (Resolve.handle v r.short_code later).result ≡ ok (expected cmd r hit)
unfolding can_redirect Cache.set
cached_redirect config w cmd s s' later r c v h filled arrived same read lives open_yet =
    let (u, stored) = handle-IsStored config w cmd s s' r h in
    let written = get-set v.del_lost c u config.cache_ttl w.now v.read_at r.short_code in
    let holds : later.cache ≡ some (Cache.set false c u config.cache_ttl w.now).1 =
      same ∙ stored.warmed ∙ rw (filled, arrived) refl in
    let code : str_eq u.short_code r.short_code ≡ true =
      ground (arith, stored.answer, str_eq_refl u.short_code) in
    let there : (Cache.get v.get_lost v.del_lost (Cache.set false c u config.cache_ttl w.now).1
          r.short_code v.read_at).0
        ≡ ok (some (cached u)) =
      ground arith in
    let served =
      handle-hit v r.short_code later _ (cached u) holds there (ground (arith, stored.made)) in
    served ∙ ground (arith, stored.made, stored.answer)

-- After a successful creation, without a cache, and once the insert has reached the replica and
-- the query goes through, a redirect is served from the database with the URL of the command,
-- before the URL expires.
pub stored_redirect :
    (config : Shorten.Config) (w : Shorten.Outside) (cmd : Command) (s s' later : Store)
    (r : Created) (v : Resolve.Outside)
    → Shorten.handle config w cmd s ≡ ok (r, s')
    → later.cache ≡ none
    → later.replica ≡ s'.primary
    → v.query_fault ≡ none
    → has_passed cmd.expires_at v.checked_at ≡ false
    → (Resolve.handle v r.short_code later).result ≡ ok (expected cmd r miss)
unfolding can_redirect
stored_redirect config w cmd s s' later r v h no_cache replicated no_fault open_yet =
    let (u, stored) = handle-IsStored config w cmd s s' r h in
    let row : get_by_short_code none later.replica r.short_code ≡ ok u =
      rw (replicated, stored.appended)
        (get_by_short_code-append s.primary u r.short_code (ground (arith, stored.made))
            stored.fresh
          ∙ ground (arith, stored.answer, str_eq_refl u.short_code)) in
    handle-row v r.short_code later u no_cache no_fault row
    ∙ judge-usable v r.short_code miss u (ground (arith, stored.made))
    ∙ ground (arith, stored.made, stored.answer)
