-- ===== src/Resolve/Tests.antt =====
-- The laws of the redirect at concrete inputs.
use usp_cloud_native.Prelude.{Str, codes, false, some, [], ok, arith, ◌≡◌, refl, str_eq}
use usp_cloud_native.Urls.Repository.{get_by_short_code}
use usp_cloud_native.Urls.Cache as Cache
use usp_cloud_native.Urls.Cache.{Redis}
use usp_cloud_native.Resolve.{miss, resolved, handle}
use usp_cloud_native.Resolve.Laws.{IsServed, handle-IsServed}
use usp_cloud_native.Resolve.Coherence.{IsCoherent, target, cache_transparent}
use usp_cloud_native.Samples.{link, table, store, uncached_store, reading}

abbrev abc : Str
abc = codes "abc"

miss_run : (handle reading abc store).result ≡ ok (resolved reading abc miss link)
unfolding handle str_eq Cache.get Cache.is_not_found
miss_run = refl

handle-IsServed_example : IsServed reading abc store (resolved reading abc miss link)
handle-IsServed_example =
    handle-IsServed reading abc store (resolved reading abc miss link) miss_run

-- A cache that holds the URL of the row.
abbrev warm : Redis
warm = (Cache.set false [] link 3600 20).1

warm-IsCoherent : IsCoherent warm table abc 30
unfolding Cache.get Cache.set Cache.is_not_found get_by_short_code str_eq
warm-IsCoherent = record {
  positive = λ u h. (
    link,
    refl,
    record {
      original_url = ground arith;
      workspace_id = ground arith;
      status = ground arith;
      expires_at = ground arith;
    },
  );
  negative = λ h. absurd (ground arith);
}

cache_transparent_example :
    target (handle reading abc (record store { cache = some warm })).result
    ≡ target (handle reading abc uncached_store).result
cache_transparent_example =
    cache_transparent reading abc (record store { cache = some warm }) warm refl refl (omega arith)
      warm-IsCoherent
