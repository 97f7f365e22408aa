-- ===== src/Resolve.antt =====
-- internal/application/resolve/handler.go: the use case behind a redirect, the goroutines that it
-- starts, and the answer of internal/interfaces/http/handler/redirect.go.
pub mod Laws
pub mod Answers
pub mod Coherence
pub mod Paths
mod Tests
use usp_cloud_native.Prelude.{
  ℕ, Str, Bool, true, false, Option, none, some, List, [], ◌∷◌, Result, ok, err,
}
use usp_cloud_native.Errors.{
  AppErr, not_found, url_expired, url_disabled, wrapped, UrlErr, is_not_found, PgErr,
}
use usp_cloud_native.Urls.Entity.{Status, Url, is_expired, can_redirect}
use usp_cloud_native.Urls.Repository.{get_by_short_code}
use usp_cloud_native.Urls.Cache as Cache
use usp_cloud_native.Urls.Cache.{Redis, CacheErr}
use usp_cloud_native.Urls.Store.{Store}

pub data CacheStatus : Type 0 where
  hit miss : CacheStatus

pub record Resolved : Type 0 where
  pub original_url : Str
  pub short_code : Str
  pub workspace_id : Str
  pub cache_status : CacheStatus

pub record Config : Type 0 where
  pub cache_ttl : ℕ
  pub negative_ttl : ℕ

-- What happens outside: the commands that are lost, the fault of the query, and the readings of the
-- clock by the cache, by `CanRedirect`, and by the `IsExpired` of the classification.
pub record Outside : Type 0 where
  pub get_lost : Bool
  pub del_lost : Bool
  pub exists_lost : Bool
  pub query_fault : Option PgErr
  pub read_at : ℕ
  pub checked_at : ℕ
  pub classified_at : ℕ

-- The goroutines that a call may leave running.
pub data Task : Type 0 where
  set_cache : Url → Task
  set_not_found : Str → Task

pub record Answer : Type 0 where
  pub result : Result AppErr Resolved
  pub cache : Option Redis
  pub tasks : List Task

-- A failed write to the cache is logged and forgotten.
unfoldable pub run_task : Config → Bool → Option Redis → ℕ → Task → Option Redis
run_task config lost none now task = none
run_task config lost (some s) now (set_cache u) = some (Cache.set lost s u config.cache_ttl now).1
run_task config lost (some s) now (set_not_found code) =
    some (Cache.set_not_found lost s code config.negative_ttl now).1

abbrev by_status : Status → AppErr
by_status Status.disabled = url_disabled
by_status _ = not_found

unfoldable pub handle_non_redirectable_url : Url → ℕ → AppErr
unfolding is_expired
handle_non_redirectable_url u now = elim (is_expired u now) [
  | true ↦ url_expired
  | false ↦ by_status u.status
]

module _ (w : Outside) (code : Str) where
  abbrev pub resolved : CacheStatus → Url → Resolved
  resolved status u = record {
    original_url = u.original_url;
    short_code = code;
    workspace_id = u.workspace_id;
    cache_status = status;
  }

  -- What a URL that was found is answered with.
  pub judge : CacheStatus → Url → Result AppErr Resolved
  unfolding can_redirect handle_non_redirectable_url
  judge status u = elim (can_redirect u w.checked_at) [
    | true ↦ ok (resolved status u)
    | false ↦ err (handle_non_redirectable_url u w.classified_at)
  ]

  abbrev fill : Url → Task
  fill u = elim (can_redirect u w.checked_at) [ true ↦ set_cache u | false ↦ set_not_found code ]

  abbrev refusal : UrlErr → Option Redis → Answer
  refusal e cache = elim (is_not_found e) [
    | true ↦ record { result = err not_found; cache = cache; tasks = set_not_found code ∷ [] }
    | false ↦ record { result = err (wrapped e); cache = cache; tasks = [] }
  ]

  -- Step 3, the lookup in the database.
  pub from_database : Store → Option Redis → Answer
  unfolding is_not_found judge get_by_short_code
  from_database s cache = elim (get_by_short_code w.query_fault s.replica code) [
    | ok u ↦ record { result = judge miss u; cache = cache; tasks = fill u ∷ [] }
    | err e ↦ refusal e cache
  ]

  -- Step 2, the negative entry; a failed lookup falls through.
  abbrev from_negative : Store → Option Redis → Result CacheErr Bool → Answer
  from_negative s cache (ok true) = record { result = err not_found; cache = cache; tasks = [] }
  from_negative s cache (ok false) = from_database s cache
  from_negative s cache (err e) = from_database s cache

  abbrev past_cache : Store → Redis → Answer
  past_cache s r = from_negative s (some r) (Cache.is_not_found w.exists_lost r code w.read_at)

  -- Step 1, the positive entry; a failed lookup falls through.
  abbrev from_positive : Store → Result CacheErr (Option Url) × Redis → Answer
  from_positive s (ok (some u), r) = record { result = judge hit u; cache = some r; tasks = [] }
  from_positive s (ok none, r) = past_cache s r
  from_positive s (err e, r) = past_cache s r

  abbrev with_cache : Store → Option Redis → Answer
  with_cache s none = from_database s none
  with_cache s (some r) = from_positive s (Cache.get w.get_lost w.del_lost r code w.read_at)

  unfoldable pub handle : Store → Answer
  unfolding from_database
  handle s = with_cache s s.cache

-- The status that `writeError` and `Handle` of the redirect handler send.
abbrev pub status_of : Result AppErr Resolved → ℕ
status_of (ok r) = 302
status_of (err not_found) = 404
status_of (err url_disabled) = 404
status_of (err url_expired) = 410
status_of (err _) = 500
