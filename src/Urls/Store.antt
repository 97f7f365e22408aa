-- ===== src/Urls/Store.antt =====
-- The databases and the cache that the use cases share: internal/infrastructure/postgres/client.go
-- has a pool for the primary and one for a replica, which may lag behind. The cache may be absent.
use usp_cloud_native.Prelude.{Str, Bool, Option, none, some}
use usp_cloud_native.Urls.Repository.{Table}
use usp_cloud_native.Urls.Cache as Cache
use usp_cloud_native.Urls.Cache.{Redis}

pub record Store : Type 0 where
  pub primary : Table
  pub replica : Table
  pub cache : Option Redis

-- `if h.cache != nil { h.cache.Delete(…) }`: a lost invalidation is logged and forgotten.
abbrev pub invalidate : Bool → Option Redis → Str → Option Redis
invalidate lost none code = none
invalidate lost (some r) code = some (Cache.delete lost r code).1
