-- ===== src/Urls/Cache.antt =====
-- internal/infrastructure/redis/url_cache.go, over a store of keys that expire. A JSON document
-- is the record that it encodes, so decoding fails on any other value. A lost command is `true`.
pub mod Keys
pub mod Laws
use usp_cloud_native.Prelude.{
  ℕ, ◌+◌, ◌*◌, Str, codes, str_eq, is_empty, ltb, ◌==◌, Bool, true, false, not, ◌||◌, if◌then◌else◌,
  Option, none, some, List, [], ◌∷◌, ◌++◌, Result, ok, err,
}
use usp_cloud_native.Urls.Entity.{Status, Url}

pub record CacheEntry : Type 0 where
  pub id : Str
  pub workspace_id : Str
  pub short_code : Str
  pub original_url : Str
  pub title : Str
  pub status : Status
  pub expires_at : Option ℕ
  pub created_by : Str
  pub created_at : ℕ
  pub updated_at : ℕ
  pub click_count : ℕ
  pub cached_at : ℕ

unfoldable pub to_cache_entry : Url → ℕ → CacheEntry
to_cache_entry u now = record {
  id = u.id;
  workspace_id = u.workspace_id;
  short_code = u.short_code;
  original_url = u.original_url;
  title = u.title;
  status = u.status;
  expires_at = u.expires_at;
  created_by = u.created_by;
  created_at = u.created_at;
  updated_at = u.updated_at;
  click_count = u.click_count;
  cached_at = now;
}

unfoldable pub to_domain_url : CacheEntry → Url
to_domain_url e = record {
  id = e.id;
  workspace_id = e.workspace_id;
  short_code = e.short_code;
  original_url = e.original_url;
  title = e.title;
  status = e.status;
  expires_at = e.expires_at;
  created_by = e.created_by;
  created_at = e.created_at;
  updated_at = e.updated_at;
  deleted_at = none;
  click_count = e.click_count;
}

-- What a key holds: a JSON document, or the text "1" of a negative entry.
pub data Value : Type 0 where
  json : CacheEntry → Value
  text : Str → Value

pub record Binding : Type 0 where
  pub key : Str
  pub value : Value
  pub expires : Option ℕ

abbrev pub Redis : Type 0
Redis = List Binding

-- A time to live of zero is none.
abbrev pub expiry : ℕ → ℕ → Option ℕ
expiry ttl_seconds now = if ttl_seconds == 0 then none else some (now + ttl_seconds * 1000000000)

abbrev pub is_visible : Option ℕ → ℕ → Bool
is_visible none now = true
is_visible (some at) now = ltb now at

unfoldable pub redis_get : Redis → Str → ℕ → Option Value
redis_get [] key now = none
redis_get (b ∷ s) key now =
    if str_eq b.key key
    then (if is_visible b.expires now then some b.value else none)
    else redis_get s key now

unfoldable pub redis_del : Redis → Str → Redis
redis_del [] key = []
redis_del (b ∷ s) key = let rest = redis_del s key in if str_eq b.key key then rest else b ∷ rest

unfoldable pub redis_set : Redis → Str → Value → Option ℕ → Redis
unfolding redis_del
redis_set s key v expires = record { key = key; value = v; expires = expires } ∷ redis_del s key

unfoldable pub positive_key : Str → Str
positive_key code = codes "url:v1:" ++ code

unfoldable pub negative_key : Str → Str
negative_key code = codes "url:v1:notfound:" ++ code

pub data CacheErr : Type 0 where
  command decode : CacheErr

abbrev pub del_unless : Bool → Redis → Str → Redis
del_unless lost s key = if lost then s else redis_del s key

-- A value that is no document is deleted, if the command for that arrives.
decoded : Bool → Redis → Str → Option Value → Result CacheErr (Option Url) × Redis
unfolding to_domain_url
decoded del_lost s key none = (ok none, s)
decoded del_lost s key (some (json e)) = (ok (some (to_domain_url e)), s)
decoded del_lost s key (some (text t)) = (err decode, del_unless del_lost s key)

unfoldable pub get : (lost del_lost : Bool) → Redis → Str → ℕ → Result CacheErr (Option Url) × Redis
unfolding decoded positive_key redis_get
get lost del_lost s code now =
    if lost
    then (err command, s)
    else decoded del_lost s (positive_key code) (redis_get s (positive_key code) now)

unfoldable pub set : Bool → Redis → Url → ℕ → ℕ → Result CacheErr (Unit {0}) × Redis
unfolding positive_key redis_set to_cache_entry
set lost s u ttl_seconds now = if lost then (err command, s) else (
  ok tt,
  redis_set s (positive_key u.short_code) (json (to_cache_entry u now)) (expiry ttl_seconds now),
)

unfoldable pub set_not_found : Bool → Redis → Str → ℕ → ℕ → Result CacheErr (Unit {0}) × Redis
unfolding negative_key redis_set
set_not_found lost s code ttl_seconds now =
    if lost
    then (err command, s)
    else (ok tt, redis_set s (negative_key code) (text (codes "1")) (expiry ttl_seconds now))

abbrev is_some : Option Value → Bool
is_some none = false
is_some (some v) = true

unfoldable pub is_not_found : Bool → Redis → Str → ℕ → Result CacheErr Bool
unfolding negative_key redis_get
is_not_found lost s code now =
    if lost then err command else ok (is_some (redis_get s (negative_key code) now))

unfoldable pub delete : Bool → Redis → Str → Result CacheErr (Unit {0}) × Redis
unfolding positive_key negative_key redis_del
delete lost s code =
    if lost
    then (err command, s)
    else (ok tt, redis_del (redis_del s (positive_key code)) (negative_key code))
