-- ===== src/Manage.antt =====
-- internal/application/url: the use cases on a URL that exists, by its id and workspace.
pub mod Laws
mod Tests
use usp_cloud_native.Prelude.{
  ℕ, Str, codes, is_empty, length, ltb, Bool, true, false, not, Option, none, some, List, [], ◌∷◌,
  ◌++◌, map, Result, ok, err, ◌>>=◌, ◌>>◌, reject_if,
}
use usp_cloud_native.Errors.{
  AppErr, not_found, wrapped, validation, url_required, url_length, url_syntax, url_scheme, UrlErr,
  is_not_found, is_gone, PgErr,
}
use usp_cloud_native.Urls.Entity.{Status, Url, ParsedUrl, Parser, max_url_length}
use usp_cloud_native.Urls.Repository.{ListFilter, get_by_id, update, soft_delete, list_urls}
use usp_cloud_native.Urls.Cache as Cache
use usp_cloud_native.Urls.Cache.{Redis}
use usp_cloud_native.Urls.Store.{Store, invalidate}
use usp_cloud_native.Shorten.Validation.{is_web_scheme}

-- Times are kept as numbers, and the status as the value that is printed.
pub record UrlResult : Type 0 where
  pub id : Str
  pub short_url : Str
  pub short_code : Str
  pub original_url : Str
  pub title : Str
  pub status : Status
  pub workspace_id : Str
  pub created_by : Str
  pub created_at : ℕ
  pub updated_at : ℕ
  pub expires_at : Option ℕ
  pub click_count : ℕ

unfoldable pub to_url_result : Url → Str → UrlResult
to_url_result u base_url = record {
  id = u.id;
  short_url = base_url ++ codes "/" ++ u.short_code;
  short_code = u.short_code;
  original_url = u.original_url;
  title = u.title;
  status = u.status;
  workspace_id = u.workspace_id;
  created_by = u.created_by;
  created_at = u.created_at;
  updated_at = u.updated_at;
  expires_at = u.expires_at;
  click_count = u.click_count;
}

-- `if domainurl.IsNotFound(err) { return apperrors.ErrNotFound }`, and a wrapped error otherwise.
abbrev pub app_error : UrlErr → AppErr
app_error e = elim (is_not_found e) [ true ↦ not_found | false ↦ wrapped e ]

abbrev pub or_app {ℓ} : {A : Type ℓ} → Result UrlErr A → Result AppErr A
or_app (ok a) = ok a
or_app (err e) = err (app_error e)

abbrev get_error : UrlErr → AppErr
get_error e = elim (is_not_found e) [
  | true ↦ not_found
  | false ↦ elim (is_gone e) [ true ↦ not_found | false ↦ wrapped e ]
]

abbrev got : Str → Result UrlErr Url → Result AppErr UrlResult
got base_url (ok u) = ok (to_url_result u base_url)
got base_url (err e) = err (get_error e)

unfoldable pub get : Str → Option PgErr → Store → Str → Str → Result AppErr UrlResult
unfolding get_by_id is_not_found is_gone to_url_result
get base_url fault s id workspace_id = got base_url (get_by_id fault s.replica id workspace_id)

pub record ListResult : Type 0 where
  pub urls : List UrlResult
  pub next_cursor : Str
  pub has_more : Bool

abbrev listed : Str → Result UrlErr (List Url × Str) → Result AppErr ListResult
listed base_url (ok (urls, next)) = ok (record {
  urls = map (λ u. to_url_result u base_url) urls;
  next_cursor = next;
  has_more = not (is_empty next);
})
listed base_url (err e) = err (wrapped e)

unfoldable pub list : Str → Option PgErr → Store → ListFilter → Result AppErr ListResult
unfolding list_urls to_url_result
list base_url fault s f = listed base_url (list_urls fault s.replica f)

abbrev validate_parsed : Option ParsedUrl → Result AppErr (Unit {0})
validate_parsed none = err (validation url_syntax)
validate_parsed (some parsed) =
    reject_if (not (is_web_scheme parsed.scheme)) (validation url_scheme)

unfoldable pub validate_update_url : Parser → Str → Result AppErr (Unit {0})
unfolding is_web_scheme
validate_update_url parse_request_uri raw_url = do
  reject_if (is_empty raw_url) (validation url_required)
  reject_if (ltb max_url_length (length raw_url)) (validation url_length)
  validate_parsed (parse_request_uri raw_url)

-- A nil pointer is `none`: no change. `some none` removes the expiry.
pub record UpdateCommand : Type 0 where
  pub url_id : Str
  pub workspace_id : Str
  pub original_url : Option Str
  pub title : Option Str
  pub expires_at : Option (Option ℕ)

-- What happens outside: the fault of the read and of the write, the time, and whether the
-- invalidation of the cache is lost.
pub record Outside : Type 0 where
  pub parse_request_uri : Parser
  pub read_fault : Option PgErr
  pub write_fault : Option PgErr
  pub now : ℕ
  pub delete_lost : Bool

abbrev pub given {ℓ} : {A : Type ℓ} → Option A → A → A
given none a = a
given (some b) a = b

-- The entity with the fields that the command gives.
abbrev pub changed : UpdateCommand → Url → ℕ → Url
changed cmd u now = record u {
  original_url = given cmd.original_url u.original_url;
  title = given cmd.title u.title;
  expires_at = given cmd.expires_at u.expires_at;
  updated_at = now;
}

abbrev pub validate_given : Parser → Option Str → Result AppErr (Unit {0})
validate_given parse_request_uri none = ok tt
validate_given parse_request_uri (some raw_url) = validate_update_url parse_request_uri raw_url

unfoldable pub update_url :
    Str → Outside → Store → UpdateCommand → Result AppErr (UrlResult × Store)
unfolding get_by_id update is_not_found validate_update_url to_url_result
update_url base_url w s cmd = do
  u ← or_app (get_by_id w.read_fault s.replica cmd.url_id cmd.workspace_id)
  validate_given w.parse_request_uri cmd.original_url
  let u' = changed cmd u w.now
  t ← or_app (update w.write_fault s.primary u' w.now)
  ok (
    to_url_result u' base_url,
    record s { primary = t; cache = invalidate w.delete_lost s.cache u'.short_code },
  )

unfoldable pub delete_url : Outside → Store → Str → Str → Result AppErr Store
unfolding get_by_id soft_delete is_not_found
delete_url w s id workspace_id = do
  u ← or_app (get_by_id w.read_fault s.replica id workspace_id)
  t ← or_app (soft_delete w.write_fault s.primary id workspace_id w.now)
  ok (record s { primary = t; cache = invalidate w.delete_lost s.cache u.short_code })
