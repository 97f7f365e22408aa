-- ===== src/Handlers/Urls.antt =====
-- internal/interfaces/http/handler/url.go. The parameters of the path and of the query and the decoded
-- body are arguments, and so is the dispatcher's presence; metrics and log lines are left out.
pub mod Laws
pub mod Expiry
pub mod Audited
use usp_cloud_native.Prelude.{
  ℕ, ◌+◌, ◌-◌, ◌*◌, ◌%◌, ◌==◌, Str, codes, is_empty, leb, ltb, Bool, true, false, not, ◌||◌,
  if◌then◌else◌, Option, none, some, List, [], ◌∷◌, map, Result, ok, err,
}
use usp_cloud_native.Errors.{AppErr, not_found, url_expired, validation, PgErr}
use usp_cloud_native.Urls.Entity.{Status}
use usp_cloud_native.Urls.Repository.{ListFilter}
use usp_cloud_native.Urls.Store.{Store}
use usp_cloud_native.Access.Claims.{Claims}
use usp_cloud_native.Manage as Manage
use usp_cloud_native.Manage.{UrlResult, ListResult, UpdateCommand, Outside, update_url, delete_url}
use usp_cloud_native.Webhooks.{Tables}
use usp_cloud_native.Webhooks.Registration.{Event, DispatchOutside, dispatch}
use usp_cloud_native.Audit.Event as Audit
use usp_cloud_native.Audit.Event.{text, resource_url, annotate_context}
use usp_cloud_native.Handlers.Response.{
  Response, json, problem, no_content, not_found_problem, gone_problem, internal_error,
  unprocessable_entity, Context, with_claims, with_body,
}

pub record UrlResponse : Type 0 where
  pub id : Str
  pub short_url : Str
  pub short_code : Str
  pub original_url : Str
  pub title : Str
  pub status : Status
  pub workspace_id : Str
  pub created_by : Str
  pub created_at : ℕ
  pub updated_at : ℕ
  pub expires_at : Option ℕ
  pub click_count : ℕ

abbrev pub to_url_response : UrlResult → UrlResponse
to_url_response r = record {
  id = r.id;
  short_url = r.short_url;
  short_code = r.short_code;
  original_url = r.original_url;
  title = r.title;
  status = r.status;
  workspace_id = r.workspace_id;
  created_by = r.created_by;
  created_at = r.created_at;
  updated_at = r.updated_at;
  expires_at = r.expires_at;
  click_count = r.click_count;
}

-- The tables of URLs with their cache, and those of webhooks, of which the replica is read.
pub record Site : Type 0 where
  pub store : Store
  pub hooks_replica : Tables
  pub hooks : Tables

-- `writeError`
abbrev pub url_error {ℓ} : {A : Type ℓ} → Str → AppErr → Response A
url_error path not_found = not_found_problem path
url_error path url_expired = gone_problem path
url_error path (validation why) = unprocessable_entity path
url_error path _ = internal_error path

abbrev pub one_url : Str → Result AppErr UrlResult → Response UrlResponse
one_url path (ok r) = json 200 (to_url_response r)
one_url path (err e) = url_error path e

unfoldable pub get_url :
    Str
    → Option PgErr
    → Context
    → Site
    → (url_id : Str) → Response UrlResponse × Site × Option Audit.Event
unfolding Manage.get
get_url base_url fault c s url_id = with_claims c s (λ claims.
    (one_url c.path (Manage.get base_url fault s.store url_id claims.workspace_id), s, c.pending))

abbrev pub int_mod : ℕ
int_mod = 18446744073709551616

-- The loop over the digits, in an int of 64 bits; none at a character that is no digit.
abbrev pub digits : ℕ → Str → Option ℕ
digits n [] = some n
digits n (c ∷ val) =
    let rest = digits ((n * 10 + (c - b'0')) % int_mod) val in
    if ltb c b'0' || ltb b'9' c then none else rest

-- A number from half the range on is negative.
abbrev pub clamped : (default_val max_val : ℕ) → Option ℕ → ℕ
clamped default_val max_val none = default_val
clamped default_val max_val (some n) =
    if (n == 0) || leb 9223372036854775808 n
    then default_val
    else if ltb max_val n
    then max_val
    else n

unfoldable pub parse_int_query : Str → (default_val max_val : ℕ) → ℕ
parse_int_query [] default_val max_val = default_val
parse_int_query (c ∷ val) default_val max_val = clamped default_val max_val (digits 0 (c ∷ val))

-- The query of a list; a parameter that is missing is empty.
pub record ListParams : Type 0 where
  pub cursor : Str
  pub limit : Str
  pub status : Str
  pub created_by : Str

abbrev pub unless_empty : Str → Option Str
unless_empty [] = none
unless_empty (c ∷ s) = some (c ∷ s)

abbrev pub list_filter : Claims → ListParams → ListFilter
list_filter claims p = record {
  workspace_id = claims.workspace_id;
  status = unless_empty p.status;
  created_by = unless_empty p.created_by;
  cursor = p.cursor;
  limit = parse_int_query p.limit 20 100;
}

pub record ListUrlsResponse : Type 0 where
  pub urls : List UrlResponse
  pub cursor : Str
  pub has_more : Bool

abbrev pub url_page : Str → Result AppErr ListResult → Response ListUrlsResponse
url_page path (ok r) =
    json 200
      (record { urls = map to_url_response r.urls; cursor = r.next_cursor; has_more = r.has_more })
url_page path (err e) = url_error path e

unfoldable pub list_urls_page :
    Str
    → Option PgErr
    → Context
    → Site
    → ListParams
    → Response ListUrlsResponse × Site × Option Audit.Event
unfolding parse_int_query Manage.list
list_urls_page base_url fault c s p = with_claims c s (λ claims.
    (url_page c.path (Manage.list base_url fault s.store (list_filter claims p)), s, c.pending))

-- A field that is missing, or null, is none.
pub record UpdateUrlRequest : Type 0 where
  pub original_url : Option Str
  pub title : Option Str
  pub expires_at : Option ℕ

-- `hasExpiresAtField`
abbrev pub has_expires_at_field : UpdateUrlRequest → Bool
has_expires_at_field req = false

abbrev pub is_given {ℓ} : {A : Type ℓ} → Option A → Bool
is_given none = false
is_given (some a) = true

abbrev pub update_command : Claims → Str → UpdateUrlRequest → UpdateCommand
update_command claims url_id req = record {
  url_id = url_id;
  workspace_id = claims.workspace_id;
  original_url = req.original_url;
  title = req.title;
  expires_at =
      if is_given req.expires_at || has_expires_at_field req then some req.expires_at else none;
}

-- What happens outside: the use case's part, and the dispatcher, if there is one.
pub record UrlOutside : Type 0 where
  pub manage : Outside
  pub dispatcher : Option DispatchOutside

-- An error of the dispatcher is logged.
abbrev pub dispatched : Option DispatchOutside → Event → Site → Site
dispatched none event s = s
dispatched (some d) event s = record s { hooks = dispatch d s.hooks_replica s.hooks event }

abbrev pub updated_event : UrlResult → Event
updated_event r = record {
  event_type = codes "url.updated";
  event_id = r.id;
  workspace_id = r.workspace_id;
}

abbrev pub url_metadata : (short_code original_url : Str) → Audit.Metadata
url_metadata short_code original_url =
    (codes "short_code", text short_code) ∷ (codes "original_url", text original_url) ∷ []

abbrev pub updated :
    UrlOutside
    → Context
    → Site
    → Result AppErr (UrlResult × Store)
    → Response UrlResponse × Site × Option Audit.Event
updated w c s (err e) = (url_error c.path e, s, c.pending)
updated w c s (ok (r, store)) = (
  json 200 (to_url_response r),
  dispatched w.dispatcher (updated_event r) (record s { store = store }),
  annotate_context c.pending resource_url r.id (some (url_metadata r.short_code r.original_url)),
)

unfoldable pub patch_url :
    Str
    → UrlOutside
    → Context
    → Site
    → (url_id : Str) → Option UpdateUrlRequest
    → Response UrlResponse × Site × Option Audit.Event
unfolding annotate_context
patch_url base_url w c s url_id body = with_claims c s (λ claims. with_body c s body (λ req.
    updated w c s (update_url base_url w.manage s.store (update_command claims url_id req))))

abbrev pub deleted_event : Claims → Str → Event
deleted_event claims url_id = record {
  event_type = codes "url.deleted";
  event_id = url_id;
  workspace_id = claims.workspace_id;
}

abbrev pub removed :
    UrlOutside
    → Context
    → Site
    → Claims
    → Str
    → Result AppErr Store
    → Response (Unit {0}) × Site × Option Audit.Event
removed w c s claims url_id (err e) = (url_error c.path e, s, c.pending)
removed w c s claims url_id (ok store) = (
  no_content,
  dispatched w.dispatcher (deleted_event claims url_id) (record s { store = store }),
  annotate_context c.pending resource_url url_id
      (some ((codes "deleted_by", text claims.user_id) ∷ [])),
)

unfoldable pub remove_url :
    UrlOutside → Context → Site → (url_id : Str) → Response (Unit {0}) × Site × Option Audit.Event
unfolding annotate_context
remove_url w c s url_id =
    with_claims c s (λ claims.
      removed w c s claims url_id (delete_url w.manage s.store url_id claims.workspace_id))
