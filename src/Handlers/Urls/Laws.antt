-- ===== src/Handlers/Urls/Laws.antt =====
-- What the handlers of a URL leave behind.
use usp_cloud_native.Prelude.{
  ℕ, ◌≤◌, Str, where_rows, Option, none, some, List, [], ◌∷◌, Result, ok, err, arith, ◌≡◌, refl, ap,
  subst, ◌∙◌, inl, inr,
}
use usp_cloud_native.Errors.{AppErr}
use usp_cloud_native.Urls.Entity.{Url}
use usp_cloud_native.Urls.Repository.Tenancy.{is_foreign, writes_foreign}
use usp_cloud_native.Urls.Repository.Reads.{get_by_id-eq-ok, get_by_id-of-fault}
use usp_cloud_native.Urls.Store.{Store}
use usp_cloud_native.Access.Claims.{Claims}
use usp_cloud_native.Manage.{UrlResult, changed, update_url, delete_url}
use usp_cloud_native.Manage.Laws.{update_url-IsUpdated, delete_url-IsDeleted}
use usp_cloud_native.Webhooks.Registration as Registration
use usp_cloud_native.Webhooks.Registration.{DispatchOutside}
use usp_cloud_native.Audit.Event as Audit
use usp_cloud_native.Audit.Event.{text, resource_url, annotate_context, action_auth_failed}
use usp_cloud_native.Handlers.Response.{Context, with_body}
use usp_cloud_native.Handlers.Urls.{
  updated_event, deleted_event, Site, UrlOutside, digits, clamped, parse_int_query,
  UpdateUrlRequest, update_command, dispatched, updated, removed, patch_url, remove_url,
}

clamped_bounds :
    (default_val max_val : ℕ) (n : Option ℕ)
    → 1 ≤ default_val
    → default_val ≤ max_val
    → (1 ≤ clamped default_val max_val n) × (clamped default_val max_val n ≤ max_val)
clamped_bounds default_val max_val none h k = (h, k)
clamped_bounds default_val max_val (some n) h k = ground arith

-- Whatever text a parameter has, also one whose number overflows, the number that is read is at least 1
-- and at most the maximum, if that holds of the default.
pub parse_int_query_bounds :
    (val : Str) (default_val max_val : ℕ)
    → 1 ≤ default_val
    → default_val ≤ max_val
    → (1 ≤ parse_int_query val default_val max_val)
      × (parse_int_query val default_val max_val ≤ max_val)
unfolding parse_int_query
parse_int_query_bounds [] default_val max_val h k = (h, k)
parse_int_query_bounds (c ∷ val) default_val max_val h k =
    clamped_bounds default_val max_val (digits 0 (c ∷ val)) h k

pub dispatched-store :
    (d : Option DispatchOutside) (event : Registration.Event) (s : Site)
    → (dispatched d event s).store ≡ s.store
dispatched-store none event s = refl
dispatched-store (some d) event s = refl

-- The rows of the other workspaces.
abbrev pub foreign_rows : Str → Site → List Url
foreign_rows workspace_id s = where_rows (is_foreign workspace_id) s.store.primary

foreign_rows-store :
    (workspace_id : Str) (s s' : Site)
    → s'.store ≡ s.store
    → foreign_rows workspace_id s' ≡ foreign_rows workspace_id s
foreign_rows-store workspace_id s s' h =
    ap (λ (t : Store). where_rows (is_foreign workspace_id) t.primary) h

updated-foreign :
    (base_url : Str) (w : UrlOutside) (c : Context) (s : Site) (claims : Claims) (url_id : Str)
    (req : UpdateUrlRequest) (r : Result AppErr (UrlResult × Store))
    → update_url base_url w.manage s.store (update_command claims url_id req) ≡ r
    → foreign_rows claims.workspace_id (updated w c s r).1 ≡ foreign_rows claims.workspace_id s
updated-foreign base_url w c s claims url_id req (err e) h = refl
updated-foreign base_url w c s claims url_id req (ok (r, store)) h =
    let cmd = update_command claims url_id req in
    let done = update_url-IsUpdated base_url w.manage s.store cmd r store h in
    let own : done.u.workspace_id ≡ claims.workspace_id =
      (get_by_id-eq-ok s.store.replica url_id claims.workspace_id done.u (
        get_by_id-of-fault w.manage.read_fault s.store.replica url_id claims.workspace_id done.u
          done.read)).3 in
    foreign_rows-store claims.workspace_id (record s { store = store })
      (dispatched w.dispatcher (updated_event r) (record s { store = store }))
      (dispatched-store w.dispatcher (updated_event r) (record s { store = store }))
    ∙ subst
        (λ id.
          where_rows (is_foreign id) store.primary ≡ where_rows (is_foreign id) s.store.primary)
        own
        (writes_foreign w.manage.write_fault s.store.primary store.primary
          (changed cmd done.u w.manage.now) w.manage.now (inl done.written))

removed-foreign :
    (w : UrlOutside) (c : Context) (s : Site) (claims : Claims) (url_id : Str)
    (r : Result AppErr Store)
    → delete_url w.manage s.store url_id claims.workspace_id ≡ r
    → foreign_rows claims.workspace_id (removed w c s claims url_id r).1
      ≡ foreign_rows claims.workspace_id s
removed-foreign w c s claims url_id (err e) h = refl
removed-foreign w c s claims url_id (ok store) h =
    let done = delete_url-IsDeleted w.manage s.store url_id claims.workspace_id store h in
    foreign_rows-store claims.workspace_id (record s { store = store })
      (dispatched w.dispatcher (deleted_event claims url_id) (record s { store = store }))
      (dispatched-store w.dispatcher (deleted_event claims url_id) (record s { store = store }))
    ∙ writes_foreign w.manage.write_fault s.store.primary store.primary
        (record done.u { id = url_id; workspace_id = claims.workspace_id }) w.manage.now
        (inr done.written)

body-foreign :
    (base_url : Str) (w : UrlOutside) (c : Context) (s : Site) (claims : Claims) (url_id : Str)
    (body : Option UpdateUrlRequest)
    → foreign_rows claims.workspace_id
        (with_body c s body (λ req.
          updated w c s
            (update_url base_url w.manage s.store (update_command claims url_id req)))).1
      ≡ foreign_rows claims.workspace_id s
body-foreign base_url w c s claims url_id none = refl
body-foreign base_url w c s claims url_id (some req) =
    updated-foreign base_url w c s claims url_id req _ refl

-- A PATCH or a DELETE of a caller, whatever the request names and however it ends, leaves the rows of
-- all workspaces but that of the caller's claims as they were.
pub requests_foreign :
    (base_url : Str) (w : UrlOutside) (claims : Claims) (path : Str) (pending : Option Audit.Event)
    (s : Site) (url_id : Str) (body : Option UpdateUrlRequest)
    → (foreign_rows claims.workspace_id
          (patch_url base_url w
            (record { claims = some claims; path = path; pending = pending })
            s
            url_id
            body).1
        ≡ foreign_rows claims.workspace_id s)
      × (foreign_rows claims.workspace_id
            (remove_url w
              (record { claims = some claims; path = path; pending = pending })
              s
              url_id).1
          ≡ foreign_rows claims.workspace_id s)
unfolding patch_url remove_url
requests_foreign base_url w claims path pending s url_id body =
    let c : Context = record { claims = some claims; path = path; pending = pending } in
    (body-foreign base_url w c s claims url_id body, removed-foreign w c s claims url_id _ refl)
