-- ===== src/Handlers/Urls/Expiry.antt =====
-- What a PATCH does to the expiry of a URL.
use usp_cloud_native.Prelude.{
  ℕ, Str, ◌||◌, false, if◌then◌else◌, Option, none, some, Result, ok, err, ◌≡◌, ◌≢◌, refl, sym, ap,
  ◌∙◌,
}
use usp_cloud_native.Errors.{AppErr, not_found, url_expired, validation}
use usp_cloud_native.Urls.Entity.{Url}
use usp_cloud_native.Urls.Repository.{get_by_id}
use usp_cloud_native.Urls.Repository.Reads.{get_by_id-eq-ok, get_by_id-of-fault, get_by_id-update}
use usp_cloud_native.Urls.Store.{Store}
use usp_cloud_native.Access.Claims.{Claims}
use usp_cloud_native.Manage.{UrlResult, to_url_result, changed, given, update_url}
use usp_cloud_native.Manage.Laws.{update_url-IsUpdated}
use usp_cloud_native.Audit.Event as Audit
use usp_cloud_native.Audit.Event.{text, resource_url, annotate_context, action_auth_failed}
use usp_cloud_native.Handlers.Response.{json, Context}
use usp_cloud_native.Handlers.Urls.{
  is_given, updated_event, Site, UrlOutside, UrlResponse, to_url_response, url_error,
  UpdateUrlRequest, update_command, dispatched, updated, patch_url,
}
use usp_cloud_native.Handlers.Urls.Laws.{dispatched-store}

module _ (path : Str) (status : ℕ) (r : UrlResponse) where
  url_error-ne-json : (e : AppErr) → url_error path e ≢ json status r
  url_error-ne-json not_found h = cc
  url_error-ne-json url_expired h = cc
  url_error-ne-json AppErr.url_disabled h = cc
  url_error-ne-json AppErr.url_blocked h = cc
  url_error-ne-json AppErr.short_code_conflict h = cc
  url_error-ne-json AppErr.unauthorized h = cc
  url_error-ne-json AppErr.unauthenticated h = cc
  url_error-ne-json (validation why) h = cc
  url_error-ne-json (AppErr.wrapped e) h = cc
  url_error-ne-json AppErr.random h = cc

-- The expiry that the command gives is one, or that of the row stays.
kept_expiry :
    (o e : Option ℕ) → e ≢ none → given (if is_given o || false then some o else none) e ≢ none
kept_expiry none e h = h
kept_expiry (some at) e h = λ k. cc

updated-expiry :
    (base_url : Str) (w : UrlOutside) (c : Context) (s : Site) (claims : Claims) (url_id : Str)
    (req : UpdateUrlRequest) (u : Url) (r : UrlResponse) (res : Result AppErr (UrlResult × Store))
    → get_by_id w.manage.read_fault s.store.replica url_id claims.workspace_id ≡ ok u
    → u.expires_at ≢ none
    → update_url base_url w.manage s.store (update_command claims url_id req) ≡ res
    → (updated w c s res).0 ≡ json 200 r
    → r.expires_at ≢ none
unfolding to_url_result
updated-expiry base_url w c s claims url_id req u r (err e) read set h k =
    absurd (url_error-ne-json c.path 200 r e k)
updated-expiry base_url w c s claims url_id req u r (ok (v, store)) read set h k =
    let cmd = update_command claims url_id req in
    let done = update_url-IsUpdated base_url w.manage s.store cmd v store h in
    let same : r ≡ to_url_response v = cc in
    let row : done.u ≡ u = cc (done.read) in
    λ gone. kept_expiry req.expires_at u.expires_at set (
      ap (λ (x : Url). given cmd.expires_at x.expires_at) (sym row)
      ∙ sym (ap (λ (x : UrlResult). x.expires_at) done.answer)
      ∙ sym (ap (λ (x : UrlResponse). x.expires_at) same)
      ∙ gone)

-- The row that was written has the expiry of the answer.
updated-stored :
    (base_url : Str) (w : UrlOutside) (c : Context) (s : Site) (claims : Claims) (url_id : Str)
    (req : UpdateUrlRequest) (v : Url) (r : UrlResponse) (res : Result AppErr (UrlResult × Store))
    → update_url base_url w.manage s.store (update_command claims url_id req) ≡ res
    → (updated w c s res).0 ≡ json 200 r
    → get_by_id none (updated w c s res).1.store.primary url_id claims.workspace_id ≡ ok v
    → v.expires_at ≡ r.expires_at
unfolding to_url_result
updated-stored base_url w c s claims url_id req v r (err e) h k read =
    absurd (url_error-ne-json c.path 200 r e k)
updated-stored base_url w c s claims url_id req v r (ok (x, store)) h k read =
    let cmd = update_command claims url_id req in
    let done = update_url-IsUpdated base_url w.manage s.store cmd x store h in
    let u = changed cmd done.u w.manage.now in
    let keys = get_by_id-eq-ok s.store.replica url_id claims.workspace_id done.u (
      get_by_id-of-fault w.manage.read_fault s.store.replica url_id claims.workspace_id done.u
        done.read) in
    let kept : (dispatched w.dispatcher (updated_event x) (record s { store = store })).store
        ≡ store =
      dispatched-store w.dispatcher (updated_event x) (record s { store = store }) in
    let there : get_by_id none store.primary u.id u.workspace_id ≡ ok v =
      rw (keys.2, keys.3) (rw kept at read) in
    let same : r ≡ to_url_response x = cc in
    get_by_id-update w.manage.write_fault s.store.primary store.primary u w.manage.now v
      done.written there
    ∙ ap (λ (y : UrlResult). y.expires_at) (sym done.answer)
    ∙ ap (λ (y : UrlResponse). y.expires_at) (sym same)

-- A PATCH that is answered with 200 never removes an expiry, whatever the body says of it: where the
-- replica shows the URL with an expiry, the answer has one, and the row of the primary, if a lookup
-- finds it afterwards, has the expiry of the answer.
pub patch_url-keeps_expiry :
    (base_url : Str) (w : UrlOutside) (claims : Claims) (path : Str) (pending : Option Audit.Event)
    (s : Site) (url_id : Str) (req : UpdateUrlRequest) (u v : Url) (r : UrlResponse)
    → get_by_id w.manage.read_fault s.store.replica url_id claims.workspace_id ≡ ok u
    → u.expires_at ≢ none
    → (patch_url base_url w
        (record { claims = some claims; path = path; pending = pending })
        s
        url_id
        (some req)).0
      ≡ json 200 r
    → get_by_id none
        (patch_url base_url w
          (record { claims = some claims; path = path; pending = pending })
          s
          url_id
          (some req)).1.store.primary
        url_id
        claims.workspace_id
      ≡ ok v
    → (r.expires_at ≢ none) × (v.expires_at ≡ r.expires_at)
unfolding patch_url
patch_url-keeps_expiry base_url w claims path pending s url_id req u v r read set h there =
    let c : Context = record { claims = some claims; path = path; pending = pending } in
    (
      updated-expiry base_url w c s claims url_id req u r _ read set refl h,
      updated-stored base_url w c s claims url_id req v r _ refl h there,
    )
