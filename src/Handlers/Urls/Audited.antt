-- ===== src/Handlers/Urls/Audited.antt =====
-- What an audited DELETE of a URL tells the audit.
use usp_cloud_native.Prelude.{
  ◌&&◌, ℕ, ◌+◌, ◌++◌, ltb, length, ◌==◌, Str, codes, is_empty, false, not, if◌then◌else◌, Option,
  some, [], ◌∷◌, Result, ok, err, ◌≡◌, refl,
}
use usp_cloud_native.Errors.{AppErr, not_found, url_expired, validation}
use usp_cloud_native.Urls.Store.{Store}
use usp_cloud_native.Access.Claims.{Claims}
use usp_cloud_native.Manage.{delete_url}
use usp_cloud_native.Audit.Event as Audit
use usp_cloud_native.Audit.Event.{text, resource_url, annotate_context, action_auth_failed}
use usp_cloud_native.Audit.Service as Service
use usp_cloud_native.Audit.Service.{capture}
use usp_cloud_native.Audit.Middleware as Middleware
use usp_cloud_native.Audit.Middleware.{
  is_success, is_auth_failure, sent, pending_event, audit_action,
}
use usp_cloud_native.Handlers.Response.{status_of}
use usp_cloud_native.Handlers.Urls.{Site, UrlOutside, url_error, removed, remove_url}

-- The event of the audit of a DELETE of a URL by a caller.
abbrev pub deletion_event : Service.Outside → Str → Middleware.Request → Claims → Str → Audit.Event
deletion_event o action q claims url_id = record (pending_event o action q) {
  resource_type = resource_url;
  resource_id = url_id;
  metadata = (codes "deleted_by", text claims.user_id) ∷ [];
}

-- The handler as the audit middleware runs it.
abbrev pub audited_delete :
    UrlOutside
    → Claims
    → (path : Str) → Site
    → Str
    → Option Audit.Event
    → ℕ × Option Audit.Event × Site
audited_delete w claims path s url_id pending =
    let (response, s', annotated) =
      remove_url w (record { claims = some claims; path = path; pending = pending }) s url_id in
    (status_of response, annotated, s')

-- What the middleware does after the handler.
abbrev finished : Str → Service.State → ℕ → Option Audit.Event → Service.State
finished action service status annotated =
    if not (is_success status) && not (is_auth_failure action)
    then service
    else sent action annotated service

-- A status that is no success leaves the service alone.
finished_error :
    (path action : Str) (service : Service.State) (annotated : Option Audit.Event)
    (d : Service.State) (e : AppErr)
    → is_auth_failure action ≡ false
    → finished action service (status_of {A = Unit {0}} (url_error path e)) annotated
      ≡ (if status_of {A = Unit {0}} (url_error path e) == 204 then d else service)
finished_error path action service annotated d not_found h = rw h refl
finished_error path action service annotated d url_expired h = rw h refl
finished_error path action service annotated d AppErr.url_disabled h = rw h refl
finished_error path action service annotated d AppErr.url_blocked h = rw h refl
finished_error path action service annotated d AppErr.short_code_conflict h = rw h refl
finished_error path action service annotated d AppErr.unauthorized h = rw h refl
finished_error path action service annotated d AppErr.unauthenticated h = rw h refl
finished_error path action service annotated d (validation why) h = rw h refl
finished_error path action service annotated d (AppErr.wrapped e) h = rw h refl
finished_error path action service annotated d AppErr.random h = rw h refl

removed-finished :
    (w : UrlOutside) (claims : Claims) (path : Str) (s : Site) (url_id : Str) (o : Service.Outside)
    (action : Str) (q : Middleware.Request) (service : Service.State) (r : Result AppErr Store)
    → is_empty url_id ≡ false
    → is_auth_failure action ≡ false
    → (let (response, s', annotated) =
          removed w
            (record {
              claims = some claims;
              path = path;
              pending = some (pending_event o action q);
            })
            s
            claims
            url_id
            r in
        finished action service (status_of response) annotated ≡ (
          if status_of response == 204
          then capture (deletion_event o action q claims url_id) service
          else service))
unfolding annotate_context
removed-finished w claims path s url_id o action q service (err e) named acts =
    finished_error path action service (some (pending_event o action q))
      (capture (deletion_event o action q claims url_id) service) e acts
removed-finished w claims path s url_id o action q service (ok store) named acts = rw named refl

-- A DELETE of a URL whose id is not empty, audited under another action than that of a failed
-- authentication, changes the audit's service exactly if it is answered with 204: it adds one
-- event at the end of the channel, with the URL as its resource and the caller as the one who deleted
-- it, or, if the channel holds 2048 events, counts one more as dropped.
pub audit_action-remove_url :
    (w : UrlOutside) (claims : Claims) (path : Str) (s : Site) (url_id : Str) (o : Service.Outside)
    (action : Str) (q : Middleware.Request) (service : Service.State)
    → is_empty url_id ≡ false
    → is_auth_failure action ≡ false
    → (audit_action o action q service (audited_delete w claims path s url_id)).0 ≡ (
        if (audit_action o action q service (audited_delete w claims path s url_id)).1 == 204
        then (if ltb (length service.channel) 2048
            then record service {
              channel = service.channel ++ deletion_event o action q claims url_id ∷ [];
            }
            else record service { dropped_events = service.dropped_events + 1 })
        else service)
unfolding audit_action remove_url capture
audit_action-remove_url w claims path s url_id o action q service named acts =
    removed-finished w claims path s url_id o action q service
      (delete_url w.manage s.store url_id claims.workspace_id) named acts
