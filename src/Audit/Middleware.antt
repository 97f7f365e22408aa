-- ===== src/Audit/Middleware.antt =====
-- internal/interfaces/http/middleware/audit.go. The next handler is given the pending event and returns
-- the status that it wrote, the event as it annotated it, and what else it changed.
use usp_cloud_native.Prelude.{
  ℕ, Str, str_eq, is_empty, leb, ltb, Bool, not, ◌&&◌, ◌||◌, if◌then◌else◌, Option, none, some, [],
}
use usp_cloud_native.Access.Claims.{Claims}
use usp_cloud_native.Audit.Event.{Event, action_auth_failed}
use usp_cloud_native.Audit.Service.{Outside, State, capture, build_event}

-- What the middleware reads of a request.
pub record Request : Type 0 where
  pub claims : Option Claims
  pub remote_addr : Str
  pub user_agent : Str
  pub request_id : Str

abbrev pub is_success : ℕ → Bool
is_success status = leb 200 status && ltb status 300

abbrev pub is_auth_failure : Str → Bool
is_auth_failure action = str_eq action action_auth_failed

abbrev pub pending_event : Outside → Str → Request → Event
pending_event o action r =
    build_event o r.claims action [] [] r.remote_addr r.user_agent r.request_id []

-- An event that has no resource is not sent.
abbrev pub sent : Str → Option Event → State → State
sent action none s = s
sent action (some e) s =
    if not (is_empty e.resource_id) || is_auth_failure action then capture e s else s

unfoldable pub audit_action {ℓ} :
    {A : Type ℓ}
    → Outside
    → Str
    → Request
    → State
    → (Option Event → ℕ × Option Event × A)
    → State × ℕ × A
unfolding build_event capture
audit_action o action r s next =
    let (status, annotated, a) = next (some (pending_event o action r)) in
    (
      if not (is_success status) && not (is_auth_failure action)
          then s
          else sent action annotated s,
      status,
      a,
    )
