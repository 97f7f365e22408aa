-- ===== src/Access/WorkspaceAuth.antt =====
-- internal/interfaces/http/middleware/workspace.go, and the chain of the middleware in front of the
-- handlers in cmd/api/main.go. A refusal is its status.
pub mod Laws
use usp_cloud_native.Prelude.{
  ℕ, Str, Bool, true, false, not, if◌then◌else◌, Option, none, some, Result, ok, err, ◌>>=◌, ◌>>◌,
  reject_if,
}
use usp_cloud_native.Workspaces.Roles.{can}
use usp_cloud_native.Workspaces.Entity.{Member, WorkspaceErr, is_not_found}
use usp_cloud_native.Workspaces.Repository.{Tables, get_member}
use usp_cloud_native.ApiKeys.Repository.{Table}
use usp_cloud_native.Access.Claims.{Claims}
use usp_cloud_native.Access.ApiKeyAuth.{Request, Passed, next, refused, Outside, api_key_auth}
use usp_cloud_native.Access.Authenticate.{AuthErr, Config, authenticate}

abbrev pub member_status : WorkspaceErr → ℕ
member_status e = if is_not_found e then 403 else 500

abbrev pub found_member : Result WorkspaceErr Member → Result ℕ Member
found_member (ok m) = ok m
found_member (err e) = err (member_status e)

abbrev pub member_of : Bool → Tables → Option Claims → Result ℕ Member
member_of lost t none = err 401
member_of lost t (some c) = found_member (get_member lost t c.workspace_id c.user_id)

-- The member that the context of the request has from here on.
unfoldable pub workspace_auth : Bool → Tables → Request → Result ℕ Member
unfolding get_member is_not_found
workspace_auth lost t r = member_of lost t r.claims

-- Without a member in the context the answer is 500.
unfoldable pub require_action : Str → Option Member → Result ℕ (Unit {0})
unfolding can
require_action action none = err 500
require_action action (some m) = reject_if (not (can m.role action)) 403

abbrev pub passed : Passed → Result ℕ Request
passed (next r) = ok r
passed (refused status) = err status

abbrev pub authenticated : Result AuthErr Request → Result ℕ Request
authenticated (ok r) = ok r
authenticated (err e) = err 401

-- What the router of cmd/api/main.go puts in front of a route below `/api/v1/workspaces/{workspaceID}`
-- that asks for an action. A middleware whose part is not configured is left out of the chain.
abbrev pub keyed : Outside → Option Table → Request → Result ℕ Request
keyed o none r = ok r
keyed o (some keys) r = passed (api_key_auth o keys r)

abbrev pub known : Option Config → ℕ → Request → Result ℕ Request
known none now r = ok r
known (some config) now r = authenticated (authenticate config r now)

abbrev pub some_member : Result ℕ Member → Result ℕ (Option Member)
some_member (ok m) = ok (some m)
some_member (err status) = err status

abbrev pub joined : Bool → Option Tables → Request → Result ℕ (Option Member)
joined lost none r = ok none
joined lost (some t) r = some_member (workspace_auth lost t r)

-- The key, the token, the workspace and the role. `lost` is whether the lookup of the member fails. The
-- handler gets the request and the member.
unfoldable pub protected :
    Outside
    → Option Config
    → Bool
    → Option Table
    → Option Tables
    → (action : Str) → Request
    → Result ℕ (Request × Option Member)
unfolding api_key_auth authenticate workspace_auth require_action
protected o config lost keys t action r = do
  r₁ ← keyed o keys r
  r₂ ← known config o.now r₁
  m ← joined lost t r₂
  require_action action m
  ok (r₂, m)
