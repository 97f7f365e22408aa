-- ===== src/Handlers/Workspaces.antt =====
-- internal/interfaces/http/handler/workspace.go. Log lines are left out.
use usp_cloud_native.Prelude.{Str, codes, Bool, List, Option, some, [], ◌∷◌, Result, ok, err}
use usp_cloud_native.Workspaces.Membership.{
  Store, UseCaseErr, invalid, entity, conflict, unauthorized, Outside, CreateResult,
  create_workspace, AddMemberCommand, AddMemberResult, invite, get_workspace,
}
use usp_cloud_native.Workspaces.Lists.{ListResult, MemberResult, list_workspaces, read_members}
use usp_cloud_native.Access.Claims.{Claims}
use usp_cloud_native.Audit.Event.{
  Event, text, resource_workspace, resource_member, annotate_context,
}
use usp_cloud_native.Handlers.Response.{
  Response, json, unprocessable_entity, forbidden_problem, conflict_problem, internal_error,
  Context, with_claims, with_body,
}

pub record CreateWorkspaceRequest : Type 0 where
  pub name : Str
  pub slug : Str

pub record AddMemberRequest : Type 0 where
  pub user_id : Str
  pub role : Str

-- `writeError`; what is not found is no case of it.
abbrev pub workspace_error {ℓ} : {A : Type ℓ} → Str → UseCaseErr → Response A
workspace_error path invalid = unprocessable_entity path
workspace_error path (entity why) = unprocessable_entity path
workspace_error path unauthorized = forbidden_problem
workspace_error path conflict = conflict_problem path
workspace_error path _ = internal_error path

abbrev pub workspace_created :
    Context
    → Store
    → Result UseCaseErr (CreateResult × Store)
    → Response CreateResult × Store × Option Event
workspace_created c s (err e) = (workspace_error c.path e, s, c.pending)
workspace_created c s (ok (r, s')) = (
  json 201 r,
  s',
  annotate_context c.pending resource_workspace r.id
      (some ((codes "name", text r.name) ∷ (codes "slug", text r.slug) ∷ [])),
)

unfoldable pub post_workspace :
    Outside
    → Context
    → Store
    → Option CreateWorkspaceRequest
    → Response CreateResult × Store × Option Event
unfolding create_workspace annotate_context
post_workspace o c s body = with_claims c s (λ claims. with_body c s body (λ req.
    workspace_created c s (
      create_workspace o s
        (record { name = req.name; slug = req.slug; owner_id = claims.user_id }))))

abbrev pub workspace_read :
    Str → Result UseCaseErr (CreateResult × Str) → Response (CreateResult × Str)
workspace_read path (ok r) = json 200 r
workspace_read path (err e) = workspace_error path e

unfoldable pub read_workspace :
    Outside
    → Context
    → Store
    → (workspace_id : Str) → Response (CreateResult × Str) × Store × Option Event
unfolding get_workspace
read_workspace o c s workspace_id = with_claims c s (λ claims.
    (workspace_read c.path (get_workspace o s workspace_id claims.user_id), s, c.pending))

abbrev pub member_command : Claims → Str → AddMemberRequest → AddMemberCommand
member_command claims workspace_id req = record {
  workspace_id = workspace_id;
  invited_user_id = req.user_id;
  role = req.role;
  requesting_user_id = claims.user_id;
}

abbrev pub member_added :
    Context
    → Store
    → Claims
    → Str
    → Result UseCaseErr (AddMemberResult × Store)
    → Response AddMemberResult × Store × Option Event
member_added c s claims user_id (err e) = (workspace_error c.path e, s, c.pending)
member_added c s claims user_id (ok (r, s')) = (
  json 201 r,
  s',
  annotate_context c.pending resource_member user_id
      (some ((codes "role", text r.role) ∷ (codes "invited_by", text claims.user_id) ∷ [])),
)

unfoldable pub post_member :
    Outside
    → Context
    → Store
    → (workspace_id : Str) → Option AddMemberRequest
    → Response AddMemberResult × Store × Option Event
unfolding invite annotate_context
post_member o c s workspace_id body = with_claims c s (λ claims. with_body c s body (λ req.
    member_added c s claims req.user_id (invite o s (member_command claims workspace_id req))))

abbrev pub listed {ℓ} : {A : Type ℓ} → Str → Result UseCaseErr A → Response A
listed path (ok results) = json 200 results
listed path (err e) = workspace_error path e

unfoldable pub get_workspaces :
    Bool → (Str → Bool) → Context → Store → Response (List ListResult) × Store × Option Event
unfolding list_workspaces
get_workspaces lost member_lost c s =
    with_claims c s
      (λ claims. (listed c.path (list_workspaces lost member_lost s claims.user_id), s, c.pending))

unfoldable pub get_members :
    Bool
    → Bool
    → Context
    → Store
    → (workspace_id : Str) → Response (List MemberResult) × Store × Option Event
unfolding read_members
get_members caller_lost lost c s workspace_id = with_claims c s (λ claims.
    (listed c.path (read_members caller_lost lost s workspace_id claims.user_id), s, c.pending))
