-- ===== src/Workspaces/Membership.antt =====
-- The use cases of internal/application/workspace: create_handler.go, membership_handler.go and
-- get_handler.go. A validation error keeps no text; RFC 3339 times are kept as numbers.
pub mod Laws
use usp_cloud_native.Prelude.{
  ℕ, Str, codes, str_eq, is_empty, length, ltb, leb, to_lower, Bool, true, false, not,
  if◌then◌else◌, List, [], ◌∷◌, Result, ok, err, ◌>>=◌, ◌>>◌, reject_if,
}
use usp_cloud_native.Workspaces.Roles.{role_owner, action_manage_members, can, is_valid_role}
use usp_cloud_native.Workspaces.Slug.{generate_slug}
use usp_cloud_native.Workspaces.Entity.{
  Workspace, Member, WorkspaceErr, is_not_found, is_conflict, validate_workspace, validate_member,
}
use usp_cloud_native.Workspaces.Entity as Entity
use usp_cloud_native.Workspaces.Repository.{
  Tables, create, get_by_id, count_owned_by_user, add_member, get_member,
}

-- The primary and the replica.
pub record Store : Type 0 where
  pub primary : Tables
  pub replica : Tables

pub data UseCaseErr : Type 0 where
  -- A validation error with the use case's own reason, or with the entity's.
  invalid : UseCaseErr
  entity : WorkspaceErr → UseCaseErr
  conflict unauthorized not_member not_found : UseCaseErr
  wrapped : WorkspaceErr → UseCaseErr

-- What happens outside: a lost connection at the first read, at a later read and at the write, the
-- time, and the identifier that is drawn.
pub record Outside : Type 0 where
  pub first_lost : Bool
  pub read_lost : Bool
  pub write_lost : Bool
  pub now : ℕ
  pub new_id : Str

-- An error as the use case reports it.
abbrev pub or_else {ℓ} :
    {A : Type ℓ} → (WorkspaceErr → UseCaseErr) → Result WorkspaceErr A → Result UseCaseErr A
or_else f (ok a) = ok a
or_else f (err e) = err (f e)

abbrev pub max_workspaces_per_user : ℕ
max_workspaces_per_user = 5

pub record CreateCommand : Type 0 where
  pub name : Str
  pub slug : Str
  pub owner_id : Str

abbrev pub chosen_slug : CreateCommand → Str
chosen_slug cmd = if is_empty cmd.slug then generate_slug cmd.name else to_lower cmd.slug

abbrev pub new_workspace : Outside → CreateCommand → Workspace
new_workspace o cmd = record {
  id = o.new_id;
  name = cmd.name;
  slug = chosen_slug cmd;
  plan_tier = codes "free";
  owner_id = cmd.owner_id;
  created_at = o.now;
  updated_at = o.now;
}

abbrev pub owner_of : Outside → CreateCommand → Member
owner_of o cmd = record {
  workspace_id = o.new_id;
  user_id = cmd.owner_id;
  role = role_owner;
  invited_by = [];
  joined_at = o.now;
}

abbrev pub create_error : WorkspaceErr → UseCaseErr
create_error e = if is_conflict e then conflict else wrapped e

pub record CreateResult : Type 0 where
  pub id : Str
  pub name : Str
  pub slug : Str
  pub plan_tier : Str
  pub owner_id : Str
  pub created_at : ℕ

abbrev pub create_result : Workspace → CreateResult
create_result w = record {
  id = w.id;
  name = w.name;
  slug = w.slug;
  plan_tier = w.plan_tier;
  owner_id = w.owner_id;
  created_at = w.created_at;
}

unfoldable pub create_workspace :
    Outside → Store → CreateCommand → Result UseCaseErr (CreateResult × Store)
unfolding generate_slug to_lower count_owned_by_user validate_workspace create is_conflict
create_workspace o s cmd = do
  reject_if (is_empty cmd.name) invalid
  reject_if (ltb 100 (length cmd.name)) invalid
  reject_if (is_empty cmd.owner_id) invalid
  count ← or_else wrapped (count_owned_by_user o.first_lost s.replica cmd.owner_id)
  reject_if (leb max_workspaces_per_user count) invalid
  or_else entity (validate_workspace (new_workspace o cmd))
  t ← or_else create_error (create o.write_lost s.primary (new_workspace o cmd) (owner_of o cmd))
  ok (create_result (new_workspace o cmd), record s { primary = t })

pub record AddMemberCommand : Type 0 where
  pub workspace_id : Str
  pub invited_user_id : Str
  pub role : Str
  pub requesting_user_id : Str

abbrev pub new_member : Outside → AddMemberCommand → Member
new_member o cmd = record {
  workspace_id = cmd.workspace_id;
  user_id = cmd.invited_user_id;
  role = cmd.role;
  invited_by = cmd.requesting_user_id;
  joined_at = o.now;
}

pub record AddMemberResult : Type 0 where
  pub workspace_id : Str
  pub user_id : Str
  pub role : Str
  pub joined_at : ℕ

abbrev pub add_member_result : Member → AddMemberResult
add_member_result m = record {
  workspace_id = m.workspace_id;
  user_id = m.user_id;
  role = m.role;
  joined_at = m.joined_at;
}

-- A caller who is no member is not authorized; a second membership is a validation error.
abbrev pub caller_error : WorkspaceErr → UseCaseErr
caller_error e = if is_not_found e then unauthorized else wrapped e

abbrev pub add_error : WorkspaceErr → UseCaseErr
add_error e = if is_conflict e then entity e else wrapped e

unfoldable pub invite :
    Outside → Store → AddMemberCommand → Result UseCaseErr (AddMemberResult × Store)
unfolding is_valid_role get_member can validate_member add_member is_not_found is_conflict
invite o s cmd = do
  reject_if (not (is_valid_role cmd.role)) invalid
  reject_if (str_eq cmd.role role_owner) invalid
  caller ←
      or_else caller_error
        (get_member o.first_lost s.replica cmd.workspace_id cmd.requesting_user_id)
  reject_if (not (can caller.role action_manage_members)) unauthorized
  or_else entity (validate_member (new_member o cmd))
  t ← or_else add_error (add_member o.write_lost s.primary (new_member o cmd))
  ok (add_member_result (new_member o cmd), record s { primary = t })

abbrev pub member_error : WorkspaceErr → UseCaseErr
member_error e = if is_not_found e then not_member else wrapped e

abbrev pub get_error : WorkspaceErr → UseCaseErr
get_error e = if is_not_found e then not_found else wrapped e

-- What is known of the workspace, with the caller's role in it.
unfoldable pub get_workspace :
    Outside → Store → (workspace_id user_id : Str) → Result UseCaseErr (CreateResult × Str)
unfolding get_member get_by_id is_not_found
get_workspace o s workspace_id user_id = do
  member ← or_else member_error (get_member o.first_lost s.replica workspace_id user_id)
  w ← or_else get_error (get_by_id o.read_lost s.replica workspace_id)
  ok (create_result w, member.role)
