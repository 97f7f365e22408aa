-- ===== src/Workspaces/Entity.antt =====
-- The entities of internal/domain/workspace/entity.go with the errors of errors.go beside it.
use usp_cloud_native.Prelude.{
  ℕ, Str, is_empty, length, ltb, Bool, true, false, not, Result, ◌>>◌, reject_if,
}
use usp_cloud_native.Workspaces.Roles.{is_valid_role}
use usp_cloud_native.Workspaces.Slug.{matches_slug_pattern}

pub data WorkspaceErr : Type 0 where
  not_found name_required name_too_long slug_required slug_too_long slug_invalid : WorkspaceErr
  slug_conflict name_conflict owner_id_required : WorkspaceErr
  user_id_required workspace_id_required invalid_role : WorkspaceErr
  member_not_found member_already_exists : WorkspaceErr
  -- What `translateError` makes of the server's other errors.
  server : WorkspaceErr

unfoldable pub is_not_found : WorkspaceErr → Bool
is_not_found not_found = true
is_not_found member_not_found = true
is_not_found _ = false

unfoldable pub is_conflict : WorkspaceErr → Bool
is_conflict slug_conflict = true
is_conflict name_conflict = true
is_conflict member_already_exists = true
is_conflict _ = false

pub record Workspace : Type 0 where
  pub id : Str
  pub name : Str
  pub slug : Str
  pub plan_tier : Str
  pub owner_id : Str
  pub created_at : ℕ
  pub updated_at : ℕ

-- `invited_by` is empty for the owner.
pub record Member : Type 0 where
  pub workspace_id : Str
  pub user_id : Str
  pub role : Str
  pub invited_by : Str
  pub joined_at : ℕ

unfoldable pub validate_workspace : Workspace → Result WorkspaceErr (Unit {0})
validate_workspace w =
    reject_if (is_empty w.name) name_required
    >> reject_if (ltb 100 (length w.name)) name_too_long
    >> reject_if (is_empty w.slug) slug_required
    >> reject_if (ltb 63 (length w.slug)) slug_too_long
    >> reject_if (not (matches_slug_pattern w.slug)) slug_invalid
    >> reject_if (is_empty w.owner_id) owner_id_required

unfoldable pub validate_member : Member → Result WorkspaceErr (Unit {0})
validate_member m =
    reject_if (is_empty m.workspace_id) workspace_id_required
    >> reject_if (is_empty m.user_id) user_id_required
    >> reject_if (not (is_valid_role m.role)) invalid_role
