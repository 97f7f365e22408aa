-- ===== src/Workspaces/Repository.antt =====
-- internal/infrastructure/postgres/workspace_repository.go over the tables of
-- deployments/migrations/000002_create_workspaces.up.sql. Reads go to the replica, writes to the
-- primary. The two sorted lists stand in Workspaces/Lists.
pub mod Laws
use usp_cloud_native.Prelude.{
  ℕ, zero, suc, Str, codes, str_eq, leb, ltb, ◌==◌, Bool, true, false, not, ◌&&◌, ◌||◌,
  if◌then◌else◌, Option, none, some, List, [], ◌∷◌, ◌++◌, any, first, where_rows, update_rows,
  count_rows, Result, ok, err, ◌>>=◌,
}
use usp_cloud_native.Urls.Repository.{char_length}
use usp_cloud_native.Workspaces.Slug.{matches_slug_pattern}
use usp_cloud_native.Workspaces.Roles.{is_valid_role}
use usp_cloud_native.Workspaces.Entity.{
  Workspace, Member, WorkspaceErr, not_found, slug_conflict, name_conflict, member_not_found,
  member_already_exists, server,
}

pub record Tables : Type 0 where
  pub workspaces : List Workspace
  pub members : List Member

abbrev pub is_member : Str → Str → Member → Bool
is_member workspace_id user_id m = str_eq m.workspace_id workspace_id && str_eq m.user_id user_id

-- The check constraints on a workspace.
unfoldable pub workspace_ok : Workspace → Bool
unfolding matches_slug_pattern
workspace_ok w =
    (matches_slug_pattern w.slug || (char_length w.slug == 1))
    && ((str_eq w.plan_tier (codes "free")
          || (str_eq w.plan_tier (codes "pro") || str_eq w.plan_tier (codes "enterprise")))
        && ((ltb 0 (char_length w.name) && leb (char_length w.name) 100)
            && (ltb 0 (char_length w.slug) && leb (char_length w.slug) 63)))

-- `isConstraintError` looks for the constraint's name in the server's message.
abbrev pub insert_workspace : Tables → Workspace → Result WorkspaceErr Tables
insert_workspace t w =
    if not (workspace_ok w)
    then err server
    else if any (λ v. str_eq v.id w.id) t.workspaces
    then err server
    else if any (λ v. str_eq v.name w.name) t.workspaces
    then err name_conflict
    else if any (λ v. str_eq v.slug w.slug) t.workspaces
    then err slug_conflict
    else ok (record t { workspaces = t.workspaces ++ w ∷ [] })

-- The check on the role, the primary key, and the reference to the workspace.
abbrev pub insert_member : Tables → Member → Result WorkspaceErr Tables
insert_member t m =
    if not (is_valid_role m.role)
    then err server
    else if any (is_member m.workspace_id m.user_id) t.members
    then err member_already_exists
    else if not (any (λ w. str_eq w.id m.workspace_id) t.workspaces)
    then err server
    else ok (record t { members = t.members ++ m ∷ [] })

-- A fault of the server comes before the statement, or the transaction, has an effect.
abbrev pub unless {ℓ} : {A : Type ℓ} → Bool → Result WorkspaceErr A → Result WorkspaceErr A
unless true r = err server
unless false r = r

-- One transaction: without the second row the first is not kept.
unfoldable pub create : Bool → Tables → Workspace → Member → Result WorkspaceErr Tables
unfolding workspace_ok is_valid_role
create lost t w owner_member =
    unless lost (insert_workspace t w >>= λ t'. insert_member t' owner_member)

abbrev row_or {ℓ} : {A : Type ℓ} → WorkspaceErr → Option A → Result WorkspaceErr A
row_or e none = err e
row_or e (some a) = ok a

unfoldable pub get_by_id : Bool → Tables → Str → Result WorkspaceErr Workspace
get_by_id lost t id = unless lost (row_or not_found (first (λ w. str_eq w.id id) t.workspaces))

unfoldable pub get_by_slug : Bool → Tables → Str → Result WorkspaceErr Workspace
get_by_slug lost t slug =
    unless lost (row_or not_found (first (λ w. str_eq w.slug slug) t.workspaces))

unfoldable pub count_owned_by_user : Bool → Tables → Str → Result WorkspaceErr ℕ
count_owned_by_user lost t user_id =
    unless lost (ok (count_rows (λ w. str_eq w.owner_id user_id) t.workspaces))

unfoldable pub add_member : Bool → Tables → Member → Result WorkspaceErr Tables
unfolding is_valid_role
add_member lost t m = unless lost (insert_member t m)

unfoldable pub get_member : Bool → Tables → Str → Str → Result WorkspaceErr Member
get_member lost t workspace_id user_id =
    unless lost (row_or member_not_found (first (is_member workspace_id user_id) t.members))

-- `RowsAffected() == 0`
abbrev touched : ℕ → Tables → Result WorkspaceErr Tables
touched zero t = err member_not_found
touched (suc n) t = ok t

unfoldable pub update_role : Bool → Tables → Str → Str → Str → Result WorkspaceErr Tables
unfolding is_valid_role
update_role lost t workspace_id user_id role =
    let here = is_member workspace_id user_id in
    unless lost (
      if any here t.members && not (is_valid_role role)
      then err server
      else touched (count_rows here t.members)
          (record t { members = update_rows here (λ m. record m { role = role }) t.members }))

unfoldable pub remove_member : Bool → Tables → Str → Str → Result WorkspaceErr Tables
remove_member lost t workspace_id user_id =
    let here = is_member workspace_id user_id in
    unless lost (
      touched (count_rows here t.members)
        (record t { members = where_rows (λ m. not (here m)) t.members }))
