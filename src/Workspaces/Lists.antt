-- ===== src/Workspaces/Lists.antt =====
-- The two sorted lists of internal/infrastructure/postgres/workspace_repository.go (`ListForUser`,
-- `ListMembers`), and the use cases on them: `ListHandler` of
-- internal/application/workspace/get_handler.go and `ListMembersHandler` of membership_handler.go.
pub mod Laws
use usp_cloud_native.Prelude.{
  ℕ, Str, leb, ltb, any, where_rows, Bool, true, false, not, ◌&&◌, if◌then◌else◌, List, [], ◌∷◌,
  map, Result, ok, err, ◌>>=◌, ◌>>◌, reject_if, str_eq,
}
use usp_cloud_native.Workspaces.Roles.{action_view_members, can}
use usp_cloud_native.Workspaces.Entity.{Workspace, Member, WorkspaceErr, is_not_found}
use usp_cloud_native.Workspaces.Repository.{Tables, is_member, unless, get_member}
use usp_cloud_native.Workspaces.Membership.{
  Store, UseCaseErr, wrapped, unauthorized, or_else, caller_error,
}

-- `ORDER BY created_at DESC`
abbrev pub insert_newest : Workspace → List Workspace → List Workspace
insert_newest w [] = w ∷ []
insert_newest w (v ∷ rest) =
    let later = insert_newest w rest in
    if leb v.created_at w.created_at then w ∷ v ∷ rest else v ∷ later

abbrev pub newest_first : List Workspace → List Workspace
newest_first [] = []
newest_first (w ∷ rest) = insert_newest w (newest_first rest)

-- The join; the primary key of the members lets a workspace appear once.
unfoldable pub list_for_user : Bool → Tables → Str → Result WorkspaceErr (List Workspace)
list_for_user lost t user_id =
    unless lost
      (ok (newest_first (where_rows (λ w. any (is_member w.id user_id) t.members) t.workspaces)))

-- `ORDER BY joined_at ASC`
abbrev pub insert_earliest : Member → List Member → List Member
insert_earliest m [] = m ∷ []
insert_earliest m (n ∷ rest) =
    let later = insert_earliest m rest in
    if leb m.joined_at n.joined_at then m ∷ n ∷ rest else n ∷ later

abbrev pub earliest_first : List Member → List Member
earliest_first [] = []
earliest_first (m ∷ rest) = insert_earliest m (earliest_first rest)

unfoldable pub list_members : Bool → Tables → Str → Result WorkspaceErr (List Member)
list_members lost t workspace_id =
    unless lost
      (ok (earliest_first (where_rows (λ m. str_eq m.workspace_id workspace_id) t.members)))

pub record ListResult : Type 0 where
  pub id : Str
  pub name : Str
  pub slug : Str
  pub plan_tier : Str
  pub user_role : Str

abbrev pub list_result : Workspace → Member → ListResult
list_result w m = record {
  id = w.id;
  name = w.name;
  slug = w.slug;
  plan_tier = w.plan_tier;
  user_role = m.role;
}

abbrev pub append_result :
    Workspace → Result WorkspaceErr Member → List ListResult → List ListResult
append_result w (ok m) results = list_result w m ∷ results
append_result w (err e) results = results

-- The loop, which passes over a workspace whose membership cannot be read. `member_lost` says for which
-- workspaces that read fails. All reads see the replica in one state, though they are separate queries.
abbrev pub list_results : (Str → Bool) → Tables → Str → List Workspace → List ListResult
list_results member_lost t user_id [] = []
list_results member_lost t user_id (w ∷ rest) =
    append_result w (get_member (member_lost w.id) t w.id user_id)
      (list_results member_lost t user_id rest)

unfoldable pub list_workspaces :
    Bool → (Str → Bool) → Store → Str → Result UseCaseErr (List ListResult)
unfolding list_for_user get_member
list_workspaces lost member_lost s user_id = do
  workspaces ← or_else wrapped (list_for_user lost s.replica user_id)
  ok (list_results member_lost s.replica user_id workspaces)

pub record MemberResult : Type 0 where
  pub user_id : Str
  pub role : Str
  pub joined_at : ℕ
  pub invited_by : Str

abbrev pub member_result : Member → MemberResult
member_result m = record {
  user_id = m.user_id;
  role = m.role;
  joined_at = m.joined_at;
  invited_by = m.invited_by;
}

unfoldable pub read_members :
    Bool
    → Bool
    → Store
    → (workspace_id requesting_user_id : Str) → Result UseCaseErr (List MemberResult)
unfolding get_member is_not_found can list_members
read_members caller_lost lost s workspace_id requesting_user_id = do
  requesting ←
      or_else caller_error (get_member caller_lost s.replica workspace_id requesting_user_id)
  reject_if (not (can requesting.role action_view_members)) unauthorized
  members ← or_else wrapped (list_members lost s.replica workspace_id)
  ok (map member_result members)
