-- ===== src/Workspaces/Roles.antt =====
-- The permission matrix of internal/domain/workspace/entity.go. Roles and actions are texts there,
-- and a missing key of a Go map of Booleans is `false`.
pub mod Laws
use usp_cloud_native.Prelude.{
  Str, codes, str_eq, Bool, true, false, ◌||◌, Option, none, some, List, [], ◌∷◌, lookup,
}

abbrev pub role_owner : Str
role_owner = codes "owner"

abbrev pub role_admin : Str
role_admin = codes "admin"

abbrev pub role_editor : Str
role_editor = codes "editor"

abbrev pub role_viewer : Str
role_viewer = codes "viewer"

abbrev pub action_create_url : Str
action_create_url = codes "url:create"

abbrev pub action_update_url : Str
action_update_url = codes "url:update"

abbrev pub action_delete_url : Str
action_delete_url = codes "url:delete"

abbrev pub action_view_url : Str
action_view_url = codes "url:view"

abbrev pub action_view_analytics : Str
action_view_analytics = codes "analytics:view"

abbrev pub action_manage_webhooks : Str
action_manage_webhooks = codes "webhook:manage"

abbrev pub action_manage_members : Str
action_manage_members = codes "members:manage"

abbrev pub action_delete_workspace : Str
action_delete_workspace = codes "workspace:delete"

abbrev pub action_view_members : Str
action_view_members = codes "members:view"

-- The row of a role, by what it may do to links, webhooks and members, and to the workspace.
abbrev pub row : (write delete manage destroy : Bool) → List (Str × Bool)
row write delete manage destroy =
    (action_create_url, write)
    ∷ (action_update_url, write)
    ∷ (action_delete_url, delete)
    ∷ (action_view_url, true)
    ∷ (action_view_analytics, true)
    ∷ (action_manage_webhooks, manage)
    ∷ (action_manage_members, manage)
    ∷ (action_delete_workspace, destroy)
    ∷ (action_view_members, true)
    ∷ []

abbrev pub role_permissions : List (Str × List (Str × Bool))
role_permissions =
    (role_owner, row true true true true)
    ∷ (role_admin, row true true true false)
    ∷ (role_editor, row true false false false)
    ∷ (role_viewer, row false false false false)
    ∷ []

abbrev pub or_false : Option Bool → Bool
or_false none = false
or_false (some b) = b

abbrev pub permits : Str → Option (List (Str × Bool)) → Bool
permits action none = false
permits action (some perms) = or_false (lookup action perms)

unfoldable pub can : (role action : Str) → Bool
can role action = permits action (lookup role role_permissions)

unfoldable pub is_valid_role : Str → Bool
is_valid_role role =
    str_eq role_owner role
    || (str_eq role_admin role || (str_eq role_editor role || str_eq role_viewer role))
