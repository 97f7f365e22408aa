-- ===== src/Workspaces/Tests.antt =====
-- Workspaces at concrete inputs.
use usp_cloud_native.Prelude.{
  codes, str_eq, any, false, List, ◌&&◌, [], ◌∷◌, ◌++◌, ok, ◌≡◌, ◌≢◌, ◌⊎◌, refl, true,
}
use usp_cloud_native.Workspaces.Roles.{
  role_owner, role_admin, role_editor, role_viewer, can, action_view_url,
}
use usp_cloud_native.Workspaces.Slug.{generate_slug}
use usp_cloud_native.Workspaces.Entity.{Member}
use usp_cloud_native.Workspaces.Repository.{is_member, get_member}
use usp_cloud_native.Workspaces.Repository.Laws.{HasOwners}
use usp_cloud_native.Workspaces.Membership.{
  Store, Outside, CreateCommand, create_result, AddMemberCommand, add_member_result, new_workspace,
  new_member, owner_of, create_workspace, invite,
}
use usp_cloud_native.Workspaces.Lists.{ListResult, list_workspaces, list_for_user}
use usp_cloud_native.Workspaces.Lists.Laws.{shows, list_workspaces_iff}
use usp_cloud_native.Workspaces.Membership.Laws.{
  creating, inviting, replicated, serve_all, serve_all-HasOwners, invite_authorized,
}

acme : generate_slug (codes "  Acme Corp!") ≡ codes "acme-corp"
unfolding generate_slug
acme = refl

nothing_left : generate_slug (codes "!!") ≡ codes "workspace"
unfolding generate_slug
nothing_left = refl

viewer_sees : can role_viewer action_view_url ≡ true
unfolding can str_eq
viewer_sees = refl

abbrev nobody : Store
nobody = record {
  primary = record { workspaces = []; members = [] };
  replica = record { workspaces = []; members = [] };
}

abbrev fine : Outside
fine = record {
  first_lost = false;
  read_lost = false;
  write_lost = false;
  now = 10;
  new_id = codes "01W";
}

abbrev found_acme : CreateCommand
found_acme = record { name = codes "Acme Corp"; slug = []; owner_id = codes "user1" }

abbrev founded : Store
founded = record nobody {
  primary = record {
    workspaces = new_workspace fine found_acme ∷ [];
    members = owner_of fine found_acme ∷ [];
  };
}

creation_run :
    create_workspace fine nobody found_acme
    ≡ ok (create_result (new_workspace fine found_acme), founded)
unfolding create_workspace generate_slug str_eq
creation_run = refl

abbrev shared : Store
shared = record { primary = founded.primary; replica = founded.primary }

abbrev invite_editor : AddMemberCommand
invite_editor = record {
  workspace_id = codes "01W";
  invited_user_id = codes "user2";
  role = role_editor;
  requesting_user_id = codes "user1";
}

abbrev joined : Store
joined = record shared {
  primary = record shared.primary {
    members = owner_of fine found_acme ∷ new_member fine invite_editor ∷ [];
  };
}

invitation_run :
    invite fine shared invite_editor
    ≡ ok (add_member_result (new_member fine invite_editor), joined)
unfolding invite str_eq generate_slug
invitation_run = refl

invite_authorized_example :
    ((caller : Member) × (get_member false shared.replica (codes "01W") (codes "user1") ≡ ok caller)
      × ((caller.role ≡ role_owner) ⊎ (caller.role ≡ role_admin)))
    × (role_editor ≢ role_owner)
    × (any (is_member (codes "01W") (codes "user2")) shared.primary.members ≡ false)
    × (joined.primary ≡ record shared.primary {
      members = shared.primary.members ++ new_member fine invite_editor ∷ [];
    })
invite_authorized_example =
    invite_authorized fine shared invite_editor (add_member_result (new_member fine invite_editor))
      joined invitation_run

serve_all-HasOwners_example :
    HasOwners
      (serve_all nobody
        (creating fine found_acme ∷ replicated ∷ inviting fine invite_editor ∷ [])).primary
serve_all-HasOwners_example =
    serve_all-HasOwners nobody
      (creating fine found_acme ∷ replicated ∷ inviting fine invite_editor ∷ [])
      (record { owner_joined = tt; owner_only = tt })

abbrev acme_only : List ListResult
acme_only =
    record {
      id = codes "01W";
      name = codes "Acme Corp";
      slug = codes "acme-corp";
      plan_tier = codes "free";
      user_role = role_owner;
    }
    ∷ []

listing_run : list_workspaces false (λ w. false) shared (codes "user1") ≡ ok acme_only
unfolding list_workspaces list_for_user get_member str_eq generate_slug
listing_run = refl

list_workspaces_iff_example : any (shows (codes "01W")) acme_only ≡ (
    any (λ w. str_eq w.id (codes "01W")) shared.replica.workspaces
    && any (is_member (codes "01W") (codes "user1")) shared.replica.members)
list_workspaces_iff_example =
    list_workspaces_iff shared (codes "user1") (codes "01W") acme_only listing_run
