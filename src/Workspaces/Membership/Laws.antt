-- ===== src/Workspaces/Membership/Laws.antt =====
-- What the use cases guarantee of workspaces and members.
use usp_cloud_native.Prelude.{
  str_eq, str_eq_iff, str_eq_refl, is_empty, length, ltb, leb, true, false, not, List, [], ◌∷◌,
  ◌++◌, first-append_of_none, any, Result, ok, err, >>=-eq-ok, Result-cases, reject_if, arith, ◌≡◌,
  ◌≢◌, ◌⊎◌, refl, inl, inr,
}
use usp_cloud_native.Workspaces.Roles.{
  role_owner, role_admin, action_manage_members, can, is_valid_role,
}
use usp_cloud_native.Workspaces.Roles.Laws.{can_manage_members_iff}
use usp_cloud_native.Workspaces.Entity.{Member, WorkspaceErr, validate_workspace, validate_member}
use usp_cloud_native.Workspaces.Repository.{
  is_member, create, get_by_id, count_owned_by_user, add_member, get_member,
}
use usp_cloud_native.Workspaces.Repository.Laws.{
  HasOwners, create-eq-ok, add_member-eq-ok, append_both-HasOwners, append_member-HasOwners,
}
use usp_cloud_native.Workspaces.Membership.{
  Store, UseCaseErr, Outside, CreateCommand, CreateResult, create_result, AddMemberCommand,
  AddMemberResult, new_workspace, owner_of, new_member, or_else, max_workspaces_per_user,
  create_workspace, invite, invalid, wrapped, entity, unauthorized, create_error, caller_error,
  add_error, get_workspace,
}

or_else-eq-ok {ℓ} :
    {A : Type ℓ} (f : WorkspaceErr → UseCaseErr) (r : Result WorkspaceErr A) (a : A)
    → or_else f r ≡ ok a
    → r ≡ ok a
or_else-eq-ok f (ok b) a h = ground arith
or_else-eq-ok f (err e) a h = absurd (ground arith)

-- What a creation that succeeds has written.
create_workspace-eq-ok :
    (o : Outside) (s : Store) (cmd : CreateCommand) (r : CreateResult) (s' : Store)
    → create_workspace o s cmd ≡ ok (r, s')
    → (r ≡ create_result (new_workspace o cmd))
      × (s'.replica ≡ s.replica)
      × (create o.write_lost s.primary (new_workspace o cmd) (owner_of o cmd) ≡ ok s'.primary)
unfolding create_workspace
create_workspace-eq-ok o s cmd r s' h =
    let (_, _, h₁) = >>=-eq-ok (reject_if (is_empty cmd.name) invalid) _ h in
    let (_, _, h₂) = >>=-eq-ok (reject_if (ltb 100 (length cmd.name)) invalid) _ h₁ in
    let (_, _, h₃) = >>=-eq-ok (reject_if (is_empty cmd.owner_id) invalid) _ h₂ in
    let (n, _, h₄) =
      >>=-eq-ok (or_else wrapped (count_owned_by_user o.first_lost s.replica cmd.owner_id)) _ h₃ in
    let (_, _, h₅) = >>=-eq-ok (reject_if (leb max_workspaces_per_user n) invalid) _ h₄ in
    let (_, _, h₆) = >>=-eq-ok (or_else entity (validate_workspace (new_workspace o cmd))) _ h₅ in
    let (t, written, h₇) =
      >>=-eq-ok
        (or_else create_error
          (create o.write_lost s.primary (new_workspace o cmd) (owner_of o cmd)))
        _ h₆ in
    (ground arith, ground arith, ground (arith, or_else-eq-ok create_error _ t written))

-- What an invitation that succeeds has read and written.
invite-eq-ok :
    (o : Outside) (s : Store) (cmd : AddMemberCommand) (r : AddMemberResult) (s' : Store)
    → invite o s cmd ≡ ok (r, s')
    → (str_eq cmd.role role_owner ≡ false)
      × (((caller : Member) × (get_member o.first_lost s.replica cmd.workspace_id
              cmd.requesting_user_id
            ≡ ok caller)
          × (can caller.role action_manage_members ≡ true)))
      × (add_member o.write_lost s.primary (new_member o cmd) ≡ ok s'.primary)
unfolding invite
invite-eq-ok o s cmd r s' h =
    let (_, _, h₁) = >>=-eq-ok (reject_if (not (is_valid_role cmd.role)) invalid) _ h in
    let (_, plain, h₂) = >>=-eq-ok (reject_if (str_eq cmd.role role_owner) invalid) _ h₁ in
    let (caller, read, h₃) =
      >>=-eq-ok
        (or_else caller_error
          (get_member o.first_lost s.replica cmd.workspace_id cmd.requesting_user_id))
        _ h₂ in
    let (_, may, h₄) =
      >>=-eq-ok (reject_if (not (can caller.role action_manage_members)) unauthorized) _ h₃ in
    let (_, _, h₅) = >>=-eq-ok (or_else entity (validate_member (new_member o cmd))) _ h₄ in
    let (t, written, h₆) =
      >>=-eq-ok (or_else add_error (add_member o.write_lost s.primary (new_member o cmd))) _ h₅ in
    (
      ground arith,
      (caller, or_else-eq-ok caller_error _ caller read, ground arith),
      ground (arith, or_else-eq-ok add_error _ t written),
    )

-- What a user may ask for, with what happens outside meanwhile.
pub data Request : Type 0 where
  creating : Outside → CreateCommand → Request
  inviting : Outside → AddMemberCommand → Request
  -- No request: the replica catches up with the primary.
  replicated : Request

abbrev after {ℓ} : {A : Type ℓ} → Store → Result UseCaseErr (A × Store) → Store
after s (ok (a, s')) = s'
after s (err e) = s

unfoldable pub serve : Store → Request → Store
unfolding create_workspace invite
serve s (creating o cmd) = after s (create_workspace o s cmd)
serve s (inviting o cmd) = after s (invite o s cmd)
serve s replicated = record s { replica = s.primary }

unfoldable pub serve_all : Store → List Request → Store
serve_all s [] = s
serve_all s (request ∷ requests) = serve_all (serve s request) requests

creating-HasOwners :
    (o : Outside) (s : Store) (cmd : CreateCommand) (r : CreateResult) (s' : Store)
    → create_workspace o s cmd ≡ ok (r, s')
    → HasOwners s.primary
    → HasOwners s'.primary
creating-HasOwners o s cmd r s' h owners =
    let (_, _, written) = create_workspace-eq-ok o s cmd r s' h in
    let (_, _, e) = create-eq-ok _ s.primary _ _ s'.primary written in
    rw e (
      append_both-HasOwners s.primary (new_workspace o cmd) (owner_of o cmd)
        (rw (str_eq_refl o.new_id, str_eq_refl cmd.owner_id, str_eq_refl role_owner) refl) owners)

inviting-HasOwners :
    (o : Outside) (s : Store) (cmd : AddMemberCommand) (r : AddMemberResult) (s' : Store)
    → invite o s cmd ≡ ok (r, s')
    → HasOwners s.primary
    → HasOwners s'.primary
inviting-HasOwners o s cmd r s' h owners =
    let (plain, _, written) = invite-eq-ok o s cmd r s' h in
    let (_, e) = add_member-eq-ok _ s.primary _ s'.primary written in
    rw e (append_member-HasOwners s.primary (new_member o cmd) plain owners)

serve-HasOwners :
    (s : Store) (request : Request) → HasOwners s.primary → HasOwners (serve s request).primary
unfolding serve
serve-HasOwners s (creating o cmd) owners = elim (Result-cases (create_workspace o s cmd)) [
  | inl ((r, s'), e) ↦ rw e (creating-HasOwners o s cmd r s' e owners)
  | inr (x, e) ↦ rw e owners
]
serve-HasOwners s (inviting o cmd) owners = elim (Result-cases (invite o s cmd)) [
  | inl ((r, s'), e) ↦ rw e (inviting-HasOwners o s cmd r s' e owners)
  | inr (x, e) ↦ rw e owners
]
serve-HasOwners s replicated owners = owners

-- Whatever is created and whoever is invited, one after another, with whatever the replica shows and
-- whatever is lost: if at first every workspace has its owner as a member in the role of owner, and
-- nobody else has that role, then so it is in the end.
pub serve_all-HasOwners :
    (s : Store) (requests : List Request)
    → HasOwners s.primary
    → HasOwners (serve_all s requests).primary
unfolding serve_all
serve_all-HasOwners s [] owners = owners
serve_all-HasOwners s (request ∷ requests) owners =
    serve_all-HasOwners (serve s request) requests (serve-HasOwners s request owners)

-- An invitation that succeeds was made by a member that the replica shows as owner or admin, gives
-- another role than the owner's, and adds exactly the one row, for a user who had none.
pub invite_authorized :
    (o : Outside) (s : Store) (cmd : AddMemberCommand) (r : AddMemberResult) (s' : Store)
    → invite o s cmd ≡ ok (r, s')
    → ((caller : Member) × (get_member o.first_lost s.replica cmd.workspace_id
            cmd.requesting_user_id
          ≡ ok caller)
        × ((caller.role ≡ role_owner) ⊎ (caller.role ≡ role_admin)))
      × (cmd.role ≢ role_owner)
      × (any (is_member cmd.workspace_id cmd.invited_user_id) s.primary.members ≡ false)
      × (s'.primary ≡ record s.primary { members = s.primary.members ++ new_member o cmd ∷ [] })
invite_authorized o s cmd r s' h =
    let (plain, (caller, read, may), written) = invite-eq-ok o s cmd r s' h in
    let (fresh, e) = add_member-eq-ok _ s.primary _ s'.primary written in
    (
      (caller, read, (can_manage_members_iff caller.role).0 may),
      λ i. absurd (ground (arith, str_eq_iff cmd.role role_owner)),
      fresh,
      e,
    )

-- After a successful creation, once the replica has caught up, and where both reads go through,
-- whoever created a workspace sees it as it was answered, in the role of owner.
pub get_workspace-create_workspace :
    (o o' : Outside) (s : Store) (cmd : CreateCommand) (r : CreateResult) (s' : Store)
    → create_workspace o s cmd ≡ ok (r, s')
    → o'.first_lost ≡ false
    → o'.read_lost ≡ false
    → get_workspace o' (serve s' replicated) r.id cmd.owner_id ≡ ok (r, role_owner)
unfolding get_workspace get_member get_by_id serve
get_workspace-create_workspace o o' s cmd r s' h calm calm' =
    let (answer, _, written) = create_workspace-eq-ok o s cmd r s' h in
    let (fresh, new, e) =
      create-eq-ok o.write_lost s.primary (new_workspace o cmd) (owner_of o cmd) s'.primary
        written in
    rw
      (
        answer,
        e,
        calm,
        calm',
        first-append_of_none (is_member o.new_id cmd.owner_id) s.primary.members
            (owner_of o cmd ∷ []) new,
        first-append_of_none (λ v. str_eq v.id o.new_id) s.primary.workspaces
            (new_workspace o cmd ∷ []) fresh,
        str_eq_refl o.new_id,
        str_eq_refl cmd.owner_id,
      )
      refl
