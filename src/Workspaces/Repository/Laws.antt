-- ===== src/Workspaces/Repository/Laws.antt =====
-- What the writes leave in the tables.
use usp_cloud_native.Prelude.{
  str_eq, str_eq_iff, Bool, true, false, ◌&&◌, List, [], ◌∷◌, ◌++◌, any, any-append, All,
  All-append, ok, >>=-eq-ok, arith, ◌≡◌, refl,
}
use usp_cloud_native.Workspaces.Roles.{role_owner}
use usp_cloud_native.Workspaces.Entity.{Workspace, Member}
use usp_cloud_native.Workspaces.Repository.{
  Tables, is_member, insert_workspace, insert_member, create, add_member,
}

abbrev pub owns : Workspace → Member → Bool
owns w m = is_member w.id w.owner_id m && str_eq m.role role_owner

-- Every workspace has its owner among its members, in that role, and nobody else has it.
pub record HasOwners (t : Tables) : Type 0 where
  pub owner_joined : All (λ w. any (owns w) t.members ≡ true) t.workspaces
  pub owner_only :
      All (λ m. m.role ≡ role_owner → any (λ w. owns w m) t.workspaces ≡ true) t.members

insert_workspace-eq-ok :
    (t : Tables) (w : Workspace) (t' : Tables)
    → insert_workspace t w ≡ ok t'
    → (any (λ v. str_eq v.id w.id) t.workspaces ≡ false)
      × (t' ≡ record t { workspaces = t.workspaces ++ w ∷ [] })
insert_workspace-eq-ok t w t' h = ground arith

insert_member-eq-ok :
    (t : Tables) (m : Member) (t' : Tables)
    → insert_member t m ≡ ok t'
    → (any (is_member m.workspace_id m.user_id) t.members ≡ false)
      × (t' ≡ record t { members = t.members ++ m ∷ [] })
insert_member-eq-ok t m t' h = ground arith

pub create-eq-ok :
    (lost : Bool) (t : Tables) (w : Workspace) (m : Member) (t' : Tables)
    → create lost t w m ≡ ok t'
    → (any (λ v. str_eq v.id w.id) t.workspaces ≡ false)
      × (any (is_member m.workspace_id m.user_id) t.members ≡ false)
      × (t' ≡ record { workspaces = t.workspaces ++ w ∷ []; members = t.members ++ m ∷ [] })
unfolding create
create-eq-ok true t w m t' h = absurd (ground arith)
create-eq-ok false t w m t' h =
    let (t1, first, second) = >>=-eq-ok (insert_workspace t w) (λ t1. insert_member t1 m) h in
    let (fresh, e) = insert_workspace-eq-ok t w t1 first in
    let (new, e') = insert_member-eq-ok t1 m t' second in (fresh, (rw e at new), (rw e at e'))

pub add_member-eq-ok :
    (lost : Bool) (t : Tables) (m : Member) (t' : Tables)
    → add_member lost t m ≡ ok t'
    → (any (is_member m.workspace_id m.user_id) t.members ≡ false)
      × (t' ≡ record t { members = t.members ++ m ∷ [] })
unfolding add_member
add_member-eq-ok lost t m t' h = ground (arith, insert_member-eq-ok t m t')

-- What holds of some item still does after more items.
any-more {ℓ} :
    {A : Type ℓ} (p : A → Bool) (xs ys : List A) → any p xs ≡ true → any p (xs ++ ys) ≡ true
any-more p xs ys h = rw (any-append p xs ys, h) refl

All-joined_more :
    (ms more : List Member) (ws : List Workspace)
    → All (λ w. any (owns w) ms ≡ true) ws
    → All (λ w. any (owns w) (ms ++ more) ≡ true) ws
All-joined_more ms more [] h = tt
All-joined_more ms more (w ∷ ws) (e, h) =
    (any-more (owns w) ms more e, All-joined_more ms more ws h)

All-only_more :
    (ws more : List Workspace) (ms : List Member)
    → All (λ m. m.role ≡ role_owner → any (λ w. owns w m) ws ≡ true) ms
    → All (λ m. m.role ≡ role_owner → any (λ w. owns w m) (ws ++ more) ≡ true) ms
All-only_more ws more [] h = tt
All-only_more ws more (m ∷ ms) (e, h) =
    (λ r. any-more (λ w. owns w m) ws more (e r), All-only_more ws more ms h)

-- The last item of a list.
any-snoc {ℓ} :
    {A : Type ℓ} (p : A → Bool) (xs : List A) (x : A) → p x ≡ true → any p (xs ++ x ∷ []) ≡ true
any-snoc p xs x h = rw (any-append p xs (x ∷ []), h) (ground arith)

pub append_both-HasOwners :
    (t : Tables) (w : Workspace) (m : Member)
    → owns w m ≡ true
    → HasOwners t
    → HasOwners (record { workspaces = t.workspaces ++ w ∷ []; members = t.members ++ m ∷ [] })
append_both-HasOwners t w m o h = record {
  owner_joined =
      All-append (λ v. any (owns v) (t.members ++ m ∷ []) ≡ true) t.workspaces (w ∷ [])
        (All-joined_more t.members (m ∷ []) t.workspaces h.owner_joined)
        (any-snoc (owns w) t.members m o, tt);
  owner_only =
      All-append (λ n. n.role ≡ role_owner → any (λ v. owns v n) (t.workspaces ++ w ∷ []) ≡ true)
        t.members (m ∷ []) (All-only_more t.workspaces (w ∷ []) t.members h.owner_only)
        (λ _. any-snoc (λ v. owns v m) t.workspaces w o, tt);
}

pub append_member-HasOwners :
    (t : Tables) (m : Member)
    → str_eq m.role role_owner ≡ false
    → HasOwners t
    → HasOwners (record t { members = t.members ++ m ∷ [] })
append_member-HasOwners t m r h = record {
  owner_joined = All-joined_more t.members (m ∷ []) t.workspaces h.owner_joined;
  owner_only =
      All-append (λ n. n.role ≡ role_owner → any (λ v. owns v n) t.workspaces ≡ true) t.members
        (m ∷ []) h.owner_only (λ e. absurd (ground (arith, str_eq_iff m.role role_owner)), tt);
}
