-- ===== src/Workspaces/Roles/Laws.antt =====
-- Who may do what.
use usp_cloud_native.Prelude.{
  Str, str_eq, str_eq_iff, Bool, true, false, lookup, arith, ◌≡◌, refl, ◌↔◌, ◌⊎◌, inl, inr,
  Bool-cases,
}
use usp_cloud_native.Workspaces.Roles.{
  role_owner, role_admin, role_editor, role_viewer, action_manage_members, can, is_valid_role, row,
  or_false,
}

abbrev row_of : (write delete manage destroy : Bool) → Str → Bool
row_of write delete manage destroy action =
    or_false (lookup action (row write delete manage destroy))

-- The matrix by rows.
rows :
    (action : Str)
    → (can role_owner action ≡ row_of true true true true action)
      × (can role_admin action ≡ row_of true true true false action)
      × (can role_editor action ≡ row_of true false false false action)
      × (can role_viewer action ≡ row_of false false false false action)
unfolding can str_eq
rows action = (refl, refl, refl, refl)

-- An editor may do all that a viewer may, an admin all that an editor may, and an owner all that
-- an admin may, whatever the action.
pub can-ordered :
    (action : Str)
    → (can role_viewer action ≡ true → can role_editor action ≡ true)
      × (can role_editor action ≡ true → can role_admin action ≡ true)
      × (can role_admin action ≡ true → can role_owner action ≡ true)
can-ordered action =
    let (o, a, e, v) = rows action in rw (o, a, e, v) (ground arith, ground arith, ground arith)

can_other : (role action : Str) → is_valid_role role ≡ false → can role action ≡ false
unfolding can is_valid_role
can_other role action h = ground arith

-- An unknown role may do nothing.
pub can-is_valid_role : (role action : Str) → can role action ≡ true → is_valid_role role ≡ true
can-is_valid_role role action h = elim (Bool-cases (is_valid_role role)) [
  | inl e ↦ e
  | inr e ↦ absurd (ground (arith, can_other role action e))
]

role_cases :
    (role : Str)
    → is_valid_role role ≡ true
    → ((role ≡ role_owner) ⊎ (role ≡ role_admin)) ⊎ ((role ≡ role_editor) ⊎ (role ≡ role_viewer))
unfolding is_valid_role
role_cases role h = ground (
  arith,
  str_eq_iff role_owner role,
  str_eq_iff role_admin role,
  str_eq_iff role_editor role,
  str_eq_iff role_viewer role,
)

members_managed :
    (can role_owner action_manage_members ≡ true)
    × (can role_admin action_manage_members ≡ true)
    × (can role_editor action_manage_members ≡ false)
    × (can role_viewer action_manage_members ≡ false)
unfolding can str_eq
members_managed = (refl, refl, refl, refl)

-- Exactly owners and admins manage members.
pub can_manage_members_iff :
    (role : Str)
    → (can role action_manage_members ≡ true) ↔ ((role ≡ role_owner) ⊎ (role ≡ role_admin))
can_manage_members_iff role =
    let (o, a, e, v) = members_managed in
    (
      λ h. elim (role_cases role (can-is_valid_role role action_manage_members h)) [
        | inl c ↦ c
        | inr (inl i) ↦ absurd (ground (arith, e, i, h))
        | inr (inr i) ↦ absurd (ground (arith, v, i, h))
      ],
      elim [ inl i ↦ rw i o | inr i ↦ rw i a ],
    )
