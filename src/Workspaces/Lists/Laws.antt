-- ===== src/Workspaces/Lists/Laws.antt =====
-- Which workspaces a caller is shown.
use usp_cloud_native.Prelude.{
  Str, str_eq, any, first, where_rows, Bool, false, ◌&&◌, ◌||◌, List, [], ◌∷◌, ok, Bool-cases,
  Option-cases, arith, ◌≡◌, refl, ap, ◌∙◌, inl, inr, str_eq_iff, first-eq-none_iff,
}
use usp_cloud_native.Workspaces.Entity.{Workspace}
use usp_cloud_native.Workspaces.Repository.{Tables, is_member, get_member}
use usp_cloud_native.Workspaces.Membership.{Store}
use usp_cloud_native.Workspaces.Lists.{
  ListResult, insert_newest, newest_first, list_for_user, list_results, list_workspaces,
}

any-insert_newest :
    (p : Workspace → Bool) (w : Workspace) (rest : List Workspace)
    → any p (insert_newest w rest) ≡ (p w || any p rest)
any-insert_newest p w [] = refl
any-insert_newest p w (v ∷ rest) = ground (arith, any-insert_newest p w rest)

any-newest_first :
    (p : Workspace → Bool) (rest : List Workspace) → any p (newest_first rest) ≡ any p rest
any-newest_first p [] = refl
any-newest_first p (w ∷ rest) =
    any-insert_newest p w (newest_first rest) ∙ ap (λ b. p w || b) (any-newest_first p rest)

abbrev pub shows : Str → ListResult → Bool
shows id r = str_eq r.id id

any-list_results :
    (t : Tables) (user_id id : Str) (rest : List Workspace)
    → any (shows id) (list_results (λ w. false) t user_id rest)
      ≡ any (λ w. str_eq w.id id && any (is_member w.id user_id) t.members) rest
unfolding get_member
any-list_results t user_id id [] = refl
any-list_results t user_id id (w ∷ rest) =
    elim (Option-cases (first (is_member w.id user_id) t.members)) [
      | inl n ↦ rw n (
          ground (
            arith,
            any-list_results t user_id id rest,
            first-eq-none_iff (is_member w.id user_id) t.members,
            n,
          ))
      | inr (m, y) ↦ rw y (
          ground (
            arith,
            any-list_results t user_id id rest,
            first-eq-none_iff (is_member w.id user_id) t.members,
            y,
          ))
    ]

any-where_rows :
    (p q : Workspace → Bool) (rest : List Workspace)
    → any (λ w. q w && p w) (where_rows p rest) ≡ any (λ w. q w && p w) rest
any-where_rows p q [] = refl
any-where_rows p q (w ∷ rest) = elim (Bool-cases (p w)) [
  | inl y ↦ rw y (ground (arith, y, any-where_rows p q rest))
  | inr n ↦ rw n (ground (arith, n, any-where_rows p q rest))
]

any-named :
    (t : Tables) (user_id id : Str) (rest : List Workspace)
    → any (λ w. str_eq w.id id && any (is_member w.id user_id) t.members) rest
      ≡ (any (λ w. str_eq w.id id) rest && any (is_member id user_id) t.members)
any-named t user_id id [] = refl
any-named t user_id id (w ∷ rest) = elim (Bool-cases (str_eq w.id id)) [
  | inl y ↦ ground (
    arith,
    y,
    any-named t user_id id rest,
    ap (λ k. any (is_member k user_id) t.members) ((str_eq_iff w.id id).0 y),
  )
  | inr n ↦ ground (arith, n, any-named t user_id id rest)
]

-- If no read fails, the list of a user's workspaces shows an id exactly if a workspace has it of which
-- the user is a member.
pub list_workspaces_iff :
    (s : Store) (user_id id : Str) (results : List ListResult)
    → list_workspaces false (λ w. false) s user_id ≡ ok results
    → any (shows id) results ≡ (
        any (λ w. str_eq w.id id) s.replica.workspaces
        && any (is_member id user_id) s.replica.members)
unfolding list_workspaces list_for_user
list_workspaces_iff s user_id id results h =
    let t = s.replica in
    let joined = where_rows (λ w. any (is_member w.id user_id) t.members) t.workspaces in
    let same : results ≡ list_results (λ w. false) t user_id (newest_first joined) = cc in
    ap (any (shows id)) same
    ∙ any-list_results t user_id id (newest_first joined)
    ∙ any-newest_first (λ w. str_eq w.id id && any (is_member w.id user_id) t.members) joined
    ∙ any-where_rows (λ w. any (is_member w.id user_id) t.members) (λ w. str_eq w.id id)
        t.workspaces
    ∙ any-named t user_id id t.workspaces
