-- ===== src/Urls/Repository/Tenancy.antt =====
-- Statements of one workspace against the rows of another.
use usp_cloud_native.Prelude.{
  ℕ, Str, str_eq, Bool, false, not, Option, none, some, [], ◌∷◌, any, first, where_rows,
  update_rows, ok, err, arith, ◌≡◌, ◌≢◌, ◌⊎◌, refl, str_eq_iff, inl, inr, Option-cases,
  first-eq-none_iff, first-holds, count_rows-of-any-false, any-of-any-false,
}
use usp_cloud_native.Errors.{not_found, PgErr}
use usp_cloud_native.Urls.Entity.{Url}
use usp_cloud_native.Urls.Repository.{
  Table, is_owned, set_columns, update, mark_deleted, soft_delete, has_id, row_ok,
}
use usp_cloud_native.Urls.Repository.Invariant.{
  IsDistinct, IsValid, update-eq-ok, soft_delete-eq-ok,
}
use usp_cloud_native.Urls.Repository.Reads.{same_row}

abbrev pub is_foreign : Str → Url → Bool
is_foreign workspace_id v = not (str_eq v.workspace_id workspace_id)

where_rows-update_foreign :
    (id workspace_id : Str) (f : Url → Url)
    → ((v : Url) → (f v).workspace_id ≡ v.workspace_id)
    → (t : Table)
    → where_rows (is_foreign workspace_id) (update_rows (is_owned id workspace_id) f t)
      ≡ where_rows (is_foreign workspace_id) t
where_rows-update_foreign id workspace_id f keeps [] = refl
where_rows-update_foreign id workspace_id f keeps (v ∷ t) =
    ground (arith, keeps v, where_rows-update_foreign id workspace_id f keeps t)

-- A successful update or delete leaves the rows of all other workspaces as they were.
pub writes_foreign :
    (fault : Option PgErr) (t t' : Table) (w : Url) (now : ℕ)
    → (update fault t w now ≡ ok t') ⊎ (soft_delete fault t w.id w.workspace_id now ≡ ok t')
    → where_rows (is_foreign w.workspace_id) t' ≡ where_rows (is_foreign w.workspace_id) t
writes_foreign fault t t' w now (inl h) =
    rw (update-eq-ok fault t w now h).0
      (where_rows-update_foreign w.id w.workspace_id (set_columns w now) (λ v. refl) t)
writes_foreign fault t t' w now (inr h) =
    rw (soft_delete-eq-ok fault t w.id w.workspace_id now h)
      (where_rows-update_foreign w.id w.workspace_id (mark_deleted now) (λ v. refl) t)

-- No row is owned where the id is that of a row of another workspace.
unowned :
    (t : Table) (id workspace_id : Str) (u : Url)
    → IsDistinct t
    → first (has_id id) t ≡ some u
    → u.workspace_id ≢ workspace_id
    → any (is_owned id workspace_id) t ≡ false
unowned t id workspace_id u d e n = elim (Option-cases (first (is_owned id workspace_id) t)) [
  | inl missed ↦ (first-eq-none_iff _ t).0 missed
  | inr (v, hit) ↦ absurd (
      ground (
        arith,
        first-holds (has_id id) t u e,
        first-holds (is_owned id workspace_id) t v hit,
        str_eq_iff u.id id,
        str_eq_iff v.id id,
        str_eq_iff v.workspace_id workspace_id,
        same_row (has_id id) (is_owned id workspace_id) t u v d e hit,
      ))
]

-- In a valid table and without a fault of the server, an update or a delete that names a row of
-- another workspace answers that it is not found.
pub writes_rejected :
    (t : Table) (w u : Url) (now : ℕ)
    → IsValid t
    → first (has_id w.id) t ≡ some u
    → u.workspace_id ≢ w.workspace_id
    → (update none t w now ≡ err not_found)
      × (soft_delete none t w.id w.workspace_id now ≡ err not_found)
unfolding update soft_delete
writes_rejected t w u now v e n =
    let idle = unowned t w.id w.workspace_id u v.1 e n in
    let none_counted = count_rows-of-any-false _ t idle in
    let fits =
      any-of-any-false (is_owned w.id w.workspace_id) (λ v. not (row_ok (set_columns w now v))) t
        idle in
    (rw (none_counted, fits) refl, rw none_counted)
