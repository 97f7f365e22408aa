-- ===== src/Urls/Repository/Invariant.antt =====
-- The constraints of the table of URLs, as an invariant of the statements that write to it.
use usp_cloud_native.Prelude.{
  ℕ, Str, str_eq, Bool, true, false, not, ◌&&◌, Option, [], ◌∷◌, ◌++◌, any, update_rows, All,
  All-append, ok, arith, ◌≡◌, refl, any-append, str_eq_iff, Bool-cases, inl, inr,
}
use usp_cloud_native.Errors.{PgErr}
use usp_cloud_native.Urls.Entity.{Url}
use usp_cloud_native.Urls.Repository.{
  Table, row_ok, collides, create, is_owned, set_columns, update, mark_deleted, soft_delete,
  increment_click_count, is_counted, count_click,
}

-- No two rows share an id or a short code.
abbrev pub IsDistinct : Table → Type 0
IsDistinct [] = Unit
IsDistinct (u ∷ t) = (any (collides u) t ≡ false) × IsDistinct t

-- Every row passes the check constraints, and the two keys are unique.
abbrev pub IsValid : Table → Type 0
IsValid t = All (λ u. row_ok u ≡ true) t × IsDistinct t

str_eq_comm : (s t : Str) → str_eq s t ≡ str_eq t s
str_eq_comm s t = ground (arith, str_eq_iff s t, str_eq_iff t s)

collides_comm : (u v : Url) → collides u v ≡ collides v u
collides_comm u v = ground (arith, str_eq_comm u.id v.id, str_eq_comm u.short_code v.short_code)

IsDistinct-append :
    (t : Table) (u : Url) → IsDistinct t → any (collides u) t ≡ false → IsDistinct (t ++ u ∷ [])
IsDistinct-append [] u d h = (refl, tt)
IsDistinct-append (v ∷ t) u d h = (
  ground (arith, any-append (collides v) t (u ∷ []), collides_comm u v),
  IsDistinct-append t u d.1 (ground arith),
)

-- What a successful insert has checked, and what it leaves.
pub create-eq-ok :
    (fault : Option PgErr) (t : Table) (u : Url) {t' : Table}
    → create fault t u ≡ ok t'
    → (t' ≡ t ++ u ∷ []) × (row_ok u ≡ true) × (any (collides u) t ≡ false)
unfolding create
create-eq-ok fault t u h = ground arith

pub IsValid-append :
    (t : Table) (u : Url)
    → IsValid t
    → row_ok u ≡ true
    → any (collides u) t ≡ false
    → IsValid (t ++ u ∷ [])
IsValid-append t u v fits fresh =
    (All-append _ t (u ∷ []) v.0 (fits, tt), IsDistinct-append t u v.1 fresh)

pub create-IsValid :
    (fault : Option PgErr) (t : Table) (u : Url) {t' : Table}
    → IsValid t
    → create fault t u ≡ ok t'
    → IsValid t'
create-IsValid fault t u v h =
    let (same, fits, fresh) = create-eq-ok fault t u h in rw same (IsValid-append t u v fits fresh)

-- An update that writes neither key keeps the keys unique.
module _ (p : Url → Bool) (f : Url → Url)
    (keeps : (u : Url) → ((f u).id ≡ u.id) × ((f u).short_code ≡ u.short_code)) where
  any-collides-update_rows :
      (u : Url) (t : Table) → any (collides u) (update_rows p f t) ≡ any (collides u) t
  any-collides-update_rows u [] = refl
  any-collides-update_rows u (v ∷ t) = ground (arith, any-collides-update_rows u t, keeps v)

  any-collides-changed : (u : Url) (t : Table) → any (collides (f u)) t ≡ any (collides u) t
  any-collides-changed u [] = refl
  any-collides-changed u (v ∷ t) = ground (arith, any-collides-changed u t, keeps u)

  update_rows-IsDistinct : (t : Table) → IsDistinct t → IsDistinct (update_rows p f t)
  update_rows-IsDistinct [] d = tt
  update_rows-IsDistinct (u ∷ t) d = (
    elim (Bool-cases (p u)) [
      | inl e ↦ rw (e, any-collides-update_rows (f u) t, any-collides-changed u t) d.0
      | inr e ↦ rw (e, any-collides-update_rows u t) d.0
    ],
    update_rows-IsDistinct t d.1,
  )

update_rows-row_ok :
    (p : Url → Bool) (f : Url → Url) (t : Table)
    → any (λ v. p v && not (row_ok (f v))) t ≡ false
    → All (λ u. row_ok u ≡ true) t
    → All (λ u. row_ok u ≡ true) (update_rows p f t)
update_rows-row_ok p f [] h a = tt
update_rows-row_ok p f (u ∷ t) h a = (ground arith, update_rows-row_ok p f t (ground arith) a.1)

pub update-eq-ok :
    (fault : Option PgErr) (t : Table) (u : Url) (now : ℕ) {t' : Table}
    → update fault t u now ≡ ok t'
    → (t' ≡ update_rows (is_owned u.id u.workspace_id) (set_columns u now) t)
      × (any (λ v. is_owned u.id u.workspace_id v && not (row_ok (set_columns u now v))) t ≡ false)
unfolding update
update-eq-ok fault t u now h = ground arith

pub update-IsValid :
    (fault : Option PgErr) (t : Table) (u : Url) (now : ℕ) {t' : Table}
    → IsValid t
    → update fault t u now ≡ ok t'
    → IsValid t'
update-IsValid fault t u now v h =
    let (same, fits) = update-eq-ok fault t u now h in
    rw same (
      update_rows-row_ok _ _ t fits v.0,
      update_rows-IsDistinct _ (set_columns u now) (λ w. (refl, refl)) t v.1,
    )

-- Columns that no check constraint reads.
update_rows-row_ok_same :
    (p : Url → Bool) (f : Url → Url)
    → ((u : Url) → row_ok (f u) ≡ row_ok u)
    → (t : Table) → All (λ u. row_ok u ≡ true) t
    → All (λ u. row_ok u ≡ true) (update_rows p f t)
update_rows-row_ok_same p f same [] a = tt
update_rows-row_ok_same p f same (u ∷ t) a =
    (ground (arith, same u), update_rows-row_ok_same p f same t a.1)

pub soft_delete-eq-ok :
    (fault : Option PgErr) (t : Table) (id workspace_id : Str) (now : ℕ) {t' : Table}
    → soft_delete fault t id workspace_id now ≡ ok t'
    → t' ≡ update_rows (is_owned id workspace_id) (mark_deleted now) t
unfolding soft_delete
soft_delete-eq-ok fault t id workspace_id now h = ground arith

pub soft_delete-IsValid :
    (fault : Option PgErr) (t : Table) (id workspace_id : Str) (now : ℕ) {t' : Table}
    → IsValid t
    → soft_delete fault t id workspace_id now ≡ ok t'
    → IsValid t'
unfolding row_ok
soft_delete-IsValid fault t id workspace_id now v h =
    rw (soft_delete-eq-ok fault t id workspace_id now h) (
      update_rows-row_ok_same _ (mark_deleted now) (λ u. refl) t v.0,
      update_rows-IsDistinct _ (mark_deleted now) (λ w. (refl, refl)) t v.1,
    )

pub increment_click_count-eq-ok :
    (fault : Option PgErr) (t : Table) (code : Str) (now : ℕ) {t' : Table}
    → increment_click_count fault t code now ≡ ok t'
    → t' ≡ update_rows (is_counted code) (count_click now) t
unfolding increment_click_count
increment_click_count-eq-ok fault t code now h = ground arith

pub increment_click_count-IsValid :
    (fault : Option PgErr) (t : Table) (code : Str) (now : ℕ) {t' : Table}
    → IsValid t
    → increment_click_count fault t code now ≡ ok t'
    → IsValid t'
unfolding row_ok
increment_click_count-IsValid fault t code now v h =
    rw (increment_click_count-eq-ok fault t code now h) (
      update_rows-row_ok_same _ (count_click now) (λ u. refl) t v.0,
      update_rows-IsDistinct _ (count_click now) (λ w. (refl, refl)) t v.1,
    )
