-- ===== src/Urls/Repository/Reads.antt =====
-- What the lookups find after each statement that writes to the table.
use usp_cloud_native.Prelude.{
  ℕ, Str, str_eq, Bool, true, false, if◌then◌else◌, Option, none, some, [], ◌∷◌, ◌++◌, any, first,
  update_rows, ok, err, arith, ◌≡◌, ◌∙◌, refl, ap, str_eq_refl, str_eq_iff, Bool-cases, inl, inr,
  Option-cases, first-holds, map_if, first-any-false, first-update_rows,
}
use usp_cloud_native.Errors.{UrlErr, deleted, is_not_found, PgErr}
use usp_cloud_native.Urls.Entity.{Url}
use usp_cloud_native.Urls.Repository.{
  Table, collides, create, is_owned, set_columns, update, mark_deleted, soft_delete, is_live,
  has_code, is_row, get_by_short_code, get_by_id,
}
use usp_cloud_native.Urls.Repository.Invariant.{
  IsDistinct, IsValid, create-eq-ok, update-eq-ok, soft_delete-eq-ok,
}

has_code-of-fresh :
    (t : Table) (u : Url) → any (collides u) t ≡ false → first (has_code u.short_code) t ≡ none
has_code-of-fresh [] u h = refl
has_code-of-fresh (v ∷ t) u h = ground (arith, has_code-of-fresh t u)

first-append-other :
    (t : Table) (u : Url) (code : Str)
    → str_eq u.short_code code ≡ false
    → first (has_code code) (t ++ u ∷ []) ≡ first (has_code code) t
first-append-other [] u code h = ground arith
first-append-other (v ∷ t) u code h = ground (arith, first-append-other t u code)

first-append-fresh :
    (t : Table) (u : Url)
    → any (collides u) t ≡ false
    → first (has_code u.short_code) (t ++ u ∷ []) ≡ some u
first-append-fresh [] u h = ground (arith, str_eq_refl u.short_code)
first-append-fresh (v ∷ t) u h = ground (arith, first-append-fresh t u)

pub get_by_short_code-append :
    (t : Table) (u : Url) (code : Str)
    → is_live u ≡ true
    → any (collides u) t ≡ false
    → get_by_short_code none (t ++ u ∷ []) code
      ≡ (if str_eq u.short_code code then ok u else get_by_short_code none t code)
unfolding get_by_short_code
get_by_short_code-append t u code live fresh = elim (Bool-cases (str_eq u.short_code code)) [
  | inl e ↦
      rw (e, ← (str_eq_iff u.short_code code).0 e, first-append-fresh t u fresh) (ground arith)
  | inr e ↦ rw (e, first-append-other t u code e) refl
]

-- After a successful insert of a live row its short code finds exactly that row, and every other
-- short code finds what it found before.
pub get_by_short_code-create :
    (fault : Option PgErr) (t t' : Table) (u : Url) (code : Str)
    → is_live u ≡ true
    → create fault t u ≡ ok t'
    → get_by_short_code none t' code
      ≡ (if str_eq u.short_code code then ok u else get_by_short_code none t code)
get_by_short_code-create fault t t' u code live h =
    let (same, fits, fresh) = create-eq-ok fault t u h in
    rw same (get_by_short_code-append t u code live fresh)

-- Rows of a valid table are told apart by either key.
first-by_id :
    (q : Url → Bool) (t : Table) (u : Url)
    → IsDistinct t
    → first q t ≡ some u
    → first (λ v. str_eq v.id u.id) t ≡ some u
first-by_id q [] u d e = absurd (ground arith)
first-by_id q (v ∷ t) u d e = ground (
  arith,
  first-by_id q t u d.1,
  first-any-false q (collides v) t u,
  str_eq_refl u.id,
  str_eq_iff u.id v.id,
  str_eq_iff v.id u.id,
)

pub first-by_code :
    (q : Url → Bool) (t : Table) (u : Url)
    → IsDistinct t
    → first q t ≡ some u
    → first (has_code u.short_code) t ≡ some u
first-by_code q [] u d e = absurd (ground arith)
first-by_code q (v ∷ t) u d e = ground (
  arith,
  first-by_code q t u d.1,
  first-any-false q (collides v) t u,
  str_eq_refl u.short_code,
  str_eq_iff u.short_code v.short_code,
  str_eq_iff v.short_code u.short_code,
)

pub same_row :
    (q r : Url → Bool) (t : Table) (u v : Url)
    → IsDistinct t
    → first q t ≡ some u
    → first r t ≡ some v
    → v.id ≡ u.id
    → v ≡ u
same_row q r t u v d e h same =
    ground (arith, first-by_id q t u d e, (rw same at (first-by_id r t v d h)))

pub get_by_id-eq-ok :
    (t : Table) (id workspace_id : Str) (u : Url)
    → get_by_id none t id workspace_id ≡ ok u
    → (first (is_row id workspace_id) t ≡ some u)
      × (is_owned id workspace_id u ≡ true)
      × (u.id ≡ id)
      × (u.workspace_id ≡ workspace_id)
unfolding get_by_id
get_by_id-eq-ok t id workspace_id u h =
    let e : first (is_row id workspace_id) t ≡ some u = ground arith in
    let row = first-holds (is_row id workspace_id) t u e in
    (
      e,
      ground arith,
      ground (arith, str_eq_iff u.id id),
      ground (arith, str_eq_iff u.workspace_id workspace_id),
    )

-- A lookup by short code after a write to the owned row: `u` is what the row was.
first_code-update :
    (t : Table) (id workspace_id : Str) (u : Url) (f : Url → Url) (code : Str)
    → ((v : Url) → (f v).short_code ≡ v.short_code)
    → IsDistinct t
    → get_by_id none t id workspace_id ≡ ok u
    → first (has_code code) (update_rows (is_owned id workspace_id) f t)
      ≡ (if str_eq u.short_code code then some (f u) else first (has_code code) t)
first_code-update t id workspace_id u f code keeps d h =
    let (e, owned, same_id, same_ws) = get_by_id-eq-ok t id workspace_id u h in
    let moved =
      first-update_rows (has_code code) (is_owned id workspace_id) f
        (λ v. ap (λ (c : Str). str_eq c code) (keeps v)) t in
    elim (Bool-cases (str_eq u.short_code code)) [
      | inl c ↦
          rw
            (
              c,
              moved,
              ← (str_eq_iff u.short_code code).0 c,
              first-by_code (is_row id workspace_id) t u d e,
            )
            (ground arith)
      | inr c ↦
          rw (c, moved)
            (elim (Option-cases (first (has_code code) t)) [
              | inl missed ↦ rw missed
              | inr (v, hit) ↦ rw hit (
                  ground (
                    arith,
                    same_row (is_row id workspace_id) (has_code code) t u v d e hit,
                    first-holds (has_code code) t v hit,
                    str_eq_iff v.id id,
                  ))
            ])
    ]

-- After a successful delete in a valid table, by the workspace that owns the row, the row's short
-- code reads as deleted, whatever it was, and every other short code finds what it found before.
pub get_by_short_code-soft_delete :
    (fault : Option PgErr) (t t' : Table) (id workspace_id : Str) (now : ℕ) (u : Url) (code : Str)
    → IsValid t
    → get_by_id none t id workspace_id ≡ ok u
    → soft_delete fault t id workspace_id now ≡ ok t'
    → get_by_short_code none t' code
      ≡ (if str_eq u.short_code code then err deleted else get_by_short_code none t code)
unfolding get_by_short_code
get_by_short_code-soft_delete fault t t' id workspace_id now u code v g h =
    rw
      (
        soft_delete-eq-ok fault t id workspace_id now h,
        first_code-update t id workspace_id u (mark_deleted now) code (λ w. refl) v.1 g,
      )
      (ground arith)

-- After a successful update in a valid table, by the workspace that owns the row, the row's short
-- code finds the row with the new columns, and every other short code finds what it found before.
pub get_by_short_code-update :
    (fault : Option PgErr) (t t' : Table) (w : Url) (now : ℕ) (u : Url) (code : Str)
    → IsValid t
    → get_by_id none t w.id w.workspace_id ≡ ok u
    → update fault t w now ≡ ok t'
    → get_by_short_code none t' code ≡ (
        if str_eq u.short_code code
        then ok (set_columns w now u)
        else get_by_short_code none t code)
unfolding get_by_short_code
get_by_short_code-update fault t t' w now u code v g h =
    let (e, owned, same_id, same_ws) = get_by_id-eq-ok t w.id w.workspace_id u g in
    rw
      (
        (update-eq-ok fault t w now h).0,
        first_code-update t w.id w.workspace_id u (set_columns w now) code (λ x. refl) v.1 g,
      )
      (ground arith)

-- A lookup with no fault fails only by not finding its row.
pub get_by_short_code-eq-err :
    (t : Table) (code : Str) (e : UrlErr)
    → get_by_short_code none t code ≡ err e
    → is_not_found e ≡ true
unfolding get_by_short_code is_not_found
get_by_short_code-eq-err t code e h = ground arith

-- A lookup that answered met no fault.
pub get_by_id-of-fault :
    (fault : Option PgErr) (t : Table) (id workspace_id : Str) (u : Url)
    → get_by_id fault t id workspace_id ≡ ok u
    → get_by_id none t id workspace_id ≡ ok u
unfolding get_by_id
get_by_id-of-fault none t id workspace_id u h = h
get_by_id-of-fault (some e) t id workspace_id u h = absurd (ground arith)

-- The row that an update wrote, if a lookup finds it, has the expiry that was given.
pub get_by_id-update :
    (fault : Option PgErr) (t t' : Table) (w : Url) (now : ℕ) (v : Url)
    → update fault t w now ≡ ok t'
    → get_by_id none t' w.id w.workspace_id ≡ ok v
    → v.expires_at ≡ w.expires_at
get_by_id-update fault t t' w now v h g =
    let row = is_row w.id w.workspace_id in
    let own = is_owned w.id w.workspace_id in
    let (there, owned, _, _) = get_by_id-eq-ok t' w.id w.workspace_id v g in
    let moved : first row t' ≡ map_if own (set_columns w now) (first row t) =
      ap (first row) (update-eq-ok fault t w now h).0
      ∙ first-update_rows row own (set_columns w now) (λ x. refl) t in
    elim (Option-cases (first row t)) [
      | inl n ↦ absurd (ground (arith, there, (rw n at moved)))
      | inr (x, e) ↦ elim (Bool-cases (own x)) [
        | inl y ↦
            let same : v ≡ set_columns w now x = ground (arith, there, (rw (e, y) at moved)) in
            ap (λ (u : Url). u.expires_at) same
        | inr n ↦
            let same : v ≡ x = ground (arith, there, (rw (e, n) at moved)) in
            absurd (ground (arith, n, owned, ap own same))
      ]
    ]
