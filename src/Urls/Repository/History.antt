-- ===== src/Urls/Repository/History.antt =====
-- All that can be written to the table, in any order and with any faults.
use usp_cloud_native.Prelude.{
  ℕ, Str, Option, List, [], ◌∷◌, Result, ok, err, Result-cases, ◌≡◌, inl, inr,
}
use usp_cloud_native.Errors.{UrlErr, PgErr}
use usp_cloud_native.Urls.Entity.{Url}
use usp_cloud_native.Urls.Repository.{Table, create, update, soft_delete, increment_click_count}
use usp_cloud_native.Urls.Repository.Invariant.{
  IsValid, create-IsValid, update-IsValid, soft_delete-IsValid, increment_click_count-IsValid,
}

-- A call of one of the four methods of the repository that write.
pub data Statement : Type 0 where
  insert : Url → Statement
  change : Url → ℕ → Statement
  remove : (id workspace_id : Str) → ℕ → Statement
  count : Str → ℕ → Statement

run_statement : Option PgErr → Table → Statement → Result UrlErr Table
run_statement fault t (insert u) = create fault t u
run_statement fault t (change u now) = update fault t u now
run_statement fault t (remove id workspace_id now) = soft_delete fault t id workspace_id now
run_statement fault t (count code now) = increment_click_count fault t code now

abbrev after : Table → Result UrlErr Table → Table
after t (ok t') = t'
after t (err e) = t

-- A statement that fails leaves the table as it was.
pub history : Table → List (Option PgErr × Statement) → Table
unfolding run_statement
history t [] = t
history t ((fault, s) ∷ rest) = history (after t (run_statement fault t s)) rest

run_statement-IsValid :
    (fault : Option PgErr) (t : Table) (s : Statement) {t' : Table}
    → IsValid t
    → run_statement fault t s ≡ ok t'
    → IsValid t'
unfolding run_statement
run_statement-IsValid fault t (insert u) v h = create-IsValid fault t u v h
run_statement-IsValid fault t (change u now) v h = update-IsValid fault t u now v h
run_statement-IsValid fault t (remove id ws now) v h = soft_delete-IsValid fault t id ws now v h
run_statement-IsValid fault t (count code now) v h =
    increment_click_count-IsValid fault t code now v h

history_from :
    (t : Table) (rest : List (Option PgErr × Statement)) → IsValid t → IsValid (history t rest)
unfolding history
history_from t [] v = v
history_from t ((fault, s) ∷ rest) v = elim (Result-cases (run_statement fault t s)) [
  | inl (t', e) ↦ rw e (history_from t' rest (run_statement-IsValid fault t s v e))
  | inr (x, e) ↦ rw e (history_from t rest v)
]

-- Whatever is written to an empty table, in any order and with any faults, no two rows ever share
-- an id or a short code, and every row passes the check constraints.
pub history-IsValid : (rest : List (Option PgErr × Statement)) → IsValid (history [] rest)
history-IsValid rest = history_from [] rest (tt, tt)
