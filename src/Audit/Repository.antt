-- ===== src/Audit/Repository.antt =====
-- internal/infrastructure/postgres/audit_repository.go over the partitioned table of
-- deployments/migrations/000004_create_audit_logs.up.sql. An empty column is stored as NULL and read
-- back as the empty text; metadata is stored as it is.
pub mod Laws
use usp_cloud_native.Prelude.{
  ℕ, Str, str_eq, is_empty, leb, ltb, ◌==◌, any, take, where_rows, Bool, true, false, not, ◌&&◌,
  ◌||◌, if◌then◌else◌, Option, none, some, List, [], ◌∷◌, ◌++◌,
}
use usp_cloud_native.Audit.Event.{Event, actor_user, actor_api_key, actor_system}

-- The rows, and the range of times of each partition.
pub record Table : Type 0 where
  pub rows : List Event
  pub partitions : List (ℕ × ℕ)

-- A time from the first bound on, before the second.
abbrev pub in_range : ℕ → ℕ × ℕ → Bool
in_range at (from, to) = leb from at && ltb at to

-- A partition for the time, and the check constraints.
unfoldable pub row_ok : List (ℕ × ℕ) → Event → Bool
row_ok partitions e =
    any (in_range e.occurred_at) partitions
    && ((str_eq e.actor_type actor_user
          || (str_eq e.actor_type actor_api_key || str_eq e.actor_type actor_system))
        && (not (is_empty e.action) && not (is_empty e.resource_id)))

-- The primary key.
abbrev pub same_key : Event → Event → Bool
same_key e v = str_eq v.id e.id && (v.occurred_at == e.occurred_at)

unfoldable pub insert_row : Table → Event → Option Table
unfolding row_ok
insert_row t e =
    if not (row_ok t.partitions e) || any (same_key e) t.rows
    then none
    else some (record t { rows = t.rows ++ e ∷ [] })

-- The rows of one statement: all of them, or none.
unfoldable pub insert_rows : Table → List Event → Option Table
insert_rows t [] = some t
insert_rows t (e ∷ events) = elim (insert_row t e) [ none ↦ none | some t' ↦ insert_rows t' events ]

unfoldable pub write : Bool → Table → Event → Option Table
unfolding insert_row
write lost t e = if lost then none else insert_row t e

abbrev pub is_nil {ℓ} : {A : Type ℓ} → List A → Bool
is_nil [] = true
is_nil (x ∷ xs) = false

unfoldable pub write_many : Bool → Table → List Event → Option Table
unfolding insert_rows
write_many lost t events =
    if is_nil events then some t else if lost then none else insert_rows t events

-- `ORDER BY occurred_at DESC`
abbrev insert_latest : Event → List Event → List Event
insert_latest e [] = e ∷ []
insert_latest e (v ∷ events) =
    let rest = insert_latest e events in
    if leb v.occurred_at e.occurred_at then e ∷ v ∷ events else v ∷ rest

abbrev pub latest_first : List Event → List Event
latest_first [] = []
latest_first (e ∷ events) = insert_latest e (latest_first events)

abbrev pub read {ℓ} : {A : Type ℓ} → Bool → A → Option A
read true a = none
read false a = some a

unfoldable pub list_by_actor : Bool → Table → Str → (limit : ℕ) → Option (List Event)
list_by_actor lost t actor_id limit =
    read lost (take limit (latest_first (where_rows (λ e. str_eq e.actor_id actor_id) t.rows)))

abbrev pub is_of : Str → Option Str → Bool
is_of workspace_id none = false
is_of workspace_id (some id) = str_eq id workspace_id

unfoldable pub list_by_workspace : Bool → Table → Str → (limit : ℕ) → Option (List Event)
list_by_workspace lost t workspace_id limit =
    read lost
      (take limit (latest_first (where_rows (λ e. is_of workspace_id e.workspace_id) t.rows)))
