-- ===== src/Exports/Repository.antt =====
-- internal/infrastructure/postgres/export_repository.go over the table of the migration
-- create_exports. A row refers to a workspace. Of a replica only its lag is modelled: reads take the
-- table that they are given.
use usp_cloud_native.Prelude.{
  ℕ, ◌-◌, ◌*◌, ◌==◌, Str, str_eq, leb, ltb, take, any, first, where_rows, update_rows, Bool, true,
  false, not, ◌&&◌, ◌||◌, if◌then◌else◌, Option, none, some, List, [], ◌∷◌, ◌++◌, map, Result, ok,
  err,
}
use usp_cloud_native.Workspaces.Entity.{Workspace}
use usp_cloud_native.Analytics.Event.{RedirectEvent}
use usp_cloud_native.Exports.Entity.{
  Export, processing, completed, failed, is_pending, format_csv, format_json_lines,
  RedirectEventRow, ExportErr, not_found, server,
}

abbrev pub Table : Type 0
Table = List Export

abbrev pub day : ℕ
day = 24 * 3600000000000

abbrev pub has_id : Str → Export → Bool
has_id id e = str_eq e.id id

-- The check constraints on the format and on the dates.
unfoldable pub row_ok : Export → Bool
row_ok e =
    (str_eq e.format format_csv || str_eq e.format format_json_lines)
    && (ltb e.date_from e.date_to && leb (e.date_to - e.date_from) (365 * day))

abbrev pub unless {ℓ} : {A : Type ℓ} → Bool → Result ExportErr A → Result ExportErr A
unless true r = err server
unless false r = r

-- The columns that the statement does not name are NULL, which is read as empty.
abbrev pub stored : Export → Export
stored e = record e {
  file_path = [];
  row_count = 0;
  file_size_bytes = 0;
  download_token = [];
  download_expires_at = none;
  error_message = [];
  worker_started_at = none;
  completed_at = none;
}

unfoldable pub create : Bool → List Workspace → Table → Export → Result ExportErr Table
unfolding row_ok
create lost workspaces t e = unless lost (
    if not (row_ok e)
    then err server
    else if any (has_id e.id) t
    then err server
    else if not (any (λ w. str_eq w.id e.workspace_id) workspaces)
    then err server
    else ok (t ++ stored e ∷ []))

abbrev pub row_or_error : Option Export → Result ExportErr Export
row_or_error none = err not_found
row_or_error (some e) = ok e

unfoldable pub get_by_id : Bool → Table → Str → Str → Result ExportErr Export
get_by_id lost t id workspace_id =
    unless lost (row_or_error (first (λ e. has_id id e && str_eq e.workspace_id workspace_id) t))

unfoldable pub get_any_by_id : Bool → Table → Str → Result ExportErr Export
get_any_by_id lost t id = unless lost (row_or_error (first (has_id id) t))

-- `ORDER BY created_at DESC`
abbrev insert_newest : Export → Table → Table
insert_newest e [] = e ∷ []
insert_newest e (v ∷ t) =
    let rest = insert_newest e t in if leb v.created_at e.created_at then e ∷ v ∷ t else v ∷ rest

abbrev pub newest_first : Table → Table
newest_first [] = []
newest_first (e ∷ t) = insert_newest e (newest_first t)

unfoldable pub list_by_workspace : Bool → Table → Str → ℕ → Result ExportErr Table
list_by_workspace lost t workspace_id limit = unless lost (
    ok (
      take (if limit == 0 then 20 else limit)
        (newest_first (where_rows (λ e. str_eq e.workspace_id workspace_id) t))))

-- `ORDER BY created_at ASC LIMIT 1`
abbrev pub older : Export → Option Export → Export
older e none = e
older e (some v) = if leb e.created_at v.created_at then e else v

abbrev pub oldest : Table → Option Export
oldest [] = none
oldest (e ∷ t) = some (older e (oldest t))

abbrev pub next_job : Table → Option Export
next_job t = oldest (where_rows (λ e. is_pending e.status) t)

abbrev pub started : ℕ → Export → Export
started now e = record e { status = processing; worker_started_at = some now }

abbrev pub claimed : Table → ℕ → Option Export → Option Export × Table
claimed t now none = (none, t)
claimed t now (some e) = (some (started now e), update_rows (has_id e.id) (started now) t)

-- Rows that other workers have locked are skipped: here no other worker is between its lock and its
-- update.
unfoldable pub claim_pending : Bool → Table → ℕ → Result ExportErr (Option Export × Table)
claim_pending lost t now = unless lost (ok (claimed t now (next_job t)))

pub record Completion : Type 0 where
  pub file_path : Str
  pub row_count : ℕ
  pub file_size_bytes : ℕ
  pub token : Str
  pub expires_at : ℕ

abbrev pub set_completed : Completion → ℕ → Export → Export
set_completed c now e = record e {
  status = completed;
  file_path = c.file_path;
  row_count = c.row_count;
  file_size_bytes = c.file_size_bytes;
  download_token = c.token;
  download_expires_at = some c.expires_at;
  completed_at = some now;
  error_message = [];
}

unfoldable pub mark_completed : Bool → Table → Str → Completion → ℕ → Result ExportErr Table
mark_completed lost t id c now = unless lost (ok (update_rows (has_id id) (set_completed c now) t))

abbrev pub set_failed : Str → ℕ → Export → Export
set_failed message now e = record e {
  status = failed;
  error_message = message;
  completed_at = some now;
}

unfoldable pub mark_failed : Bool → Table → Str → Str → ℕ → Result ExportErr Table
mark_failed lost t id message now =
    unless lost (ok (update_rows (has_id id) (set_failed message now) t))

-- The `WHERE` of `ReadEvents`, its order, and its columns.
abbrev pub is_exported : Export → RedirectEvent → Bool
is_exported e v =
    str_eq v.workspace_id e.workspace_id
    && ((leb e.date_from v.occurred_at && leb v.occurred_at e.date_to)
        && (e.include_bots || not v.is_bot))

abbrev insert_earliest : RedirectEvent → List RedirectEvent → List RedirectEvent
insert_earliest v [] = v ∷ []
insert_earliest v (w ∷ events) =
    let rest = insert_earliest v events in
    if leb v.occurred_at w.occurred_at then v ∷ w ∷ events else w ∷ rest

abbrev pub earliest_first : List RedirectEvent → List RedirectEvent
earliest_first [] = []
earliest_first (v ∷ events) = insert_earliest v (earliest_first events)

abbrev pub event_row : RedirectEvent → RedirectEventRow
event_row v = record {
  short_code = v.short_code;
  occurred_at = v.occurred_at;
  country_code = v.country_code;
  device_type = v.device_type;
  browser_family = v.browser_family;
  os_family = v.os_family;
  referrer_domain = v.referrer_domain;
  is_bot = v.is_bot;
}

unfoldable pub read_events : List RedirectEvent → Export → List RedirectEventRow
read_events events e = map event_row (earliest_first (where_rows (is_exported e) events))
