-- ===== src/Exports/UseCases.antt =====
-- internal/application/export/create_handler.go.
pub mod Laws
use usp_cloud_native.Prelude.{
  ℕ, ◌-◌, ◌*◌, ◌==◌, Str, str_eq, leb, ltb, Bool, not, ◌||◌, if◌then◌else◌, none, [], Result, ok,
  err, ◌>>=◌, ◌>>◌, reject_if, List,
}
use usp_cloud_native.Workspaces.Entity.{Workspace}
use usp_cloud_native.Exports.Entity.{
  Export, pending, format_csv, format_json_lines, ExportErr, invalid_date_range, window_too_large,
  invalid_format,
}
use usp_cloud_native.Exports.Repository.{Table, day, create}

pub record CreateCommand : Type 0 where
  pub workspace_id : Str
  pub requested_by : Str
  pub format : Str
  pub date_from : ℕ
  pub date_to : ℕ
  pub include_bots : Bool

-- `NewCreateHandler`: a window of no days stands for the default.
abbrev pub max_window : ℕ → ℕ
max_window days = (if days == 0 then 365 else days) * day

abbrev pub is_format : Str → Bool
is_format format = str_eq format format_csv || str_eq format format_json_lines

unfoldable pub validate : ℕ → CreateCommand → Result ExportErr (Unit {0})
validate max_window_days cmd = do
  reject_if (leb cmd.date_to cmd.date_from) invalid_date_range
  reject_if (ltb (max_window max_window_days) (cmd.date_to - cmd.date_from)) window_too_large
  reject_if (not (is_format cmd.format)) invalid_format

abbrev pub new_export : (id : Str) → (now : ℕ) → CreateCommand → Export
new_export id now cmd = record {
  id = id;
  workspace_id = cmd.workspace_id;
  requested_by = cmd.requested_by;
  format = cmd.format;
  status = pending;
  date_from = cmd.date_from;
  date_to = cmd.date_to;
  include_bots = cmd.include_bots;
  file_path = [];
  row_count = 0;
  file_size_bytes = 0;
  download_token = [];
  download_expires_at = none;
  error_message = [];
  created_at = now;
  worker_started_at = none;
  completed_at = none;
}

-- The answer is the job itself.
unfoldable pub create_export :
    Bool
    → ℕ
    → List Workspace
    → Table
    → (id : Str) → (now : ℕ) → CreateCommand
    → Result ExportErr (Export × Table)
create_export lost max_window_days workspaces t id now cmd = do
  validate max_window_days cmd
  t' ← create lost workspaces t (new_export id now cmd)
  ok (new_export id now cmd, t')
