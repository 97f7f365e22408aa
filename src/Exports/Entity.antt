-- ===== src/Exports/Entity.antt =====
-- internal/domain/export: entity.go and errors.go.
use usp_cloud_native.Prelude.{
  ℕ, Str, codes, str_eq, take, ltb, Bool, true, false, ◌&&◌, if◌then◌else◌, Option, none, some,
  ◌++◌,
}

abbrev pub format_csv : Str
format_csv = codes "csv"

abbrev pub format_json_lines : Str
format_json_lines = codes "json_lines"

pub data Status : Type 0 where
  pending processing completed failed : Status

pub record Export : Type 0 where
  pub id : Str
  pub workspace_id : Str
  pub requested_by : Str
  pub format : Str
  pub status : Status
  pub date_from : ℕ
  pub date_to : ℕ
  pub include_bots : Bool
  pub file_path : Str
  pub row_count : ℕ
  pub file_size_bytes : ℕ
  pub download_token : Str
  pub download_expires_at : Option ℕ
  pub error_message : Str
  pub created_at : ℕ
  pub worker_started_at : Option ℕ
  pub completed_at : Option ℕ

abbrev pub is_completed : Status → Bool
is_completed pending = false
is_completed processing = false
is_completed completed = true
is_completed failed = false

abbrev pub is_pending : Status → Bool
is_pending pending = true
is_pending processing = false
is_pending completed = false
is_pending failed = false

abbrev before : ℕ → Option ℕ → Bool
before now none = false
before now (some at) = ltb now at

unfoldable pub is_downloadable : Export → ℕ → Bool
is_downloadable e now = is_completed e.status && before now e.download_expires_at

unfoldable pub file_extension : Str → Str
file_extension format =
    if str_eq format format_csv
    then codes ".csv"
    else if str_eq format format_json_lines
    then codes ".jsonl"
    else codes ".dat"

unfoldable pub content_type : Str → Str
content_type format =
    if str_eq format format_csv
    then codes "text/csv; charset=utf-8"
    else if str_eq format format_json_lines
    then codes "application/x-ndjson"
    else codes "application/octet-stream"

-- `day` writes the day of a time.
unfoldable pub file_name : (ℕ → Str) → Export → Str
unfolding file_extension
file_name day e =
    codes "export_"
    ++ (take 8 e.workspace_id
        ++ (codes "_"
            ++ (day e.date_from ++ (codes "_to_" ++ (day e.date_to ++ file_extension e.format)))))

pub record RedirectEventRow : Type 0 where
  pub short_code : Str
  pub occurred_at : ℕ
  pub country_code : Str
  pub device_type : Str
  pub browser_family : Str
  pub os_family : Str
  pub referrer_domain : Str
  pub is_bot : Bool

pub data ExportErr : Type 0 where
  not_found window_too_large invalid_date_range invalid_format server : ExportErr
