-- ===== src/Exports/Download.antt =====
-- internal/interfaces/http/handler/export.go: the answers for a job, and the download.
pub mod Laws
pub mod Roundtrip
use usp_cloud_native.Prelude.{
  ℕ, Str, str_eq, is_empty, Bool, true, false, not, ◌&&◌, if◌then◌else◌, Option, none, some, List,
  [], ◌∷◌, Result, ok, err, lookup,
}
use usp_cloud_native.Access.Claims.{Claims}
use usp_cloud_native.Exports.Entity.{
  Export, Status, is_completed, is_downloadable, content_type, file_name, ExportErr, not_found,
  window_too_large, invalid_date_range, invalid_format, server,
}
use usp_cloud_native.Exports.Signing.{Signer, verify, build_download_url}
use usp_cloud_native.Exports.Repository.{Table, get_by_id, get_any_by_id}
use usp_cloud_native.Exports.Worker.{Files, file_of}

-- An answer is a problem with a status, or a file: its content type, its name and its content.
pub data Answer : Type 0 where
  problem : ℕ → Answer
  sent : Str → Str → Str → Answer

pub record Outside : Type 0 where
  pub signer : Signer
  pub day : ℕ → Str
  pub lookup_lost : Bool
  pub reader_lost : Bool
  pub now : ℕ

abbrev pub lookup_status : ExportErr → ℕ
lookup_status not_found = 404
lookup_status window_too_large = 500
lookup_status invalid_date_range = 500
lookup_status invalid_format = 500
lookup_status server = 500

abbrev pub opened : Outside → Export → Option Str → Answer
opened o e none = problem 410
opened o e (some content) = sent (content_type e.format) (file_name o.day e) content

abbrev pub verified : Outside → Files → Str → Export → Answer
verified o files export_id e =
    if o.reader_lost
    then problem 500
    else opened o e (lookup (file_of (record e { id = export_id })) files)

abbrev pub ready : Outside → Files → (export_id token : Str) → Export → Option ℕ → Answer
ready o files export_id token e none = problem 409
ready o files export_id token e (some expires_at) =
    if not (verify o.signer o.now export_id token expires_at)
    then problem 401
    else verified o files export_id e

abbrev pub found : Outside → Files → (export_id token : Str) → Result ExportErr Export → Answer
found o files export_id token (err e) = problem (lookup_status e)
found o files export_id token (ok e) =
    if not (is_completed e.status)
    then problem 409
    else ready o files export_id token e e.download_expires_at

-- The handler takes no claims: the token stands for them.
unfoldable pub download : Outside → Table → Files → (export_id token : Str) → Answer
unfolding get_any_by_id verify content_type file_name
download o t files export_id token =
    if is_empty token
    then problem 401
    else found o files export_id token (get_any_by_id o.lookup_lost t export_id)

-- `toExportResponse`: the fields that are not the job's own.
pub record ExportResponse : Type 0 where
  pub job : Export
  pub row_count : Option ℕ
  pub file_size_bytes : Option ℕ
  pub download_url : Option Str

unfoldable pub to_export_response : Export → (base_url : Str) → (now : ℕ) → ExportResponse
unfolding is_downloadable build_download_url
to_export_response e base_url now = record {
  job = e;
  row_count = if is_completed e.status then some e.row_count else none;
  file_size_bytes = if is_completed e.status then some e.file_size_bytes else none;
  download_url =
      if is_completed e.status && (is_downloadable e now && not (is_empty e.download_token))
      then some (build_download_url base_url e.id e.download_token)
      else none;
}

-- `writeError`, for the errors of the use cases.
abbrev pub status_of : ExportErr → ℕ
status_of invalid_date_range = 422
status_of window_too_large = 422
status_of invalid_format = 422
status_of not_found = 404
status_of server = 500

abbrev responded : Result ExportErr Export → (base_url : Str) → (now : ℕ) → Result ℕ ExportResponse
unfolding to_export_response
responded (ok e) base_url now = ok (to_export_response e base_url now)
responded (err e) base_url now = err (status_of e)

-- `Get`
unfoldable pub get :
    Bool → Table → Option Claims → (export_id base_url : Str) → (now : ℕ) → Result ℕ ExportResponse
unfolding get_by_id responded
get lost t none export_id base_url now = err 401
get lost t (some c) export_id base_url now =
    responded (get_by_id lost t export_id c.workspace_id) base_url now
