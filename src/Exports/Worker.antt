-- ===== src/Exports/Worker.antt =====
-- internal/application/export/worker.go over internal/infrastructure/storage, whose files are
-- bindings of a name in the base directory to a content.
pub mod Laws
use usp_cloud_native.Prelude.{
  ℕ, ◌+◌, Str, codes, str_eq, take, length, map, Bool, true, false, ◌||◌, if◌then◌else◌, Option,
  none, some, List, [], ◌∷◌, ◌++◌, Result, ok, err,
}
use usp_cloud_native.Analytics.Event.{RedirectEvent}
use usp_cloud_native.Exports.Entity.{
  Export, ExportErr, format_csv, format_json_lines, file_extension, RedirectEventRow,
}
use usp_cloud_native.Exports.Signing.{Signer, sign}
use usp_cloud_native.Exports.Repository.{
  Table, read_events, claim_pending, Completion, mark_completed, mark_failed,
}

abbrev pub Files : Type 0
Files = List (Str × Str)

abbrev pub remove : Str → Files → Files
remove name [] = []
remove name ((n, content) ∷ files) =
    let rest = remove name files in if str_eq n name then rest else (n, content) ∷ rest

abbrev pub put : Str → Str → Files → Files
put name content files = (name, content) ∷ remove name files

-- How `encoding/csv` and `encoding/json` write a line, and how a time is written.
pub record Encoding : Type 0 where
  pub csv_line : List Str → Str
  pub json_line : RedirectEventRow → Str
  pub rfc3339 : ℕ → Str

-- The rows arrive all; or some of them, before the query fails or the context is cancelled.
pub data Reading : Type 0 where
  finished : Reading
  broken cancelled : ℕ → Reading

pub record Outside : Type 0 where
  pub claim_lost : Bool
  pub writer_lost : Bool
  pub reading : Reading
  pub write_lost : Bool
  pub close_lost : Bool
  pub delete_lost : Bool
  pub size_lost : Bool
  pub mark_lost : Bool
  pub message : Str
  -- What is left in the file where it cannot be deleted.
  pub remains : Str
  pub claimed_at : ℕ
  pub now : ℕ
  pub marked_at : ℕ

pub record Worker : Type 0 where
  pub signer : Signer
  pub encoding : Encoding
  pub base_dir : Str
  pub download_ttl : ℕ

pub record State : Type 0 where
  pub exports : Table
  pub files : Files

unfoldable pub file_of : Export → Str
unfolding file_extension
file_of e = e.id ++ file_extension e.format

abbrev pub bool_text : Bool → Str
bool_text true = codes "true"
bool_text false = codes "false"

abbrev pub csv_header : List Str
csv_header =
    codes "short_code"
    ∷ codes "occurred_at"
    ∷ codes "country_code"
    ∷ codes "device_type"
    ∷ codes "browser_family"
    ∷ codes "os_family"
    ∷ codes "referrer_domain"
    ∷ codes "is_bot"
    ∷ []

abbrev pub csv_fields : Encoding → RedirectEventRow → List Str
csv_fields enc r =
    r.short_code
    ∷ enc.rfc3339 r.occurred_at
    ∷ r.country_code
    ∷ r.device_type
    ∷ r.browser_family
    ∷ r.os_family
    ∷ r.referrer_domain
    ∷ bool_text r.is_bot
    ∷ []

abbrev pub concat : List Str → Str
concat [] = []
concat (line ∷ lines) = line ++ concat lines

-- The content of the file, if the format has one.
unfoldable pub content_of : Encoding → Str → List RedirectEventRow → Option Str
content_of enc format rows =
    if str_eq format format_csv
    then some (enc.csv_line csv_header ++ concat (map (λ r. enc.csv_line (csv_fields enc r)) rows))
    else if str_eq format format_json_lines
    then some (concat (map enc.json_line rows))
    else none

abbrev pub delivered : Reading → List RedirectEventRow → List RedirectEventRow
delivered finished rows = rows
delivered (broken n) rows = take n rows
delivered (cancelled n) rows = take n rows

abbrev is_broken : Reading → Bool
is_broken finished = false
is_broken (broken n) = true
is_broken (cancelled n) = false

-- `writeRows`, and the `Close` that follows: none where one of them fails.
unfoldable pub write_rows : Worker → Outside → Export → List RedirectEvent → Option (Str × ℕ)
unfolding content_of read_events
write_rows w o job events =
    if o.write_lost || (is_broken o.reading || o.close_lost)
    then none
    else counted (delivered o.reading (read_events events job))
  where
    paired : ℕ → Option Str → Option (Str × ℕ)
    paired n none = none
    paired n (some content) = some (content, n)

    counted : List RedirectEventRow → Option (Str × ℕ)
    counted rows = paired (length rows) (content_of w.encoding job.format rows)

abbrev pub or_same : Table → Result ExportErr Table → Table
or_same t (ok t') = t'
or_same t (err e) = t

-- A mark that is lost is not tried again.
abbrev pub fail : Outside → Export → State → State
fail o job s = record s {
  exports = or_same s.exports (mark_failed o.mark_lost s.exports job.id o.message o.marked_at);
}

unfoldable pub completion : Worker → Outside → Export → Str → ℕ → Completion
unfolding sign
completion w o job content rows = record {
  file_path = w.base_dir ++ (codes "/" ++ file_of job);
  row_count = rows;
  file_size_bytes = length content;
  token = sign w.signer job.id (o.now + w.download_ttl);
  expires_at = o.now + w.download_ttl;
}

abbrev pub complete : Worker → Outside → Export → Str → ℕ → State → State
complete w o job content rows s = record s {
  exports =
      or_same s.exports
        (mark_completed o.mark_lost s.exports job.id (completion w o job content rows) o.marked_at);
}

abbrev pub close : Worker → Outside → Export → Option (Str × ℕ) → State → State
close w o job none s = fail o job (record s {
  files =
      if o.delete_lost then put (file_of job) o.remains s.files else remove (file_of job) s.files;
})
close w o job (some (content, rows)) s =
    let filled = record s { files = put (file_of job) content s.files } in
    if o.size_lost then fail o job filled else complete w o job content rows filled

abbrev pub fill : Worker → Outside → List RedirectEvent → Export → State → State
fill w o events job s =
    if o.writer_lost then fail o job s else close w o job (write_rows w o job events) s

abbrev pub with_job :
    Worker → Outside → List RedirectEvent → State → Result ExportErr (Option Export × Table) → State
with_job w o events s (err e) = s
with_job w o events s (ok (none, t)) = s
with_job w o events s (ok (some job, t)) = fill w o events job (record s { exports = t })

unfoldable pub process_one : Worker → Outside → List RedirectEvent → State → State
process_one w o events s = with_job w o events s (claim_pending o.claim_lost s.exports o.claimed_at)
