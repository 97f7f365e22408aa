-- ===== src/Exports/Tests.antt =====
-- Exports at concrete inputs.
use usp_cloud_native.Prelude.{
  ◌+◌, Str, codes, str_eq, first, true, false, some, List, [], ◌∷◌, ◌++◌, ok, arith, ◌≡◌, ◌≢◌, refl,
  trim_right,
}
use usp_cloud_native.Analytics.Event.{RedirectEvent}
use usp_cloud_native.Exports.Entity.{
  Export, completed, failed, format_json_lines, content_type, file_name, file_extension,
}
use usp_cloud_native.Exports.Signing.{Signer, format_int, sign, verify, build_download_url}
use usp_cloud_native.Exports.Repository.{has_id, next_job, read_events, get_any_by_id}
use usp_cloud_native.Exports.UseCases.{CreateCommand, new_export, validate}
use usp_cloud_native.Exports.Worker as Worker
use usp_cloud_native.Exports.Worker.{
  Encoding, finished, Worker, State, content_of, write_rows, completion, file_of, process_one,
}
use usp_cloud_native.Exports.Worker.Laws.{is_settled, process_one-settled}
use usp_cloud_native.Exports.Download.{Outside, sent, problem, download}
use usp_cloud_native.Exports.Download.Laws.{IsAllowed, download-IsAllowed}
use usp_cloud_native.Exports.Download.Roundtrip.{IsCalm, download-process_one}

-- A signature that keeps its payload, and lines that keep their first field.
abbrev signer : Signer
signer = record {
  secret = codes "0123456789abcdef";
  hmac = λ secret payload. payload;
  encode = λ bytes. bytes;
}

abbrev encoding : Encoding
encoding = record {
  csv_line = λ fields. codes "line;";
  json_line = λ r. r.short_code ++ codes ";";
  rfc3339 = λ at. codes "then";
}

abbrev worker : Worker
worker = record {
  signer = signer;
  encoding = encoding;
  base_dir = codes "/exports";
  download_ttl = 3000000000;
}

abbrev calm : Worker.Outside
calm = record {
  claim_lost = false;
  writer_lost = false;
  reading = finished;
  write_lost = false;
  close_lost = false;
  delete_lost = false;
  size_lost = false;
  mark_lost = false;
  message = [];
  remains = [];
  claimed_at = 100;
  now = 2000000000;
  marked_at = 2000000001;
}

calm-IsCalm : IsCalm calm
calm-IsCalm = record {
  claimed = refl;
  opened = refl;
  read = refl;
  written = refl;
  closed = refl;
  measured = refl;
  marked = refl;
}

abbrev ask : CreateCommand
ask = record {
  workspace_id = codes "ws1";
  requested_by = codes "user1";
  format = format_json_lines;
  date_from = 10;
  date_to = 50;
  include_bots = false;
}

abbrev job : Export
job = new_export (codes "x1") 60 ask

abbrev old_job : Export
old_job = record job { id = codes "x0"; status = failed }

ask_accepted : validate 0 ask ≡ ok tt
unfolding validate str_eq
ask_accepted = refl

abbrev event : RedirectEvent
event = record {
  id = codes "E1";
  short_code = codes "abc";
  workspace_id = codes "ws1";
  occurred_at = 40;
  ip_hash = [];
  user_agent = [];
  device_type = codes "mobile";
  browser_family = codes "unknown";
  os_family = codes "iOS";
  is_bot = false;
  country_code = codes "XX";
  referrer_domain = codes "direct";
  referrer_raw = [];
  request_id = codes "r1";
}

abbrev events : List RedirectEvent
events =
    event
    ∷ record event { short_code = codes "bot"; is_bot = true }
    ∷ record event { short_code = codes "old"; occurred_at = 20 }
    ∷ record event { workspace_id = codes "ws2" }
    ∷ []

abbrev state : State
state = record { exports = old_job ∷ job ∷ []; files = [] }

failed_settled : is_settled (codes "x0") state.exports ≡ true
unfolding str_eq
failed_settled = refl

process_one-settled_example :
    first (has_id (codes "x0")) (State.exports (process_one worker calm events state))
    ≡ first (has_id (codes "x0")) state.exports
process_one-settled_example =
    process_one-settled worker calm events (codes "x0") state failed_settled

job_next : next_job state.exports ≡ some job
job_next = refl

job_stored : first (has_id job.id) state.exports ≡ some job
unfolding str_eq
job_stored = refl

-- The events of the workspace by people, the earliest first.
job_content : content_of encoding job.format (read_events events job) ≡ some (codes "old;abc;")
unfolding content_of read_events str_eq
job_content = refl

abbrev token : Str
token = codes "x1|5"

token_signed : sign signer job.id (calm.now + worker.download_ttl) ≡ token
unfolding sign format_int
token_signed = refl

token_filled : sign signer job.id (calm.now + worker.download_ttl) ≢ []
unfolding sign
token_filled = ground arith

abbrev asking : Outside
asking = record {
  signer = signer;
  day = λ at. codes "2026-01-01";
  lookup_lost = false;
  reader_lost = false;
  now = 4000000000;
}

download-process_one_example :
    download asking
      (State.exports (process_one worker calm events state))
      (State.files (process_one worker calm events state))
      (codes "x1")
      (sign signer job.id (calm.now + worker.download_ttl))
    ≡ sent (content_type job.format) (file_name asking.day job) (codes "old;abc;")
download-process_one_example =
    download-process_one worker calm events state job (codes "old;abc;") asking calm-IsCalm job_next
      job_stored job_content refl refl refl (omega arith) token_filled

abbrev done_job : Export
done_job = record job {
  status = completed;
  download_token = token;
  download_expires_at = some 5000000000;
}

abbrev files : Worker.Files
files = (codes "x1.jsonl", codes "old;abc;") ∷ []

file_sent :
    download asking (done_job ∷ []) files (codes "x1") token
    ≡ sent
        (codes "application/x-ndjson")
        (codes "export_ws1_2026-01-01_to_2026-01-01.jsonl")
        (codes "old;abc;")
unfolding download get_any_by_id verify sign format_int content_type file_name file_of
    file_extension str_eq
file_sent = refl

-- A token of another job.
other_token_refused :
    download asking (done_job ∷ []) files (codes "x1") (codes "x2|5") ≡ problem 401
unfolding download get_any_by_id verify sign format_int str_eq
other_token_refused = refl

download-IsAllowed_example :
    IsAllowed asking (done_job ∷ []) files (codes "x1") token (codes "old;abc;")
download-IsAllowed_example =
    download-IsAllowed asking (done_job ∷ []) files (codes "x1") token
      (codes "application/x-ndjson") (codes "export_ws1_2026-01-01_to_2026-01-01.jsonl")
      (codes "old;abc;") file_sent

download_address :
    build_download_url (codes "https://s.example/") (codes "x1") (codes "t")
    ≡ codes "https://s.example/api/v1/exports/x1/download?token=t"
unfolding build_download_url trim_right
download_address = refl
