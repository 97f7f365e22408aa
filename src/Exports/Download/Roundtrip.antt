-- ===== src/Exports/Download/Roundtrip.antt =====
-- From a job to its file.
use usp_cloud_native.Prelude.{
  ℕ, ◌+◌, ◌≤◌, Str, str_eq_refl, is_empty, length, first, first-holds, first-update_rows, map_if,
  update_rows, Bool, true, false, not, if◌then◌else◌, some, List, [], ◌∷◌, ok, lookup, arith, ◌≡◌,
  ◌≢◌, refl, sym, ◌∙◌, subst, ap,
}
use usp_cloud_native.Analytics.Event.{RedirectEvent}
use usp_cloud_native.Exports.Entity.{Export, completed, is_completed, content_type, file_name}
use usp_cloud_native.Exports.Signing.{Signer, sign, verify}
use usp_cloud_native.Exports.Repository.{
  Table, has_id, next_job, started, claimed, unless, claim_pending, read_events, set_completed,
  mark_completed, row_or_error, get_any_by_id,
}
use usp_cloud_native.Exports.Worker as Worker
use usp_cloud_native.Exports.Worker.{
  Worker, State, or_same, fail, finished, content_of, completion, complete, close, fill, with_job,
  write_rows, process_one, put, file_of,
}
use usp_cloud_native.Exports.Download.{sent, Outside, found, ready, verified, opened, download}

-- A round of the worker in which nothing fails.
pub record IsCalm (o : Worker.Outside) : Type 0 where
  pub claimed : o.claim_lost ≡ false
  pub opened : o.writer_lost ≡ false
  pub read : o.reading ≡ finished
  pub written : o.write_lost ≡ false
  pub closed : o.close_lost ≡ false
  pub measured : o.size_lost ≡ false
  pub marked : o.mark_lost ≡ false

if-false {ℓ} : {A : Type ℓ} (b : Bool) (x y : A) → b ≡ false → (if b then x else y) ≡ y
if-false true x y h = absurd (ground arith)
if-false false x y h = refl

unless-false {ℓ} : {A : Type ℓ} (lost : Bool) (a : A) → lost ≡ false → unless lost (ok a) ≡ ok a
unless-false true a h = absurd (ground arith)
unless-false false a h = refl

module _ (w : Worker) (o : Worker.Outside) (calm : IsCalm o) (events : List RedirectEvent) where
  write_rows-calm :
      (job : Export) (content : Str)
      → content_of w.encoding job.format (read_events events job) ≡ some content
      → write_rows w o job events ≡ some (content, length (read_events events job))
  unfolding write_rows
  write_rows-calm job content h = ground (arith, calm.written, calm.read, calm.closed, h)

  -- The table and the file after such a round.
  filled : Export → Str → State → State
  filled job content s = record {
    exports =
        update_rows (has_id job.id)
          (set_completed (completion w o job content (length (read_events events job))) o.marked_at)
          s.exports;
    files = put (file_of job) content s.files;
  }

  complete-calm :
      (job : Export) (content : Str) (s : State)
      → complete w o job content
          (length (read_events events job))
          (record s { files = put (file_of job) content s.files })
        ≡ filled job content s
  unfolding mark_completed filled
  complete-calm job content s =
      ap (λ r. record { exports = or_same s.exports r; files = put (file_of job) content s.files })
        (unless-false o.mark_lost _ calm.marked)

  fill-calm :
      (job : Export) (content : Str) (s : State)
      → content_of w.encoding job.format (read_events events job) ≡ some content
      → fill w o events job s ≡ filled job content s
  fill-calm job content s h =
      if-false o.writer_lost (fail o job s) (close w o job (write_rows w o job events) s)
        calm.opened
      ∙ (ap (λ r. close w o job r s) (write_rows-calm job content h)
          ∙ (if-false o.size_lost _ _ calm.measured ∙ complete-calm job content s))

  process_one-calm :
      (s : State) (job : Export) (content : Str)
      → next_job s.exports ≡ some job
      → content_of w.encoding job.format (read_events events job) ≡ some content
      → process_one w o events s
        ≡ filled
            (started o.claimed_at job)
            content
            (record s { exports = update_rows (has_id job.id) (started o.claimed_at) s.exports })
  unfolding process_one claim_pending read_events
  process_one-calm s job content m h =
      ap (with_job w o events s) (unless-false o.claim_lost _ calm.claimed)
      ∙ (ap (λ next. with_job w o events s (ok (claimed s.exports o.claimed_at next))) m
          ∙ fill-calm (started o.claimed_at job) content
              (record s { exports = update_rows (has_id job.id) (started o.claimed_at) s.exports })
              h)

first-updated :
    (id : Str) (f : Export → Export) (t : Table) (row : Export)
    → ((e : Export) → has_id id (f e) ≡ has_id id e)
    → first (has_id id) t ≡ some row
    → first (has_id id) (update_rows (has_id id) f t) ≡ some (f row)
first-updated id f t row same e =
    first-update_rows (has_id id) (has_id id) f same t
    ∙ (ap (map_if (has_id id) f) e ∙ hit (first-holds (has_id id) t row e))
  where
    hit : has_id id row ≡ true → map_if (has_id id) f (some row) ≡ some (f row)
    hit h = rw h refl

verify-sign :
    (signer : Signer) (now : ℕ) (id : Str) (at : ℕ)
    → now ≤ at
    → verify signer now id (sign signer id at) at ≡ true
unfolding verify
verify-sign signer now id at h = ground (arith, h, str_eq_refl (sign signer id at))

lookup-put :
    (name content : Str) (files : List (Str × Str))
    → lookup name (put name content files) ≡ some content
lookup-put name content files = ground (arith, str_eq_refl name)

is_empty-false : (s : Str) → s ≢ [] → is_empty s ≡ false
is_empty-false [] h = absurd (h refl)
is_empty-false (c ∷ s) h = refl

module _ (v : Outside) (t : Table) (files : List (Str × Str)) (id token content : Str) (e : Export)
    (at : ℕ) where
  ready-sent :
      verify v.signer v.now id token at ≡ true
      → v.reader_lost ≡ false
      → lookup (file_of (record e { id = id })) files ≡ some content
      → ready v files id token e (some at)
        ≡ sent (content_type e.format) (file_name v.day e) content
  ready-sent good reads kept =
      if-false (not (verify v.signer v.now id token at)) _ (verified v files id e)
        (ground (arith, good))
      ∙ (if-false v.reader_lost _ (opened v e (lookup (file_of (record e { id = id })) files)) reads
          ∙ ap (opened v e) kept)

  found-sent :
      e.status ≡ completed
      → e.download_expires_at ≡ some at
      → verify v.signer v.now id token at ≡ true
      → v.reader_lost ≡ false
      → lookup (file_of (record e { id = id })) files ≡ some content
      → found v files id token (ok e) ≡ sent (content_type e.format) (file_name v.day e) content
  found-sent done limit good reads kept =
      if-false (not (is_completed e.status)) _ (ready v files id token e e.download_expires_at)
        (ap (λ s. not (is_completed s)) done)
      ∙ (ap (ready v files id token e) limit ∙ ready-sent good reads kept)

  download-found :
      token ≢ []
      → v.lookup_lost ≡ false
      → first (has_id id) t ≡ some e
      → download v t files id token ≡ found v files id token (ok e)
  unfolding download get_any_by_id
  download-found filled looks here =
      if-false (is_empty token) _
        (found v files id token (unless v.lookup_lost (row_or_error (first (has_id id) t))))
        (is_empty-false token filled)
      ∙ (ap (λ lost. found v files id token (unless lost (row_or_error (first (has_id id) t))))
            looks
          ∙ ap (λ row. found v files id token (row_or_error row)) here)

-- After a round of the worker in which nothing fails the oldest pending job can be downloaded with its
-- token until it expires, where the replica shows what the primary holds. What is sent are the lines of
-- the events of the job's workspace in its window, in the job's format.
pub download-process_one :
    (w : Worker) (o : Worker.Outside) (events : List RedirectEvent) (s : State) (job : Export)
    (content : Str) (v : Outside)
    → IsCalm o
    → next_job s.exports ≡ some job
    → first (has_id job.id) s.exports ≡ some job
    → content_of w.encoding job.format (read_events events job) ≡ some content
    → v.signer ≡ w.signer
    → v.lookup_lost ≡ false
    → v.reader_lost ≡ false
    → v.now ≤ o.now + w.download_ttl
    → sign w.signer job.id (o.now + w.download_ttl) ≢ []
    → download v
        (State.exports (process_one w o events s))
        (State.files (process_one w o events s))
        job.id
        (sign w.signer job.id (o.now + w.download_ttl))
      ≡ sent (content_type job.format) (file_name v.day job) content
unfolding filled completion read_events file_of file_name
download-process_one w o events s job content v calm oldest here content_is same looks reads in_time
      signed =
    let token = sign w.signer job.id (o.now + w.download_ttl) in
    let count = length (read_events events job) in
    let begun = started o.claimed_at job in
    let set = set_completed (completion w o begun content count) o.marked_at in
    let mid = update_rows (has_id job.id) (started o.claimed_at) s.exports in
    let t = update_rows (has_id job.id) set mid in
    let files = put (file_of begun) content s.files in
    let row₁ : first (has_id job.id) mid ≡ some begun =
      first-updated job.id (started o.claimed_at) s.exports job (λ x. refl) here in
    let row₂ : first (has_id job.id) t ≡ some (set begun) =
      first-updated job.id set mid begun (λ x. refl) row₁ in
    let good : verify v.signer v.now job.id token (o.now + w.download_ttl) ≡ true =
      subst (λ signer. verify signer v.now job.id token (o.now + w.download_ttl) ≡ true) (sym same)
        (verify-sign w.signer v.now job.id (o.now + w.download_ttl) in_time) in
    ap (λ x. download v (State.exports x) (State.files x) job.id token)
      (process_one-calm w o calm events s job content oldest content_is)
    ∙ (download-found v t files job.id token content (set begun) (o.now + w.download_ttl) signed
          looks row₂
        ∙ found-sent v t files job.id token content (set begun) (o.now + w.download_ttl) refl refl
            good reads (lookup-put (file_of begun) content s.files))
