-- ===== src/Exports/Worker/Laws.antt =====
-- What the worker does to jobs.
use usp_cloud_native.Prelude.{
  ℕ, Str, str_eq, str_eq_iff, any, first, where_rows, update_rows, Bool, true, false, not, ◌&&◌,
  if◌then◌else◌, Option, none, some, List, [], ◌∷◌, ok, Bool-cases, Option-cases, arith, ◌≡◌, refl,
  ◌∙◌, inl, inr,
}
use usp_cloud_native.Analytics.Event.{RedirectEvent}
use usp_cloud_native.Exports.Entity.{Export, is_pending}
use usp_cloud_native.Exports.Repository.{
  Table, has_id, oldest, next_job, started, claimed, claim_pending, unless, set_completed,
  set_failed, mark_completed, mark_failed,
}
use usp_cloud_native.Exports.Worker.{
  Worker, Outside, State, or_same, fail, completion, complete, close, fill, with_job, write_rows,
  process_one, remove, put, file_of,
}

-- No job of this id waits.
abbrev pub is_settled : Str → Table → Bool
is_settled id t = not (any (λ e. has_id id e && is_pending e.status) t)

any-where_rows-oldest :
    (id : Str) (t : Table) (job : Export)
    → oldest (where_rows (λ e. is_pending e.status) t) ≡ some job
    → is_settled id t ≡ true
    → str_eq job.id id ≡ false
any-where_rows-oldest id [] job h s = absurd (ground arith)
any-where_rows-oldest id (e ∷ t) job h s = elim (Bool-cases (is_pending e.status)) [
  | inr n ↦ any-where_rows-oldest id t job (rw n at h) (ground (arith, s, n))
  | inl y ↦
      let mine : str_eq e.id id ≡ false = ground (arith, s, y) in
      let rest : is_settled id t ≡ true = ground (arith, s, y) in
      elim (Option-cases (oldest (where_rows (λ v. is_pending v.status) t))) [
        | inl m ↦ ground (arith, (rw (y, m) at h), mine)
        | inr (v, m) ↦
            let other = any-where_rows-oldest id t v m rest in
            ground (arith, (rw (y, m) at h), mine, other)
      ]
]

-- An update of the rows of another id.
first-update_other :
    (id other : Str) (f : Export → Export) (t : Table)
    → str_eq other id ≡ false
    → ((e : Export) → has_id id (f e) ≡ has_id id e)
    → first (has_id id) (update_rows (has_id other) f t) ≡ first (has_id id) t
first-update_other id other f [] n same = refl
first-update_other id other f (e ∷ t) n same = elim (Bool-cases (str_eq e.id other)) [
  | inr m ↦ rw m (ground (arith, first-update_other id other f t n same))
  | inl m ↦
      let e_other = (str_eq_iff e.id other).0 m in
      let miss : has_id id e ≡ false = rw e_other n in
      rw (m, same e, miss) (first-update_other id other f t n same)
]

-- What holds of both branches.
pub if-either {ℓ κ} :
    {A : Type ℓ} (P : A → Type κ) (b : Bool) (x y : A) → P x → P y → P (if b then x else y)
if-either P true x y p q = p
if-either P false x y p q = q

or_same-unless :
    (P : Table → Type 0) (lost : Bool) (t t' : Table)
    → P t
    → P t'
    → P (or_same t (unless lost (ok t')))
or_same-unless P true t t' p q = p
or_same-unless P false t t' p q = q

module _ (w : Worker) (o : Outside) (events : List RedirectEvent) (id : Str) where
  fail-keeps :
      (job : Export) (s : State)
      → str_eq job.id id ≡ false
      → first (has_id id) (State.exports (fail o job s)) ≡ first (has_id id) s.exports
  unfolding mark_failed
  fail-keeps job s n =
      or_same-unless (λ t. first (has_id id) t ≡ first (has_id id) s.exports) o.mark_lost s.exports
        (update_rows (has_id job.id) (set_failed o.message o.marked_at) s.exports) refl
        (first-update_other id job.id (set_failed o.message o.marked_at) s.exports n (λ e. refl))

  complete-keeps :
      (job : Export) (content : Str) (rows : ℕ) (s : State)
      → str_eq job.id id ≡ false
      → first (has_id id) (State.exports (complete w o job content rows s))
        ≡ first (has_id id) s.exports
  unfolding mark_completed
  complete-keeps job content rows s n =
      let set = set_completed (completion w o job content rows) o.marked_at in
      or_same-unless (λ t. first (has_id id) t ≡ first (has_id id) s.exports) o.mark_lost s.exports
        (update_rows (has_id job.id) set s.exports) refl
        (first-update_other id job.id set s.exports n (λ e. refl))

  close-keeps :
      (job : Export) (written : Option (Str × ℕ)) (s : State)
      → str_eq job.id id ≡ false
      → first (has_id id) (State.exports (close w o job written s)) ≡ first (has_id id) s.exports
  close-keeps job none s n =
      fail-keeps job
        (record s {
          files =
              if o.delete_lost
              then put (file_of job) o.remains s.files
              else remove (file_of job) s.files;
        })
        n
  close-keeps job (some (content, rows)) s n =
      let filled = record s { files = put (file_of job) content s.files } in
      if-either (λ x. first (has_id id) (State.exports x) ≡ first (has_id id) s.exports) o.size_lost
        (fail o job filled) (complete w o job content rows filled) (fail-keeps job filled n)
        (complete-keeps job content rows filled n)

  fill-keeps :
      (job : Export) (s : State)
      → str_eq job.id id ≡ false
      → first (has_id id) (State.exports (fill w o events job s)) ≡ first (has_id id) s.exports
  fill-keeps job s n =
      if-either (λ x. first (has_id id) (State.exports x) ≡ first (has_id id) s.exports)
        o.writer_lost (fail o job s) (close w o job (write_rows w o job events) s)
        (fail-keeps job s n) (close-keeps job (write_rows w o job events) s n)

  claimed-keeps :
      (s : State) (next : Option Export)
      → next_job s.exports ≡ next
      → is_settled id s.exports ≡ true
      → first
          (has_id id)
          (State.exports (with_job w o events s (ok (claimed s.exports o.claimed_at next))))
        ≡ first (has_id id) s.exports
  claimed-keeps s none m h = refl
  claimed-keeps s (some job) m h =
      let other = any-where_rows-oldest id s.exports job m h in
      fill-keeps (started o.claimed_at job)
        (record s { exports = update_rows (has_id job.id) (started o.claimed_at) s.exports }) other
      ∙ first-update_other id job.id (started o.claimed_at) s.exports other (λ e. refl)

  by_claim :
      (s : State) (lost : Bool) (claim : Option Export × Table)
      → first (has_id id) (State.exports (with_job w o events s (ok claim)))
        ≡ first (has_id id) s.exports
      → first (has_id id) (State.exports (with_job w o events s (unless lost (ok claim))))
        ≡ first (has_id id) s.exports
  by_claim s true claim h = refl
  by_claim s false claim h = h

  -- The worker changes no job that is not pending: one that another worker has claimed, that is
  -- completed or that has failed stays as it is, whatever fails.
  pub process_one-settled :
      (s : State)
      → is_settled id s.exports ≡ true
      → first (has_id id) (State.exports (process_one w o events s)) ≡ first (has_id id) s.exports
  unfolding process_one claim_pending
  process_one-settled s h =
      by_claim s o.claim_lost (claimed s.exports o.claimed_at (next_job s.exports))
        (claimed-keeps s (next_job s.exports) refl h)
