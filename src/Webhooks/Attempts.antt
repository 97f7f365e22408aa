-- ===== src/Webhooks/Attempts.antt =====
-- How often a delivery is tried.
use usp_cloud_native.Prelude.{
  ℕ, ◌+◌, All, false, ◌≤◌, ◌<◌, Str, true, if◌then◌else◌, Option, none, some, List, [], ◌∷◌, first,
  first-holds, first-update_rows, update_rows, str_eq_iff, sym, subst, arith, ◌≡◌, ◌⊎◌, refl,
  Bool-cases, Option-cases, inl, inr,
}
use usp_cloud_native.Webhooks.{
  Webhook, Delivery, pending, delivered, abandoned, Tables, Outside, is_delivery, is_due, claimed,
  set_delivered, set_failed, update_status, update_success, mark_failed, mark_delivered,
  record_failure, is_success, is_deliverable, next_retry_delay, get_by_id, load_hook, report,
  process_delivery, demoted, responded, loaded,
}

-- What became of the row of a delivery that was processed at its `n`-th attempt.
abbrev pub IsSettled : Str → ℕ → Delivery → Tables → Type 0
IsSettled id n row t =
    (row' : Delivery) × (first (is_delivery id) t.deliveries ≡ some row')
    × (row'.attempt_count ≡ row.attempt_count)
    × ((row'.status ≡ delivered)
        ⊎ ((row'.status ≡ abandoned) ⊎ ((row'.status ≡ pending) × (n < 5))))

first-updated :
    (id : Str) (f : Delivery → Delivery) (ds : List Delivery) (row : Delivery)
    → ((d : Delivery) → is_delivery id (f d) ≡ is_delivery id d)
    → first (is_delivery id) ds ≡ some row
    → first (is_delivery id) (update_rows (is_delivery id) f ds) ≡ some (f row)
first-updated id f ds row same e =
    rw
      (
        first-update_rows (is_delivery id) (is_delivery id) f same ds,
        e,
        first-holds (is_delivery id) ds row e,
      )
      refl

retry-lt : (n delay : ℕ) → next_retry_delay n ≡ some delay → n < 5
unfolding next_retry_delay
retry-lt n delay e = ground arith

module _ (o : Outside) (t : Tables) (d row : Delivery)
    (e : first (is_delivery d.id) t.deliveries ≡ some row) (kept : o.mark_lost ≡ false) where
  abandoned-IsSettled :
      (status : Option ℕ)
      → IsSettled d.id d.attempt_count row (mark_failed o.mark_lost t d.id status none)
  unfolding mark_failed
  abandoned-IsSettled status = rw kept (
    set_failed status none row,
    first-updated d.id (set_failed status none) t.deliveries row (λ x. refl) e,
    refl,
    inr (inl refl),
  )

  delivered-IsSettled :
      (status : ℕ) (hook_id : Str)
      → IsSettled d.id d.attempt_count row (
          update_success o.hook_lost (mark_delivered o.mark_lost t d.id status o.now) hook_id o.now)
  unfolding mark_delivered update_success
  delivered-IsSettled status hook_id = rw kept (
    set_delivered status o.now row,
    first-updated d.id (set_delivered status o.now) t.deliveries row (λ x. refl) e,
    refl,
    inl refl,
  )

  demoted-IsSettled :
      (status : Option ℕ) (hook : Option Webhook)
      → IsSettled d.id d.attempt_count row
          (demoted o (mark_failed o.mark_lost t d.id status none) hook)
  unfolding update_status
  demoted-IsSettled status none = abandoned-IsSettled status
  demoted-IsSettled status (some hook) = abandoned-IsSettled status

  record_failure-IsSettled :
      (hook : Option Webhook) (status : Option ℕ)
      → IsSettled d.id d.attempt_count row (record_failure o t d hook status)
  unfolding record_failure mark_failed
  record_failure-IsSettled hook status = elim (Option-cases (next_retry_delay d.attempt_count)) [
    | inl n ↦ rw (n, record_failure) (demoted-IsSettled status hook)
    | inr (delay, n) ↦
        rw (n, record_failure, kept)
          (
            set_failed status (some (o.now + delay)) row,
            first-updated d.id (set_failed status (some (o.now + delay))) t.deliveries row
                (λ x. refl) e,
            refl,
            inr (inr (refl, retry-lt d.attempt_count delay n)),
          )
  ]

  responded-IsSettled :
      (hook : Webhook) (response : Option ℕ)
      → IsSettled d.id d.attempt_count row (responded o t d hook response)
  responded-IsSettled hook none = record_failure-IsSettled (some hook) none
  responded-IsSettled hook (some status) = elim (Bool-cases (is_success status)) [
    | inl y ↦ rw y (delivered-IsSettled status hook.id)
    | inr n ↦ rw n (record_failure-IsSettled (some hook) (some status))
  ]

  loaded-IsSettled :
      (hook : Option Webhook) → IsSettled d.id d.attempt_count row (loaded o t d hook)
  loaded-IsSettled none = abandoned-IsSettled none
  loaded-IsSettled (some hook) = elim (Bool-cases (is_deliverable hook)) [
    | inl y ↦ rw y (responded-IsSettled hook o.response)
    | inr n ↦ rw n (abandoned-IsSettled none)
  ]

  process_delivery-IsSettled : IsSettled d.id d.attempt_count row (process_delivery o t d)
  unfolding process_delivery load_hook report
  process_delivery-IsSettled = elim (Bool-cases o.load_lost) [
    | inl y ↦ rw y (record_failure-IsSettled none none)
    | inr n ↦ rw n (loaded-IsSettled (get_by_id t d.webhook_id d.workspace_id))
  ]

-- One round for a delivery: if its row is due it is claimed and processed.
tried : Outside → Tables → Str → Option Delivery → Tables
tried o t id none = t
tried o t id (some d) =
    if is_due o.now d
    then process_delivery o
        (record t { deliveries = update_rows (is_delivery id) (claimed o.now) t.deliveries })
        (claimed o.now d)
    else t

-- A delivery that no worker holds, with attempts left if it is pending.
abbrev pub IsIdle : Delivery → Type 0
IsIdle row =
    (row.attempt_count ≤ 5)
    × ((row.status ≡ delivered)
        ⊎ ((row.status ≡ abandoned) ⊎ ((row.status ≡ pending) × (row.attempt_count < 5))))

due_pending :
    (now : ℕ) (row : Delivery) → is_due now row ≡ true → IsIdle row → row.attempt_count < 5
unfolding is_due
due_pending now row y (most, inl e) = absurd (ground (arith, e, y))
due_pending now row y (most, inr (inl e)) = absurd (ground (arith, e, y))
due_pending now row y (most, inr (inr (e, less))) = less

settled-IsIdle :
    (row row' : Delivery)
    → row.attempt_count < 5
    → row'.attempt_count ≡ row.attempt_count + 1
    → (row'.status ≡ delivered)
      ⊎ ((row'.status ≡ abandoned) ⊎ ((row'.status ≡ pending) × (row.attempt_count + 1 < 5)))
    → IsIdle row'
settled-IsIdle row row' less count (inl e) = (omega arith, inl e)
settled-IsIdle row row' less count (inr (inl e)) = (omega arith, inr (inl e))
settled-IsIdle row row' less count (inr (inr (e, left))) = (omega arith, inr (inr (e, omega arith)))

-- After a round: the row is there, idle again, and has counted the try, if there was one.
abbrev pub HasNext : Outside → Str → Delivery → Tables → Type 0
HasNext o id row t =
    (row' : Delivery) × (first (is_delivery id) t.deliveries ≡ some row')
    × IsIdle row'
    × (row'.attempt_count ≡ row.attempt_count + (if is_due o.now row then 1 else 0))

tried-HasNext :
    (o : Outside) (t : Tables) (id : Str) (row : Delivery)
    → first (is_delivery id) t.deliveries ≡ some row
    → IsIdle row
    → o.mark_lost ≡ false
    → HasNext o id row (tried o t id (some row))
unfolding tried
tried-HasNext o t id row e idle kept =
    let same = (str_eq_iff row.id id).0 (first-holds (is_delivery id) t.deliveries row e) in
    let d = claimed o.now row in
    let u = record t { deliveries = update_rows (is_delivery id) (claimed o.now) t.deliveries } in
    let there = first-updated id (claimed o.now) t.deliveries row (λ x. refl) e in
    let settled =
      process_delivery-IsSettled o u d d
        (subst (λ i. first (is_delivery i) u.deliveries ≡ some d) (sym same) there) kept in
    let (row', read, count, status) =
      subst (λ i. IsSettled i d.attempt_count d (process_delivery o u d)) same settled in
    elim (Bool-cases (is_due o.now row)) [
      | inl y ↦
          rw y
            (row', read, settled-IsIdle row row' (due_pending o.now row y idle) count status, count)
      | inr n ↦ rw n (row, e, idle, omega arith)
    ]

-- How often the delivery is claimed and processed.
abbrev try_count : ℕ → Option Delivery → ℕ
try_count now none = 0
try_count now (some d) = if is_due now d then 1 else 0

unfoldable pub tries : Tables → Str → List Outside → ℕ
unfolding tried
tries t id [] = 0
tries t id (o ∷ rest) =
    let row = first (is_delivery id) t.deliveries in
    try_count o.now row + tries (tried o t id row) id rest

-- A delivery that no worker holds is tried at most so often that its counter reaches five, however often
-- the workers come back, whatever the receiver answers and whichever reads of the hook fail, where each
-- claim is processed before the next and the statements that report on the delivery are not lost.
pub tries_bound :
    (t : Tables) (id : Str) (row : Delivery) (rest : List Outside)
    → first (is_delivery id) t.deliveries ≡ some row
    → IsIdle row
    → All (λ o. o.mark_lost ≡ false) rest
    → row.attempt_count + tries t id rest ≤ 5
unfolding tries
tries_bound t id row [] e idle kept = omega (arith, idle.0)
tries_bound t id row (o ∷ rest) e idle (here, later) =
    let (row', e', idle', counted) = tried-HasNext o t id row e idle here in
    let bound = tries_bound (tried o t id (some row)) id row' rest e' idle' later in
    rw e (omega (arith, bound, counted))
