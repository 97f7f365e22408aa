-- ===== src/Webhooks/Laws.antt =====
-- What the processing of deliveries does to the hooks and to a delivery.
use usp_cloud_native.Prelude.{
  ℕ, zero, suc, ◌+◌, Str, str_eq, str_eq_iff, Bool, true, false, ◌&&◌, if◌then◌else◌, Option, none,
  some, List, [], ◌∷◌, All, All-first, update_rows, arith, ◌≡◌, ◌≢◌, refl, Bool-cases, Option-cases,
  inl, inr,
}
use usp_cloud_native.Webhooks.{
  Webhook, Delivery, failing, Tables, Outside, is_hook, is_deliverable, set_status, set_success,
  update_status, update_success, mark_failed, mark_delivered, record_failure, is_success,
  next_retry_delay, get_by_id, load_hook, report, demoted, responded, Workers, put_back, take_out,
  Step, loads, reports, reported, step, run,
}

All-update_rows {ℓ κ} :
    {A : Type ℓ} (P : A → Type κ) (p : A → Bool) (f : A → A) (xs : List A)
    → ((x : A) → p x ≡ true → P x → P (f x))
    → All P xs
    → All P (update_rows p f xs)
All-update_rows P p f [] keep h = tt
All-update_rows P p f (x ∷ xs) keep (e, h) = (here, All-update_rows P p f xs keep h)
  where
    here : P (if p x then f x else x)
    here = elim (Bool-cases (p x)) [ inl i ↦ rw i (keep x i e) | inr i ↦ rw i e ]

-- No row of the hook may be delivered to.
abbrev pub IsDormant : Str → Tables → Type 0
IsDormant id t = All (λ h. is_hook id h ≡ true → is_deliverable h ≡ false) t.hooks

update_status-IsDormant :
    (lost : Bool) (t : Tables) (id hook_id : Str) (n at : ℕ)
    → IsDormant id t
    → IsDormant id (update_status lost t hook_id failing n at)
unfolding update_status is_deliverable
update_status-IsDormant true t id hook_id n at h = h
update_status-IsDormant false t id hook_id n at h =
    All-update_rows (λ x. is_hook id x ≡ true → is_deliverable x ≡ false) (is_hook hook_id)
      (set_status failing n at) t.hooks (λ x i e j. refl) h

update_success-IsDormant :
    (lost : Bool) (t : Tables) (id hook_id : Str) (at : ℕ)
    → hook_id ≢ id
    → IsDormant id t
    → IsDormant id (update_success lost t hook_id at)
unfolding update_success
update_success-IsDormant true t id hook_id at differs h = h
update_success-IsDormant false t id hook_id at differs h =
    All-update_rows (λ x. is_hook id x ≡ true → is_deliverable x ≡ false) (is_hook hook_id)
      (set_success at) t.hooks
      (λ x i e j. absurd (ground (arith, str_eq_iff x.id hook_id, str_eq_iff x.id id))) h

record_failure-IsDormant :
    (o : Outside) (t : Tables) (d : Delivery) (hook : Option Webhook) (status : Option ℕ) (id : Str)
    → IsDormant id t
    → IsDormant id (record_failure o t d hook status)
unfolding record_failure mark_failed
record_failure-IsDormant o t d hook status id h =
    elim (Option-cases (next_retry_delay d.attempt_count)) [
      | inl e ↦ rw (e, record_failure) (last hook)
      | inr (delay, e) ↦ rw (e, record_failure) h
    ]
  where
    last :
        (hook : Option Webhook)
        → IsDormant id (demoted o (mark_failed o.mark_lost t d.id status none) hook)
    last none = h
    last (some x) =
        update_status-IsDormant o.hook_lost (mark_failed o.mark_lost t d.id status none) id x.id
          (x.failure_count + 1) o.now h

responded-IsDormant :
    (o : Outside) (t : Tables) (d : Delivery) (hook : Webhook) (response : Option ℕ) (id : Str)
    → hook.id ≢ id
    → IsDormant id t
    → IsDormant id (responded o t d hook response)
unfolding mark_delivered
responded-IsDormant o t d hook none id differs h =
    record_failure-IsDormant o t d (some hook) none id h
responded-IsDormant o t d hook (some status) id differs h = elim (Bool-cases (is_success status)) [
  | inl e ↦ rw e (
      update_success-IsDormant o.hook_lost (mark_delivered o.mark_lost t d.id status o.now) id
        hook.id o.now differs h)
  | inr e ↦ rw e (record_failure-IsDormant o t d (some hook) (some status) id h)
]

found-differs :
    (t : Tables) (hook_id workspace_id : Str) (hook : Webhook) (id : Str)
    → get_by_id t hook_id workspace_id ≡ some hook
    → is_deliverable hook ≡ true
    → IsDormant id t
    → hook.id ≢ id
unfolding get_by_id
found-differs t hook_id workspace_id hook id found e h same =
    let dormant =
      All-first (λ x. is_hook id x ≡ true → is_deliverable x ≡ false)
        (λ x. is_hook hook_id x && str_eq x.workspace_id workspace_id) t.hooks hook h found in
    ground (arith, str_eq_iff hook.id id, dormant)

-- A hook that was read and is delivered to is another one.
abbrev pub IsHarmless : Str → Option (Option Webhook) → Type 0
IsHarmless id none = Unit {0}
IsHarmless id (some none) = Unit {0}
IsHarmless id (some (some hook)) = is_deliverable hook ≡ true → hook.id ≢ id

report-IsDormant :
    (o : Outside) (t : Tables) (d : Delivery) (hook : Option (Option Webhook)) (id : Str)
    → IsHarmless id hook
    → IsDormant id t
    → IsDormant id (report o t d hook)
unfolding mark_failed report
report-IsDormant o t d none id other h = record_failure-IsDormant o t d none none id h
report-IsDormant o t d (some none) id other h = h
report-IsDormant o t d (some (some hook)) id other h = elim (Bool-cases (is_deliverable hook)) [
  | inl y ↦ rw y (responded-IsDormant o t d hook o.response id (other y) h)
  | inr n ↦ rw n h
]

load_hook-IsHarmless :
    (lost : Bool) (t : Tables) (d : Delivery) (id : Str)
    → IsDormant id t
    → IsHarmless id (load_hook lost t d)
unfolding load_hook
load_hook-IsHarmless true t d id h = tt
load_hook-IsHarmless false t d id h =
    elim (Option-cases (get_by_id t d.webhook_id d.workspace_id)) [
      | inl n ↦ rw n tt
      | inr (hook, found) ↦
          rw found (λ y. found-differs t d.webhook_id d.workspace_id hook id found y h)
    ]

-- What was said of all items holds of the one that is taken out and of the others.
abbrev pub AllTaken {ℓ κ} : {A : Type ℓ} → (A → Type κ) → Option (A × List A) → Type κ
AllTaken P none = Unit
AllTaken P (some (x, xs)) = P x × All P xs

take_out-All {ℓ κ} :
    {A : Type ℓ} (P : A → Type κ) (n : ℕ) (xs : List A) → All P xs → AllTaken P (take_out n xs)
take_out-All P n [] h = tt
take_out-All P zero (x ∷ xs) h = h
take_out-All {A = A} P (suc n) (x ∷ xs) (e, h) = back (take_out n xs) (take_out-All P n xs h)
  where
    back : (taken : Option (A × List A)) → AllTaken P taken → AllTaken P (put_back x taken)
    back none k = tt
    back (some (y, ys)) (k, ks) = (k, (e, ks))

-- The hook may not be delivered to, and no worker is about to report a delivery to it.
pub record IsQuiet (id : Str) (s : Workers) : Type 0 where
  pub dormant : IsDormant id s.tables
  pub idle : All (λ x. IsHarmless id x.1) s.in_flight

reported-IsQuiet :
    (o : Outside) (s : Workers) (id : Str)
    (taken : Option
      ((Delivery × Option (Option Webhook)) × List (Delivery × Option (Option Webhook))))
    → AllTaken (λ x. IsHarmless id x.1) taken
    → IsQuiet id s
    → IsQuiet id (reported o s taken)
reported-IsQuiet o s id none h q = q
reported-IsQuiet o s id (some ((d, hook), rest)) (other, idle) q = record {
  dormant = report-IsDormant o s.tables d hook id other q.dormant;
  idle = idle;
}

step-IsQuiet : (x : Step) (s : Workers) (id : Str) → IsQuiet id s → IsQuiet id (step x s)
step-IsQuiet (loads lost d) s id q = record {
  dormant = q.dormant;
  idle = (load_hook-IsHarmless lost s.tables d id q.dormant, q.idle);
}
step-IsQuiet (reports o position) s id q =
    reported-IsQuiet o s id (take_out position s.in_flight)
      (take_out-All (λ x. IsHarmless id x.1) position s.in_flight q.idle) q

-- A hook that has failed or was disabled, and of which no worker holds a deliverable copy, stays so: in
-- whatever order workers read hooks and report deliveries, whatever the receivers answer and whichever
-- statements are lost, none makes the hook deliverable.
pub run-IsQuiet :
    (steps : List Step) (s : Workers) (id : Str) → IsQuiet id s → IsQuiet id (run steps s)
run-IsQuiet [] s id q = q
run-IsQuiet (x ∷ steps) s id q = run-IsQuiet steps (step x s) id (step-IsQuiet x s id q)
