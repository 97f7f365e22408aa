-- ===== src/Webhooks.antt =====
-- The delivery of webhooks: internal/domain/webhook/entity.go, internal/application/webhook/worker.go
-- and the statements of internal/infrastructure/postgres/webhook_repository.go that the worker runs.
-- The payload, the time of a hook's last update, the signature and the texts of the errors are left
-- out. A statement that is lost has no effect; the worker drops its error. Times are nanoseconds.
mod Laws
mod Attempts
pub mod Registration
pub mod Signature
mod Tests
use usp_cloud_native.Prelude.{
  ℕ, zero, suc, ◌+◌, ◌-◌, ◌*◌, Str, str_eq, leb, ltb, Bool, true, false, not, ◌&&◌, ◌||◌,
  if◌then◌else◌, Option, none, some, List, [], ◌∷◌, first, get_elem?, update_rows, Result, ok, err,
}

pub data HookStatus : Type 0 where
  active failing disabled : HookStatus

pub data DeliveryStatus : Type 0 where
  pending delivering delivered failed abandoned : DeliveryStatus

abbrev pub max_attempts : ℕ
max_attempts = 5

abbrev pub second : ℕ
second = 1000000000

abbrev pub retry_schedule : List ℕ
retry_schedule = 30 * second ∷ 300 * second ∷ 1800 * second ∷ 7200 * second ∷ []

pub record Webhook : Type 0 where
  pub id : Str
  pub workspace_id : Str
  pub name : Str
  pub url : Str
  pub secret : Str
  pub events : List Str
  pub created_by : Str
  pub created_at : ℕ
  pub status : HookStatus
  pub last_success_at : Option ℕ
  pub last_failure_at : Option ℕ
  pub failure_count : ℕ

pub record Delivery : Type 0 where
  pub id : Str
  pub webhook_id : Str
  pub workspace_id : Str
  pub event_type : Str
  pub event_id : Str
  pub created_at : ℕ
  pub status : DeliveryStatus
  pub attempt_count : ℕ
  pub next_attempt_at : ℕ
  pub last_attempt_at : Option ℕ
  pub last_http_status : Option ℕ
  pub delivered_at : Option ℕ

abbrev pub is_active : HookStatus → Bool
is_active active = true
is_active _ = false

unfoldable pub is_deliverable : Webhook → Bool
is_deliverable h = is_active h.status

-- The pair of a delay and `false` is `none`.
unfoldable pub next_retry_delay : ℕ → Option ℕ
next_retry_delay attempt_count =
    if leb attempt_count 0 || leb max_attempts attempt_count
    then none
    else get_elem? retry_schedule (attempt_count - 1)

pub record Tables : Type 0 where
  pub hooks : List Webhook
  pub deliveries : List Delivery

abbrev pub is_hook : Str → Webhook → Bool
is_hook id h = str_eq h.id id

abbrev pub is_delivery : Str → Delivery → Bool
is_delivery id d = str_eq d.id id

-- `deliveryClaimTimeout`
abbrev pub claim_timeout : ℕ
claim_timeout = 300 * second

-- The condition of `ClaimPending`: due, or claimed long ago by a worker that has not reported.
unfoldable pub is_due : ℕ → Delivery → Bool
is_due now d = elim d.status [
  | pending ↦ leb d.next_attempt_at now
  | delivering ↦ elim d.last_attempt_at [ none ↦ false | some at ↦ leb (at + claim_timeout) now ]
  | delivered ↦ false
  | failed ↦ false
  | abandoned ↦ false
]

-- What `ClaimPending` writes to a row that it claims.
abbrev pub claimed : ℕ → Delivery → Delivery
claimed now d = record d {
  status = delivering;
  attempt_count = d.attempt_count + 1;
  last_attempt_at = some now;
}

abbrev pub set_delivered : ℕ → ℕ → Delivery → Delivery
set_delivered http_status at d = record d {
  status = delivered;
  delivered_at = some at;
  last_http_status = some http_status;
}

unfoldable pub mark_delivered : Bool → Tables → Str → ℕ → ℕ → Tables
mark_delivered lost t id http_status at = record t {
  deliveries =
      if lost
      then t.deliveries
      else update_rows (is_delivery id) (set_delivered http_status at) t.deliveries;
}

abbrev pub set_failed : Option ℕ → Option ℕ → Delivery → Delivery
set_failed http_status none d = record d { status = abandoned; last_http_status = http_status }
set_failed http_status (some next) d = record d {
  status = pending;
  last_http_status = http_status;
  next_attempt_at = next;
}

unfoldable pub mark_failed : Bool → Tables → Str → Option ℕ → Option ℕ → Tables
mark_failed lost t id http_status next = record t {
  deliveries =
      if lost
      then t.deliveries
      else update_rows (is_delivery id) (set_failed http_status next) t.deliveries;
}

abbrev pub set_status : HookStatus → ℕ → ℕ → Webhook → Webhook
set_status status failure_count at h = record h {
  status = status;
  failure_count = failure_count;
  last_failure_at = some at;
}

unfoldable pub update_status : Bool → Tables → Str → HookStatus → ℕ → ℕ → Tables
update_status lost t id status failure_count at = record t {
  hooks =
      if lost
      then t.hooks
      else update_rows (is_hook id) (set_status status failure_count at) t.hooks;
}

abbrev pub set_success : ℕ → Webhook → Webhook
set_success at h = record h {
  status = active;
  failure_count = 0;
  last_success_at = some at;
  last_failure_at = none;
}

-- Whatever the status of the hook is by then.
unfoldable pub update_success : Bool → Tables → Str → ℕ → Tables
update_success lost t id at = record t {
  hooks = if lost then t.hooks else update_rows (is_hook id) (set_success at) t.hooks;
}

-- What happens outside: whether the read of the hook fails, the status of the response, or none where
-- the request could not be made, the time, and whether the statements on the delivery and on the hook
-- are lost.
pub record Outside : Type 0 where
  pub load_lost : Bool
  pub response : Option ℕ
  pub now : ℕ
  pub mark_lost : Bool
  pub hook_lost : Bool

unfoldable pub get_by_id : Tables → Str → Str → Option Webhook
get_by_id t id workspace_id =
    first (λ h. is_hook id h && str_eq h.workspace_id workspace_id) t.hooks

abbrev pub demoted : Outside → Tables → Option Webhook → Tables
demoted o t none = t
demoted o t (some hook) = update_status o.hook_lost t hook.id failing (hook.failure_count + 1) o.now

-- `recordFailure`: another attempt, or the end of the delivery and of the hook.
unfoldable pub record_failure : Outside → Tables → Delivery → Option Webhook → Option ℕ → Tables
unfolding next_retry_delay mark_failed update_status
record_failure o t d hook http_status = elim (next_retry_delay d.attempt_count) [
  | some delay ↦ mark_failed o.mark_lost t d.id http_status (some (o.now + delay))
  | none ↦ demoted o (mark_failed o.mark_lost t d.id http_status none) hook
]

unfoldable pub is_success : ℕ → Bool
is_success status = leb 200 status && ltb status 300

abbrev pub responded : Outside → Tables → Delivery → Webhook → Option ℕ → Tables
responded o t d hook none = record_failure o t d (some hook) none
responded o t d hook (some status) =
    if is_success status
    then update_success o.hook_lost (mark_delivered o.mark_lost t d.id status o.now) hook.id o.now
    else record_failure o t d (some hook) (some status)

abbrev pub loaded : Outside → Tables → Delivery → Option Webhook → Tables
loaded o t d none = mark_failed o.mark_lost t d.id none none
loaded o t d (some hook) =
    if is_deliverable hook
    then responded o t d hook o.response
    else mark_failed o.mark_lost t d.id none none

-- The first part of `processDelivery`: the hook as the worker reads it, none where the read fails.
unfoldable pub load_hook : Bool → Tables → Delivery → Option (Option Webhook)
unfolding get_by_id
load_hook lost t d = if lost then none else some (get_by_id t d.webhook_id d.workspace_id)

-- The rest of it, with the hook that was read: the request and the report of what came of it. The
-- tables are those of the report, which may have changed since.
unfoldable pub report : Outside → Tables → Delivery → Option (Option Webhook) → Tables
unfolding record_failure mark_failed mark_delivered update_success is_deliverable is_success
report o t d none = record_failure o t d none none
report o t d (some hook) = loaded o t d hook

-- `processDelivery`, for a delivery as `ClaimPending` returned it, where nothing happens in between.
unfoldable pub process_delivery : Outside → Tables → Delivery → Tables
unfolding report load_hook
process_delivery o t d = report o t d (load_hook o.load_lost t d)

-- The workers of all processes: the tables, and the deliveries for which a hook was read and which are
-- not reported yet.
pub record Workers : Type 0 where
  pub tables : Tables
  pub in_flight : List (Delivery × Option (Option Webhook))

abbrev pub put_back {ℓ} : {A : Type ℓ} → A → Option (A × List A) → Option (A × List A)
put_back x none = none
put_back x (some (y, ys)) = some (y, x ∷ ys)

-- The item at a position, and the others.
abbrev pub take_out {ℓ} : {A : Type ℓ} → ℕ → List A → Option (A × List A)
take_out n [] = none
take_out zero (x ∷ xs) = some (x, xs)
take_out (suc n) (x ∷ xs) = put_back x (take_out n xs)

pub data Step : Type 0 where
  loads : (lost : Bool) → Delivery → Step
  reports : Outside → (position : ℕ) → Step

abbrev pub reported :
    Outside
    → Workers
    → Option ((Delivery × Option (Option Webhook)) × List (Delivery × Option (Option Webhook)))
    → Workers
reported o s none = s
reported o s (some ((d, hook), rest)) = record {
  tables = report o s.tables d hook;
  in_flight = rest;
}

abbrev pub step : Step → Workers → Workers
step (loads lost d) s = record s { in_flight = (d, load_hook lost s.tables d) ∷ s.in_flight }
step (reports o position) s = reported o s (take_out position s.in_flight)

abbrev pub run : List Step → Workers → Workers
run [] s = s
run (x ∷ steps) s = run steps (step x s)
