-- ===== src/Webhooks/Registration.antt =====
-- internal/application/webhook: register_handler.go, delete_handler.go, list_handler.go and
-- dispatcher.go, over the statements of internal/infrastructure/postgres/webhook_repository.go that
-- they run. The payload of a delivery is left out.
pub mod Laws
use usp_cloud_native.Prelude.{
  ℕ, zero, suc, ◌==◌, Str, codes, str_eq, str_eq_refl, to_lower, has_prefix, is_empty, leb, length,
  take, any, all, where_rows, count_rows, Bool, true, false, not, ◌&&◌, ◌||◌, if◌then◌else◌, Option,
  none, some, List, [], ◌∷◌, ◌++◌, map, Result, ok, err, ◌>>=◌, ◌>>◌, reject_if, arith, ◌≡◌, refl,
}
use usp_cloud_native.Urls.Repository.{char_length}
use usp_cloud_native.Workspaces.Entity.{Workspace}
use usp_cloud_native.Webhooks.Signature.{generate_secret}
use usp_cloud_native.Webhooks.{
  Webhook, HookStatus, active, failing, disabled, Delivery, pending, Tables, is_hook, is_active,
}

abbrev pub all_event_types : List Str
all_event_types =
    codes "url.created" ∷ codes "url.updated" ∷ codes "url.deleted" ∷ codes "redirect.received" ∷ []

abbrev pub max_webhooks_per_workspace : ℕ
max_webhooks_per_workspace = 10

pub data RegisterErr : Type 0 where
  name_required url_required invalid_url no_events invalid_events limit_reached : RegisterErr
  not_found random server : RegisterErr

abbrev pub is_valid_event_type : Str → Bool
is_valid_event_type s = any (λ event. str_eq event s) all_event_types

unfoldable pub is_subscribed : Webhook → Str → Bool
is_subscribed h event_type = any (λ event. str_eq event event_type) h.events

unfoldable pub is_http_url : Str → Bool
unfolding to_lower has_prefix
is_http_url raw_url =
    has_prefix (to_lower raw_url) (codes "http://")
    || has_prefix (to_lower raw_url) (codes "https://")

abbrev pub is_disabled : HookStatus → Bool
is_disabled active = false
is_disabled failing = false
is_disabled disabled = true

abbrev pub unless {ℓ} : {A : Type ℓ} → Bool → Result RegisterErr A → Result RegisterErr A
unless true r = err server
unless false r = r

-- The check constraints on name, URL and events. A status of the model is one of the table's.
unfoldable pub hook_ok : Webhook → Bool
hook_ok h =
    (leb 1 (char_length h.name) && leb (char_length h.name) 100)
    && ((leb 1 (char_length h.url) && leb (char_length h.url) 2048)
        && (all is_valid_event_type h.events && leb 1 (length h.events)))

unfoldable pub create_hook : Bool → List Workspace → Tables → Webhook → Result RegisterErr Tables
unfolding hook_ok
create_hook lost workspaces t h = unless lost (
    if not (hook_ok h)
    then err server
    else if any (is_hook h.id) t.hooks
    then err server
    else if not (any (λ w. str_eq w.id h.workspace_id) workspaces)
    then err server
    else ok (record t { hooks = t.hooks ++ h ∷ [] }))

-- `replica` is what the replica shows.
unfoldable pub count_by_workspace : Bool → (replica : Tables) → Str → Result RegisterErr ℕ
count_by_workspace lost replica workspace_id = unless lost (
    ok (
      count_rows (λ h. str_eq h.workspace_id workspace_id && not (is_disabled h.status))
        replica.hooks))

abbrev deleted : ℕ → Tables → Result RegisterErr Tables
deleted zero t = err not_found
deleted (suc n) t = ok t

abbrev pub is_owned_hook : Str → Str → Webhook → Bool
is_owned_hook id workspace_id h = str_eq h.id id && str_eq h.workspace_id workspace_id

-- `Delete`: the deliveries of the hook go with it.
unfoldable pub delete_hook : Bool → Tables → (id workspace_id : Str) → Result RegisterErr Tables
delete_hook lost t id workspace_id = unless lost (
    deleted (count_rows (is_owned_hook id workspace_id) t.hooks) (record {
      hooks = where_rows (λ h. not (is_owned_hook id workspace_id h)) t.hooks;
      deliveries =
          if any (is_owned_hook id workspace_id) t.hooks
          then where_rows (λ d. not (str_eq d.webhook_id id)) t.deliveries
          else t.deliveries;
    }))

unfoldable pub find_subscribed :
    Bool → (replica : Tables) → (workspace_id event_type : Str) → Result RegisterErr (List Webhook)
unfolding is_subscribed
find_subscribed lost replica workspace_id event_type = unless lost (
    ok (
      where_rows
        (λ h.
          str_eq h.workspace_id workspace_id && (is_active h.status && is_subscribed h event_type))
        replica.hooks))

pub record RegisterCommand : Type 0 where
  pub workspace_id : Str
  pub requesting_user_id : Str
  pub name : Str
  pub url : Str
  pub events : List Str

-- What happens outside: the random bytes, if they are drawn, and faults of the two statements.
pub record RegisterOutside : Type 0 where
  pub random_bytes : Option (List ℕ)
  pub id : Str
  pub now : ℕ
  pub count_lost : Bool
  pub create_lost : Bool

abbrev pub new_webhook : RegisterOutside → RegisterCommand → Str → Webhook
new_webhook o cmd secret = record {
  id = o.id;
  workspace_id = cmd.workspace_id;
  name = cmd.name;
  url = cmd.url;
  secret = secret;
  events = cmd.events;
  created_by = cmd.requesting_user_id;
  created_at = o.now;
  status = active;
  last_success_at = none;
  last_failure_at = none;
  failure_count = 0;
}

abbrev pub drawn : Option Str → Result RegisterErr Str
drawn none = err random
drawn (some secret) = ok secret

-- The answer is the hook with its secret.
unfoldable pub register :
    RegisterOutside
    → List Workspace
    → (replica primary : Tables) → RegisterCommand
    → Result RegisterErr (Webhook × Tables)
unfolding is_http_url count_by_workspace create_hook generate_secret
register o workspaces replica primary cmd = do
  reject_if (is_empty cmd.name) name_required
  reject_if (is_empty cmd.url) url_required
  reject_if (not (is_http_url cmd.url)) invalid_url
  reject_if (length cmd.events == 0) no_events
  reject_if (not (all is_valid_event_type cmd.events)) invalid_events
  count ← count_by_workspace o.count_lost replica cmd.workspace_id
  reject_if (leb max_webhooks_per_workspace count) limit_reached
  secret ← drawn (generate_secret o.random_bytes)
  primary' ← create_hook o.create_lost workspaces primary (new_webhook o cmd secret)
  ok (new_webhook o cmd secret, primary')

pub record Event : Type 0 where
  pub event_type : Str
  pub event_id : Str
  pub workspace_id : Str

-- The identifier that is drawn for the delivery to a hook, the faults, and the clock.
pub record DispatchOutside : Type 0 where
  pub find_lost : Bool
  pub delivery_id : Str → Str
  pub create_lost : Str → Bool
  pub now : ℕ

abbrev pub new_delivery : DispatchOutside → Event → Webhook → Delivery
new_delivery o event h = record {
  id = o.delivery_id h.id;
  webhook_id = h.id;
  workspace_id = h.workspace_id;
  event_type = event.event_type;
  event_id = event.event_id;
  created_at = o.now;
  status = pending;
  attempt_count = 0;
  next_attempt_at = o.now;
  last_attempt_at = none;
  last_http_status = none;
  delivered_at = none;
}

-- The insert: the hook must exist on the primary, the identifier must be free, and the event is one of
-- the four.
unfoldable pub create_delivery : Bool → Tables → Delivery → Result RegisterErr Tables
create_delivery lost t d = unless lost (
    if not (is_valid_event_type d.event_type)
    then err server
    else if any (λ v. str_eq v.id d.id) t.deliveries
    then err server
    else if not (any (is_hook d.webhook_id) t.hooks)
    then err server
    else ok (record t { deliveries = t.deliveries ++ d ∷ [] }))

-- The loop over the hooks. It ends at the first insert that fails; what was inserted stays.
unfoldable pub queue : DispatchOutside → Event → Tables → List Webhook → Tables
unfolding create_delivery
queue o event t [] = t
queue o event t (h ∷ hooks) =
    elim (create_delivery (o.create_lost h.id) t (new_delivery o event h)) [
      | ok t' ↦ queue o event t' hooks
      | err e ↦ t
    ]

unfoldable pub queued :
    DispatchOutside → Event → Tables → Result RegisterErr (List Webhook) → Tables
unfolding queue
queued o event t (ok hooks) = queue o event t hooks
queued o event t (err e) = t

unfoldable pub dispatch : DispatchOutside → (replica primary : Tables) → Event → Tables
unfolding find_subscribed queued
dispatch o replica primary event =
    queued o event primary (find_subscribed o.find_lost replica event.workspace_id event.event_type)

-- `ORDER BY created_at DESC`
abbrev insert_newest : Webhook → List Webhook → List Webhook
insert_newest h [] = h ∷ []
insert_newest h (v ∷ hooks) =
    let later = insert_newest h hooks in
    if leb v.created_at h.created_at then h ∷ v ∷ hooks else v ∷ later

abbrev pub newest_first : List Webhook → List Webhook
newest_first [] = []
newest_first (h ∷ hooks) = insert_newest h (newest_first hooks)

-- A limit that is not positive reads as 0.
unfoldable pub list_by_workspace :
    Bool → (replica : Tables) → Str → (limit : ℕ) → Result RegisterErr (List Webhook)
list_by_workspace lost replica workspace_id limit = unless lost (
    ok (
      take (if limit == 0 then 20 else limit)
        (newest_first (where_rows (λ h. str_eq h.workspace_id workspace_id) replica.hooks))))

-- A summary has no secret.
pub record WebhookSummary : Type 0 where
  pub id : Str
  pub name : Str
  pub url : Str
  pub events : List Str
  pub status : HookStatus
  pub failure_count : ℕ
  pub last_success_at : Option ℕ
  pub last_failure_at : Option ℕ
  pub created_at : ℕ

abbrev pub webhook_summary : Webhook → WebhookSummary
webhook_summary h = record {
  id = h.id;
  name = h.name;
  url = h.url;
  events = h.events;
  status = h.status;
  failure_count = h.failure_count;
  last_success_at = h.last_success_at;
  last_failure_at = h.last_failure_at;
  created_at = h.created_at;
}

unfoldable pub list_webhooks :
    Bool → (replica : Tables) → Str → (limit : ℕ) → Result RegisterErr (List WebhookSummary)
unfolding list_by_workspace
list_webhooks lost replica workspace_id limit =
    list_by_workspace lost replica workspace_id limit >>= λ hooks. ok (map webhook_summary hooks)
