-- ===== src/Webhooks/Tests.antt =====
-- The delivery of webhooks at concrete inputs.
use usp_cloud_native.Prelude.{
  List, first, ◌+◌, ℕ, codes, str_eq, true, false, to_lower, has_prefix, trim_prefix, ok, ◌≤◌, none,
  some, [], ◌∷◌, arith, ◌≡◌, ◌↔◌, refl, inr,
}
use usp_cloud_native.Webhooks.{
  Webhook, Delivery, pending, failing, active, Tables, Outside, is_deliverable, process_delivery,
  claimed, is_delivery, load_hook, report, Workers, Step, loads, reports, run,
}
use usp_cloud_native.Webhooks.Signature as Signature
use usp_cloud_native.Webhooks.Signature.{Hmac, sign}
use usp_cloud_native.Webhooks.Signature.Laws.{verify-sign_iff}
use usp_cloud_native.Workspaces.Entity.{Workspace}
use usp_cloud_native.Webhooks.Registration.{
  RegisterCommand, RegisterOutside, new_webhook, register, is_http_url, count_by_workspace,
  create_hook, hook_ok, Event, DispatchOutside, new_delivery, find_subscribed, is_subscribed,
  create_delivery, queue, queued, dispatch, delete_hook,
}
use usp_cloud_native.Webhooks.Registration.Laws.{enabled, register_bound}
use usp_cloud_native.Webhooks.Laws.{IsDormant, IsQuiet, run-IsQuiet}
use usp_cloud_native.Webhooks.Attempts.{IsIdle, tries, tries_bound}

abbrev hook : Webhook
hook = record {
  id = codes "h1";
  workspace_id = codes "ws1";
  name = codes "orders";
  url = codes "https://hooks.example";
  secret = codes "s";
  events = codes "url.created" ∷ [];
  created_by = codes "user1";
  created_at = 1;
  status = failing;
  last_success_at = none;
  last_failure_at = some 5;
  failure_count = 1;
}

abbrev delivery : Delivery
delivery = record {
  id = codes "d1";
  webhook_id = codes "h1";
  workspace_id = codes "ws1";
  event_type = codes "url.created";
  event_id = codes "e1";
  created_at = 1;
  status = pending;
  attempt_count = 0;
  next_attempt_at = 10;
  last_attempt_at = none;
  last_http_status = none;
  delivered_at = none;
}

abbrev failed_hook : Tables
failed_hook = record { hooks = hook ∷ []; deliveries = delivery ∷ [] }

abbrev good_hook : Tables
good_hook = record { hooks = record hook { status = active } ∷ []; deliveries = delivery ∷ [] }

-- The receiver answers with a status.
abbrev answering : ℕ → ℕ → Outside
answering status now = record {
  load_lost = false;
  response = some status;
  now = now;
  mark_lost = false;
  hook_lost = false;
}

-- A first failure leaves the delivery pending, thirty seconds later.
first_failure :
    (process_delivery (answering 500 20) good_hook (claimed 20 delivery)).deliveries
    ≡ record delivery { next_attempt_at = 30000000020; last_http_status = some 500 } ∷ []
unfolding process_delivery load_hook report str_eq
first_failure = refl

-- A fifth failure marks the hook as failing.
fifth_failure :
    (process_delivery (answering 500 20) good_hook (record delivery { attempt_count = 5 })).hooks
    ≡ record hook { last_failure_at = some 20; failure_count = 2 } ∷ []
unfolding process_delivery load_hook report str_eq
fifth_failure = refl

hook_failed : IsDormant (codes "h1") failed_hook
unfolding is_deliverable
hook_failed = (λ e. refl, tt)

-- Two workers: the first report comes while the second has read the hook.
abbrev crossing : List Step
crossing =
    loads false delivery
    ∷ reports (answering 200 20) 0
    ∷ loads true delivery
    ∷ loads false delivery
    ∷ reports (answering 500 30) 1
    ∷ []

abbrev failed_idle : Workers
failed_idle = record { tables = failed_hook; in_flight = [] }

run-IsQuiet_example : IsQuiet (codes "h1") (run crossing failed_idle)
run-IsQuiet_example =
    run-IsQuiet crossing failed_idle (codes "h1") (record { dormant = hook_failed; idle = tt })

-- A fifth failure disables the hook for new deliveries, and a success of a delivery that was read before
-- brings it back.
hook_revived :
    (run
      (loads false delivery
        ∷ loads false (record delivery { attempt_count = 5 })
        ∷ reports (answering 500 20) 0
        ∷ reports (answering 200 30) 0
        ∷ [])
      (record { tables = good_hook; in_flight = [] })).tables.hooks
    ≡ record hook {
      status = active;
      last_success_at = some 30;
      last_failure_at = none;
      failure_count = 0;
    }
      ∷ []
unfolding report load_hook str_eq
hook_revived = refl

delivery_found :
    (first (is_delivery (codes "d1")) good_hook.deliveries ≡ some delivery) × IsIdle delivery
unfolding str_eq
delivery_found = (refl, (omega arith, inr (inr (refl, omega arith))))

abbrev attempts : List Outside
attempts = answering 500 20 ∷ answering 200 9000 ∷ []

tries_bound_example : 0 + tries good_hook (codes "d1") attempts ≤ 5
tries_bound_example =
    tries_bound good_hook (codes "d1") delivery attempts delivery_found.0 delivery_found.1
      (refl, (refl, tt))

abbrev acme : Workspace
acme = record {
  id = codes "ws1";
  name = codes "Acme";
  slug = codes "acme";
  plan_tier = codes "free";
  owner_id = codes "user1";
  created_at = 1;
  updated_at = 1;
}

abbrev registration : RegisterOutside
registration = record {
  random_bytes = some (171 ∷ 205 ∷ []);
  id = codes "h2";
  now = 5;
  count_lost = false;
  create_lost = false;
}

abbrev wanted : RegisterCommand
wanted = record {
  workspace_id = codes "ws1";
  requesting_user_id = codes "user1";
  name = codes "clicks";
  url = codes "HTTPS://hooks.example/2";
  events = codes "url.created" ∷ codes "url.deleted" ∷ [];
}

abbrev second_hook : Webhook
second_hook = new_webhook registration wanted (codes "abcd")

abbrev two_hooks : Tables
two_hooks = record good_hook { hooks = record hook { status = active } ∷ second_hook ∷ [] }

hook_registered :
    register registration (acme ∷ []) good_hook good_hook wanted ≡ ok (second_hook, two_hooks)
unfolding register is_http_url count_by_workspace create_hook hook_ok to_lower has_prefix str_eq
hook_registered = refl

one_hook : enabled (codes "ws1") good_hook ≤ 10
unfolding str_eq
one_hook = omega arith

register_bound_example : enabled (codes "ws1") two_hooks ≤ 10
register_bound_example =
    register_bound registration (acme ∷ []) good_hook two_hooks wanted second_hook (codes "ws1")
      one_hook hook_registered

abbrev deletion : Event
deletion = record {
  event_type = codes "url.deleted";
  event_id = codes "e2";
  workspace_id = codes "ws1";
}

abbrev dispatching : DispatchOutside
dispatching = record {
  find_lost = false;
  delivery_id = λ hook_id. codes "d2";
  create_lost = λ hook_id. false;
  now = 9;
}

-- Only the second hook subscribes to deletions.
deletion_dispatched :
    (dispatch dispatching two_hooks two_hooks deletion).deliveries
    ≡ delivery ∷ new_delivery dispatching deletion second_hook ∷ []
unfolding dispatch find_subscribed is_subscribed create_delivery queue queued str_eq
deletion_dispatched = refl

-- The deliveries of a hook go with it.
hook_deleted :
    delete_hook false two_hooks (codes "h1") (codes "ws1")
    ≡ ok (record { hooks = second_hook ∷ []; deliveries = [] })
unfolding delete_hook str_eq
hook_deleted = refl

-- A mac that is easy to follow.
abbrev toy_mac : Hmac
toy_mac = λ secret payload. 171 ∷ payload

signed : sign toy_mac (codes "s") (codes "k") ≡ codes "sha256=ab6b"
unfolding sign
signed = refl

verify-sign_iff_example :
    (Signature.verify toy_mac (codes "s") (codes "k") (sign toy_mac (codes "s") (codes "l")) ≡ true)
    ↔ (toy_mac (codes "s") (codes "l") ≡ toy_mac (codes "s") (codes "k"))
verify-sign_iff_example =
    verify-sign_iff toy_mac (codes "s") (codes "s") (codes "k") (codes "l")
      (omega arith, (omega arith, tt))

upper_case_accepted : Signature.verify toy_mac (codes "s") (codes "k") (codes "sha256=AB6B") ≡ true
unfolding Signature.verify has_prefix trim_prefix str_eq
upper_case_accepted = refl

half_byte_refused : Signature.verify toy_mac (codes "s") (codes "k") (codes "sha256=ab6") ≡ false
unfolding Signature.verify has_prefix trim_prefix str_eq
half_byte_refused = refl
