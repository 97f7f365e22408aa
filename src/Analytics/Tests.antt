-- ===== src/Analytics/Tests.antt =====
-- Captured events at concrete inputs.
use usp_cloud_native.Prelude.{
  codes, str_eq, contains, trim_space, first, any, all, true, false, some, List, [], ◌∷◌, All,
  arith, ◌≡◌, refl, length, to_lower, has_prefix,
}
use usp_cloud_native.Samples.{link, table}
use usp_cloud_native.Urls.Entity.{Url}
use usp_cloud_native.Urls.Repository.{is_counted, char_length}
use usp_cloud_native.Analytics.UserAgent.{parse, extract_referrer_domain}
use usp_cloud_native.Analytics.Hasher.{Hasher}
use usp_cloud_native.Analytics.Event.{RedirectEvent, increment_click_counts}
use usp_cloud_native.Analytics.Service.{
  CaptureRequest, Outside, Flushing, State, new_service, build_event, capture, event_ok, same_key,
  write_many, flush, receive, stop, shutdown, Step, captured, received, run,
}
use usp_cloud_native.Analytics.Service.Bounds.{IsBounded, run-IsBounded}
use usp_cloud_native.Analytics.Service.Losses.{captured_events}
use usp_cloud_native.Analytics.Service.Closing.{closed, run-closed}
use usp_cloud_native.Analytics.Service.Clicks.{clicks, IsAdvanced, flush-click_count}

-- Bytes that stand for a hash.
abbrev sum_hasher : Hasher
sum_hasher = record {
  secret_key = codes "k";
  sha256 = λ s. length s ∷ [];
  day = λ at. codes "2026-01-01";
}

abbrev outside : Outside
outside = record { hasher = sum_hasher; id = codes "E1"; now = 50; has_publisher = true }

abbrev visit : CaptureRequest
visit = record {
  short_code = codes "abc";
  workspace_id = codes "ws1";
  raw_ip = codes "10.0.0.1";
  user_agent_raw = codes "Mozilla/5.0 (iPhone; CPU iPhone OS 17_0)";
  referrer_raw = codes "https://News.example:8080/a";
  request_id = codes "r1";
  occurred_at = 40;
}

abbrev bot_visit : CaptureRequest
bot_visit = record visit { user_agent_raw = codes "curl/8.0" }

abbrev fine : Flushing
fine = record { write_lost = false; count_lost = λ code. false; now = 60 }

abbrev person : RedirectEvent
person = build_event outside visit

abbrev bot : RedirectEvent
bot = build_event outside bot_visit

visit_referrer :
    extract_referrer_domain (codes "https://News.example:8080/a") ≡ codes "news.example"
unfolding extract_referrer_domain contains trim_space to_lower has_prefix str_eq
visit_referrer = refl

bot_seen : parse (codes "curl/8.0") ≡ record {
  device_type = codes "bot";
  browser_family = codes "bot";
  os_family = codes "unknown";
  is_bot = true;
}
unfolding parse contains to_lower has_prefix str_eq
bot_seen = refl

phone_seen : parse visit.user_agent_raw ≡ record {
  device_type = codes "mobile";
  browser_family = codes "unknown";
  os_family = codes "iOS";
  is_bot = false;
}
unfolding parse contains to_lower has_prefix str_eq
phone_seen = refl

abbrev started : State
started = new_service [] table

-- Two visits, of which the drainer has taken one when it is told to stop.
abbrev visits : List Step
visits =
    captured outside visit
    ∷ received fine
    ∷ captured (record outside { id = codes "E2" }) bot_visit
    ∷ []

run-IsBounded_example : IsBounded (run visits started)
run-IsBounded_example =
    run-IsBounded visits started
      (record { channel = omega arith; batch = omega arith; finished = λ e. refl })

nothing_dropped : (closed fine fine (run visits started)).dropped_events ≡ 0
unfolding capture receive stop shutdown flush write_many event_ok build_event parse char_length
    increment_click_counts str_eq contains to_lower has_prefix
nothing_dropped = refl

run-closed_example :
    All
      (λ e. any (same_key e) (State.events (closed fine fine (run visits started))) ≡ true)
      (captured_events visits)
run-closed_example = run-closed visits fine fine [] table nothing_dropped

visit_fits : all event_ok (person ∷ bot ∷ []) ≡ true
unfolding event_ok build_event parse char_length str_eq contains to_lower has_prefix
visit_fits = refl

link_counted : first (is_counted (codes "abc")) table ≡ some link
unfolding str_eq
link_counted = refl

flush-click_count_example :
    (v : Url) × (first
        (is_counted (codes "abc"))
        (State.urls (flush fine (person ∷ bot ∷ []) started))
      ≡ some v)
    × IsAdvanced (clicks (codes "abc") (person ∷ bot ∷ [])) link v
flush-click_count_example =
    flush-click_count fine (person ∷ bot ∷ []) started (codes "abc") link refl (λ c. refl)
      visit_fits link_counted

one_click : clicks (codes "abc") (person ∷ bot ∷ []) ≡ 1
unfolding build_event parse str_eq contains to_lower has_prefix
one_click = refl
