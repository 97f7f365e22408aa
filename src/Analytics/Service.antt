-- ===== src/Analytics/Service.antt =====
-- internal/application/analytics/ingestion_service.go. The goroutine of the drainer is a step for each
-- case of its `select`, a receiver of the channel takes its first event. Of the publisher only what is
-- handed to it is kept; the counters are not as large as an int64; log lines are left out.
pub mod Laws
pub mod Bounds
pub mod Rows
pub mod Losses
pub mod Closing
pub mod Clicks
use usp_cloud_native.Prelude.{
  ℕ, ◌+◌, ◌*◌, Str, str_eq, is_empty, leb, ltb, length, take, any, all, ◌==◌, codes, Bool, true,
  false, not, ◌&&◌, ◌||◌, if◌then◌else◌, Option, none, some, List, [], ◌∷◌, ◌++◌,
}
use usp_cloud_native.Urls.Repository as Urls
use usp_cloud_native.Urls.Repository.{char_length}
use usp_cloud_native.Analytics.UserAgent.{ParsedUa, parse, extract_referrer_domain, lookup_country}
use usp_cloud_native.Analytics.Hasher.{Hasher, hash_with_date}
use usp_cloud_native.Analytics.Event.{
  RedirectEvent, ClickEvent, Counts, increment, increment_click_counts,
}

abbrev pub max_channel_size : ℕ
max_channel_size = 2048

abbrev pub default_batch_size : ℕ
default_batch_size = 100

-- The time 0 is the zero time.
pub record CaptureRequest : Type 0 where
  pub short_code : Str
  pub workspace_id : Str
  pub raw_ip : Str
  pub user_agent_raw : Str
  pub referrer_raw : Str
  pub request_id : Str
  pub occurred_at : ℕ

-- The identifier that is drawn, the clock, and whether there is a publisher.
pub record Outside : Type 0 where
  pub hasher : Hasher
  pub id : Str
  pub now : ℕ
  pub has_publisher : Bool

-- How a flush fares: whether the insert fails, for which codes the increment does, and the clock.
pub record Flushing : Type 0 where
  pub write_lost : Bool
  pub count_lost : Str → Bool
  pub now : ℕ

pub record State : Type 0 where
  pub channel : List RedirectEvent
  pub batch : List RedirectEvent
  pub stopped : Bool
  pub dropped_events : ℕ
  pub written_events : ℕ
  pub published : List ClickEvent
  -- The tables `redirect_events` and `urls`.
  pub events : List RedirectEvent
  pub urls : Urls.Table

abbrev pub new_service : List RedirectEvent → Urls.Table → State
new_service events urls = record {
  channel = [];
  batch = [];
  stopped = false;
  dropped_events = 0;
  written_events = 0;
  published = [];
  events = events;
  urls = urls;
}

abbrev pub new_event : Outside → CaptureRequest → ParsedUa → RedirectEvent
new_event o req ua = record {
  id = o.id;
  short_code = req.short_code;
  workspace_id = req.workspace_id;
  occurred_at = if req.occurred_at == 0 then o.now else req.occurred_at;
  ip_hash =
      if not ua.is_bot && not (is_empty req.raw_ip)
      then hash_with_date o.hasher req.raw_ip o.now
      else [];
  user_agent =
      if ltb 512 (length req.user_agent_raw)
      then take 512 req.user_agent_raw
      else req.user_agent_raw;
  device_type = ua.device_type;
  browser_family = ua.browser_family;
  os_family = ua.os_family;
  is_bot = ua.is_bot;
  country_code = lookup_country req.raw_ip;
  referrer_domain = extract_referrer_domain req.referrer_raw;
  referrer_raw =
      if ltb 1024 (length req.referrer_raw) then take 1024 req.referrer_raw else req.referrer_raw;
  request_id = req.request_id;
}

unfoldable pub build_event : Outside → CaptureRequest → RedirectEvent
unfolding parse extract_referrer_domain lookup_country hash_with_date
build_event o req = new_event o req (parse req.user_agent_raw)

abbrev pub click_event : RedirectEvent → ClickEvent
click_event e = record {
  short_code = e.short_code;
  workspace_id = e.workspace_id;
  occurred_at = e.occurred_at;
  referrer = e.referrer_domain;
  device_type = e.device_type;
  country_code = e.country_code;
  is_bot = e.is_bot;
  request_id = e.request_id;
}

abbrev pub publish : Outside → RedirectEvent → State → State
publish o e s =
    if o.has_publisher && not e.is_bot
    then record s { published = s.published ++ click_event e ∷ [] }
    else s

-- The `select` on the channel: a full one drops the event.
abbrev pub enqueue : RedirectEvent → State → State
enqueue e s =
    if ltb (length s.channel) max_channel_size
    then record s { channel = s.channel ++ e ∷ [] }
    else record s { dropped_events = s.dropped_events + 1 }

unfoldable pub capture : Outside → CaptureRequest → State → State
capture o req s = enqueue (build_event o req) (publish o (build_event o req) s)

-- `len(events) == 0`
abbrev pub is_nil {ℓ} : {A : Type ℓ} → List A → Bool
is_nil [] = true
is_nil (x ∷ xs) = false

-- The primary key, and the check constraints of a row.
abbrev pub same_key : RedirectEvent → RedirectEvent → Bool
same_key e v = str_eq v.id e.id && (v.occurred_at == e.occurred_at)

abbrev pub device_types : List Str
device_types =
    codes "mobile" ∷ codes "desktop" ∷ codes "tablet" ∷ codes "bot" ∷ codes "unknown" ∷ []

unfoldable pub event_ok : RedirectEvent → Bool
event_ok e =
    leb 3 (char_length e.short_code)
    && (is_empty e.device_type || any (str_eq e.device_type) device_types)

-- `ON CONFLICT DO NOTHING`
abbrev pub insert_event : List RedirectEvent → RedirectEvent → List RedirectEvent
insert_event t e = if any (same_key e) t then t else t ++ e ∷ []

abbrev pub insert_events : List RedirectEvent → List RedirectEvent → List RedirectEvent
insert_events t [] = t
insert_events t (e ∷ events) = insert_events (insert_event t e) events

-- The numbered parameters of the statement of `WriteMany`.
abbrev pub parameters : List RedirectEvent → ℕ
parameters events = 14 * length events

-- One statement for all of them. An empty column is stored as NULL. That the month of an event has no
-- partition is one of the faults by which the statement is lost.
unfoldable pub write_many :
    Bool → List RedirectEvent → List RedirectEvent → Option (List RedirectEvent)
unfolding event_ok
write_many lost t events =
    if is_nil events
    then some t
    else if lost || not (all event_ok events)
    then none
    else some (insert_events t events)

-- The loop that counts the visits of people.
abbrev pub count_clicks : Counts → List RedirectEvent → Counts
count_clicks counts [] = counts
count_clicks counts (e ∷ events) =
    count_clicks (if not e.is_bot then increment e.short_code counts else counts) events

abbrev pub written : Flushing → List RedirectEvent → State → Option (List RedirectEvent) → State
written w batch s none = record s { dropped_events = s.dropped_events + length batch }
written w batch s (some t) = record s {
  written_events = s.written_events + length batch;
  events = t;
  urls = (increment_click_counts w.count_lost s.urls (count_clicks [] batch) w.now).1;
}

unfoldable pub flush : Flushing → List RedirectEvent → State → State
unfolding write_many increment_click_counts
flush w batch s =
    if is_nil batch then s else written w batch s (write_many w.write_lost s.events batch)

-- The state without its batch, for the flush of that batch.
abbrev pub flush_batch : Flushing → State → State
flush_batch w s = flush w s.batch (record s { batch = [] })

abbrev flush_full : Flushing → State → State
flush_full w s = if leb default_batch_size (length s.batch) then flush_batch w s else s

-- A drainer whose channel is empty waits.
abbrev take_event : Flushing → State → List RedirectEvent → State
take_event w s [] = s
take_event w s (e ∷ channel) =
    flush_full w (record s { channel = channel; batch = s.batch ++ e ∷ [] })

-- The cases of the drainer's `select`; it does nothing once it has returned.
unfoldable pub receive : Flushing → State → State
receive w s = if s.stopped then s else take_event w s s.channel

unfoldable pub tick : Flushing → State → State
tick w s = if s.stopped then s else flush_batch w s

unfoldable pub stop : Flushing → State → State
stop w s = if s.stopped then s else record (flush_batch w s) { stopped = true }

-- `Shutdown` once the drainer is done; before that it waits.
unfoldable pub shutdown : Flushing → State → State
shutdown w s = if not s.stopped then s else flush w s.channel (record s { channel = [] })

pub data Step : Type 0 where
  captured : Outside → CaptureRequest → Step
  received ticked cancelled drained : Flushing → Step

abbrev pub step : Step → State → State
step (captured o req) s = capture o req s
step (received w) s = receive w s
step (ticked w) s = tick w s
step (cancelled w) s = stop w s
step (drained w) s = shutdown w s

abbrev pub run : List Step → State → State
run [] s = s
run (x ∷ steps) s = run steps (step x s)
