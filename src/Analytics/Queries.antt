-- ===== src/Analytics/Queries.antt =====
-- internal/application/analytics: the use cases of summary_handler.go, timeseries_handler.go and
-- breakdown_handler.go. A text that names no window, granularity or dimension is `none`, the time 0 is
-- the zero time; no window is as long as the time since then. Of a fault only that of the lookup or of the query is kept.
pub mod Laws
mod Tests
use usp_cloud_native.Prelude.{
  ℕ, ◌-◌, ◌==◌, Str, codes, Bool, true, false, not, if◌then◌else◌, Option, none, some, List, [],
  ◌∷◌, ◌++◌, Result, ok, err, ◌>>=◌, ◌>>◌, reject_if,
}
use usp_cloud_native.Errors.{
  AppErr, not_found, wrapped, validation, unknown_window, unknown_granularity, unknown_dimension,
  window_too_long, UrlErr, is_not_found, PgErr, translate_error,
}
use usp_cloud_native.Urls.Entity.{Url}
use usp_cloud_native.Urls.Repository as Urls
use usp_cloud_native.Urls.Repository.{get_by_id}
use usp_cloud_native.Manage.{or_app}
use usp_cloud_native.Analytics.Event.{RedirectEvent, Counts}
use usp_cloud_native.Analytics.Query.{
  Window, hour, day, week, month, all_time, duration, Granularity, validate_window_granularity,
  Dimension, Summary, TimeSeriesPoint, Breakdown, get_summary, get_time_series, get_breakdown,
}

-- The replica that is read, and how its two statements fare.
pub record Reads : Type 0 where
  pub urls : Urls.Table
  pub events : List RedirectEvent
  pub lookup_fault : Option PgErr
  pub query_fault : Option PgErr

-- `start`, and the window's end that it is taken from.
abbrev pub window_start : Window → (created_at end : ℕ) → ℕ
window_start all_time created_at end = created_at
window_start hour created_at end = end - duration hour
window_start day created_at end = end - duration day
window_start week created_at end = end - duration week
window_start month created_at end = end - duration month

abbrev pub resolve : Reads → Str → Str → Result AppErr Url
resolve r url_id workspace_id = or_app (get_by_id r.lookup_fault r.urls url_id workspace_id)

-- A query that fails is wrapped.
abbrev pub answered {ℓ} : {A : Type ℓ} → Option PgErr → A → Result AppErr A
answered none a = ok a
answered (some e) a = err (wrapped (translate_error e))

abbrev pub given {ℓ} : {A : Type ℓ} → Option A → AppErr → Result AppErr A
given (some a) e = ok a
given none e = err e

pub record SummaryQuery : Type 0 where
  pub url_id : Str
  pub workspace_id : Str
  pub window : Option Window

pub record SummaryResult : Type 0 where
  pub short_code : Str
  pub short_url : Str
  pub total_clicks : ℕ
  pub unique_ips : ℕ
  pub bot_clicks : ℕ
  pub window_start : ℕ
  pub window_end : ℕ
  pub window : Window

abbrev pub summary_result : Str → Window → Summary → SummaryResult
summary_result base_url w s = record {
  short_code = s.short_code;
  short_url = base_url ++ codes "/" ++ s.short_code;
  total_clicks = s.total_clicks;
  unique_ips = s.unique_ips;
  bot_clicks = s.bot_clicks;
  window_start = s.window_start;
  window_end = s.window_end;
  window = w;
}

unfoldable pub summarize : Str → Reads → (now : ℕ) → SummaryQuery → Result AppErr SummaryResult
unfolding duration get_by_id is_not_found get_summary
summarize base_url r now q = do
  w ← given q.window (validation unknown_window)
  u ← resolve r q.url_id q.workspace_id
  let start = window_start w u.created_at now
  s ← answered r.query_fault (get_summary r.events u.short_code start now)
  ok (summary_result base_url w s)

pub record TimeSeriesQuery : Type 0 where
  pub url_id : Str
  pub workspace_id : Str
  pub start : ℕ
  pub end : ℕ
  pub window : Option Window
  pub granularity : Option Granularity

pub record TimeSeriesResult : Type 0 where
  pub short_code : Str
  pub granularity : Granularity
  pub window_start : ℕ
  pub window_end : ℕ
  pub points : List TimeSeriesPoint

abbrev pub series_result :
    Url → Granularity → (start end : ℕ) → List TimeSeriesPoint → TimeSeriesResult
series_result u g start end points = record {
  short_code = u.short_code;
  granularity = g;
  window_start = start;
  window_end = end;
  points = points;
}

abbrev pub named_start : Option Window → (created_at end : ℕ) → ℕ
named_start none created_at end = created_at
named_start (some w) created_at end = window_start w created_at end

-- A start that is not given is the window's; without a window it is the creation of the URL.
abbrev pub series_start : TimeSeriesQuery → (created_at end : ℕ) → ℕ
series_start q created_at end =
    if q.start == 0 then named_start q.window created_at end else q.start

abbrev pub series_end : TimeSeriesQuery → (now : ℕ) → ℕ
series_end q now = if q.end == 0 then now else q.end

unfoldable pub time_series : Reads → (now : ℕ) → TimeSeriesQuery → Result AppErr TimeSeriesResult
unfolding duration get_by_id is_not_found validate_window_granularity get_time_series
time_series r now q = do
  g ← given q.granularity (validation unknown_granularity)
  u ← resolve r q.url_id q.workspace_id
  let end = series_end q now
  let start = series_start q u.created_at end
  reject_if (not (validate_window_granularity start end g)) (validation window_too_long)
  points ← answered r.query_fault (get_time_series r.events u.short_code start end g)
  ok (series_result u g start end points)

pub record BreakdownQuery : Type 0 where
  pub url_id : Str
  pub workspace_id : Str
  pub window : Option Window
  pub dimension : Option Dimension

pub record BreakdownResult : Type 0 where
  pub short_code : Str
  pub dimension : Dimension
  pub total_clicks : ℕ
  pub window_start : ℕ
  pub window_end : ℕ
  pub counts : Counts

abbrev pub breakdown_result : Url → Dimension → (start end : ℕ) → Breakdown → BreakdownResult
breakdown_result u dim start end b = record {
  short_code = u.short_code;
  dimension = dim;
  total_clicks = b.total_clicks;
  window_start = start;
  window_end = end;
  counts = b.counts;
}

unfoldable pub break_down : Reads → (now : ℕ) → BreakdownQuery → Result AppErr BreakdownResult
unfolding duration get_by_id is_not_found get_breakdown
break_down r now q = do
  w ← given q.window (validation unknown_window)
  dim ← given q.dimension (validation unknown_dimension)
  u ← resolve r q.url_id q.workspace_id
  let start = window_start w u.created_at now
  b ← answered r.query_fault (get_breakdown r.events u.short_code start now dim)
  ok (breakdown_result u dim start now b)
