-- ===== src/Analytics/Queries/Tests.antt =====
-- Queries at concrete inputs.
use usp_cloud_native.Prelude.{
  ℕ, Str, err, ◌≤◌, codes, str_eq, where_rows, length, true, false, none, some, List, [], ◌∷◌, ok,
  arith, ◌≡◌, refl,
}
use usp_cloud_native.Errors.{validation, unknown_window, window_too_long, not_found}
use usp_cloud_native.Samples.{table}
use usp_cloud_native.Analytics.Event.{RedirectEvent}
use usp_cloud_native.Analytics.Query.{
  parse_window, day, hour, all_time, one_minute, one_hour, country, column, is_click, group_by,
  get_summary, get_breakdown,
}
use usp_cloud_native.Analytics.Query.Series.{sum_points}
use usp_cloud_native.Analytics.Query.Laws.{clicks_of, visits_with, get_breakdown_complete}
use usp_cloud_native.Analytics.Queries.{
  Reads, SummaryQuery, SummaryResult, TimeSeriesResult, summarize, time_series,
}
use usp_cloud_native.Analytics.Queries.Laws.{as_series, time_series-summarize}

-- Two hours, in nanoseconds.
abbrev now : ℕ
now = 7200000000000

abbrev visit : (at : ℕ) → Str → RedirectEvent
visit at from = record {
  id = codes "E1";
  short_code = codes "abc";
  workspace_id = codes "ws1";
  occurred_at = at;
  ip_hash = codes "h";
  user_agent = [];
  device_type = codes "mobile";
  browser_family = [];
  os_family = [];
  is_bot = false;
  country_code = from;
  referrer_domain = [];
  referrer_raw = [];
  request_id = [];
}

abbrev visits : List RedirectEvent
visits =
    visit 1000000000000 (codes "LK")
    ∷ visit 4000000000000 (codes "LK")
    ∷ visit 7100000000000 (codes "DE")
    ∷ record (visit 5000000000000 (codes "DE")) { is_bot = true }
    ∷ []

abbrev reads : Reads
reads = record { urls = table; events = visits; lookup_fault = none; query_fault = none }

abbrev last_hour : SummaryQuery
last_hour = record { url_id = codes "01A"; workspace_id = codes "ws1"; window = some hour }

abbrev summary : SummaryResult
summary = record {
  short_code = codes "abc";
  short_url = codes "https://s.example/abc";
  total_clicks = 2;
  unique_ips = 1;
  bot_clicks = 1;
  window_start = 3600000000000;
  window_end = now;
  window = hour;
}

abbrev hourly : TimeSeriesResult
hourly = record {
  short_code = codes "abc";
  granularity = one_hour;
  window_start = 3600000000000;
  window_end = now;
  points = record { bucket_start = 3600000000; clicks = 2; unique_ips = 1 } ∷ [];
}

window_named : parse_window (codes "24h") ≡ some day
unfolding parse_window str_eq
window_named = refl

hour_summarized : summarize (codes "https://s.example") reads now last_hour ≡ ok summary
unfolding summarize str_eq
hour_summarized = refl

hour_in_points : time_series reads now (as_series last_hour one_hour) ≡ ok hourly
unfolding time_series str_eq
hour_in_points = refl

window_refused :
    summarize (codes "https://s.example") reads now (record last_hour { window = none })
    ≡ err (validation unknown_window)
unfolding summarize
window_refused = refl

foreign_summary :
    summarize
      (codes "https://s.example")
      reads
      now
      (record last_hour { workspace_id = codes "ws2" })
    ≡ err not_found
unfolding summarize str_eq
foreign_summary = refl

-- Two days are too long for points by the minute.
long_window :
    time_series reads 172800000000000
      (record (as_series last_hour one_minute) { window = some all_time })
    ≡ err (validation window_too_long)
unfolding time_series str_eq
long_window = refl

time_series-summarize_example :
    (sum_points hourly.points ≡ summary.total_clicks)
    × (hourly.short_code ≡ summary.short_code)
    × (hourly.window_start ≡ summary.window_start)
    × (hourly.window_end ≡ summary.window_end)
time_series-summarize_example =
    time_series-summarize (codes "https://s.example") reads now last_hour one_hour hour_summarized
      hour_in_points

few_countries : length (group_by country (where_rows (is_click (codes "abc") 0 now) visits)) ≤ 50
unfolding column str_eq
few_countries = omega arith

get_breakdown_complete_example :
    ((get_breakdown visits (codes "abc") 0 now country).total_clicks
      ≡ (get_summary visits (codes "abc") 0 now).total_clicks)
    × ((value : Str)
        → clicks_of value (get_breakdown visits (codes "abc") 0 now country).counts
          ≡ visits_with visits (codes "abc") 0 now country value)
get_breakdown_complete_example =
    get_breakdown_complete visits (codes "abc") 0 now country few_countries
