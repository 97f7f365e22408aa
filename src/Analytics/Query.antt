-- ===== src/Analytics/Query.antt =====
-- internal/domain/analytics/query.go, and the statements of
-- internal/infrastructure/postgres/analytics_query_repository.go over the table of events. A column of
-- times holds whole microseconds; buckets are those of a server whose time zone is UTC. The percentage
-- of a dimension's value, a floating point number, is left out: it is 100 times the value's clicks over
-- the total that stands beside it.
pub mod Laws
pub mod Series
use usp_cloud_native.Prelude.{
  ℕ, zero, suc, ◌+◌, ◌-◌, ◌*◌, ◌/◌, ◌==◌, Str, codes, str_eq, is_empty, leb, ltb, take, any,
  where_rows, count_rows, map, Bool, true, false, not, ◌&&◌, ◌||◌, if◌then◌else◌, Option, none,
  some, List, [], ◌∷◌,
}
use usp_cloud_native.Analytics.Event.{RedirectEvent, Counts, increment}

pub data Window : Type 0 where
  hour day week month all_time : Window

abbrev pub minutes : ℕ → ℕ
minutes n = n * 60000000000

-- `Duration`; that of all time is 0.
unfoldable pub duration : Window → ℕ
duration hour = minutes 60
duration day = minutes 1440
duration week = minutes 10080
duration month = minutes 43200
duration all_time = 0

abbrev pub either {ℓ} : {A : Type ℓ} → Option A → Option A → Option A
either none other = other
either (some a) other = some a

abbrev pub named {ℓ} : {A : Type ℓ} → Str → A → Str → Option A
named name a s = if str_eq s name then some a else none

-- A text that is no window is `none`.
unfoldable pub parse_window : Str → Option Window
parse_window s = either (named (codes "1h") hour s) (
    either (named (codes "24h") day s) (
      either (named (codes "7d") week s)
        (either (named (codes "30d") month s) (named (codes "all") all_time s))))

pub data Granularity : Type 0 where
  one_minute one_hour one_day : Granularity

unfoldable pub parse_granularity : Str → Option Granularity
parse_granularity s =
    either (named (codes "1m") one_minute s)
      (either (named (codes "1h") one_hour s) (named (codes "1d") one_day s))

-- The longest window of a granularity.
abbrev pub longest : Granularity → ℕ
longest one_minute = minutes 1440
longest one_hour = minutes 43200
longest one_day = minutes 525600

-- A window that ends before it starts is as short as an empty one.
unfoldable pub validate_window_granularity : (start end : ℕ) → Granularity → Bool
validate_window_granularity start end g = leb (end - start) (longest g)

pub data Dimension : Type 0 where
  country device_type browser os referrer : Dimension

unfoldable pub parse_dimension : Str → Option Dimension
parse_dimension s = either (named (codes "country") country s) (
    either (named (codes "device_type") device_type s) (
      either (named (codes "browser_family") browser s)
        (either (named (codes "os_family") os s) (named (codes "referrer_domain") referrer s))))

-- `ColumnName`, as the column of a row. NULL is the empty text.
unfoldable pub column : Dimension → RedirectEvent → Str
column country e = e.country_code
column device_type e = e.device_type
column browser e = e.browser_family
column os e = e.os_family
column referrer e = e.referrer_domain

pub record Summary : Type 0 where
  pub short_code : Str
  pub total_clicks : ℕ
  pub unique_ips : ℕ
  pub bot_clicks : ℕ
  pub window_start : ℕ
  pub window_end : ℕ

pub record TimeSeriesPoint : Type 0 where
  pub bucket_start : ℕ
  pub clicks : ℕ
  pub unique_ips : ℕ

pub record Breakdown : Type 0 where
  pub total_clicks : ℕ
  pub counts : Counts

-- What a column of times holds.
abbrev pub micros : ℕ → ℕ
micros at = at / 1000

abbrev pub in_window : (short_code : Str) → (start end : ℕ) → RedirectEvent → Bool
in_window short_code start end e =
    str_eq e.short_code short_code
    && (leb (micros start) (micros e.occurred_at) && ltb (micros e.occurred_at) (micros end))

-- A visit of a person in the window.
abbrev pub is_click : (short_code : Str) → (start end : ℕ) → RedirectEvent → Bool
is_click short_code start end e = in_window short_code start end e && not e.is_bot

abbrev pub is_bot_click : (short_code : Str) → (start end : ℕ) → RedirectEvent → Bool
is_bot_click short_code start end e = in_window short_code start end e && e.is_bot

-- `COUNT(DISTINCT ip_hash)`, which passes over NULL.
abbrev pub distinct_ips : List Str → List RedirectEvent → ℕ
distinct_ips seen [] = 0
distinct_ips seen (e ∷ events) =
    let known = is_empty e.ip_hash || any (str_eq e.ip_hash) seen in
    (if known then 0 else 1) + distinct_ips (if known then seen else e.ip_hash ∷ seen) events

unfoldable pub get_summary : List RedirectEvent → (short_code : Str) → (start end : ℕ) → Summary
get_summary events short_code start end = record {
  short_code = short_code;
  total_clicks = count_rows (is_click short_code start end) events;
  unique_ips = distinct_ips [] (where_rows (is_click short_code start end) events);
  bot_clicks = count_rows (is_bot_click short_code start end) events;
  window_start = start;
  window_end = end;
}

-- The size of a bucket, in microseconds.
abbrev pub bucket_size : Granularity → ℕ
bucket_size one_minute = 60000000
bucket_size one_hour = 3600000000
bucket_size one_day = 86400000000

-- `date_trunc`
abbrev pub date_trunc : Granularity → ℕ → ℕ
date_trunc g at = at / bucket_size g * bucket_size g

-- `generate_series`: `count` steps from `start`.
abbrev pub series : (start step count : ℕ) → List ℕ
series start step zero = []
series start step (suc count) = start ∷ series (start + step) step count

abbrev pub generate_series : (first last step : ℕ) → List ℕ
generate_series first last step =
    if ltb last first then [] else series first step (suc ((last - first) / step))

abbrev pub buckets : Granularity → (start end : ℕ) → List ℕ
buckets g start end =
    generate_series (date_trunc g (micros start)) (date_trunc g (micros end - 1)) (bucket_size g)

-- The rows of the group of a bucket.
abbrev pub in_bucket :
    Granularity → (short_code : Str) → (start end bucket : ℕ) → RedirectEvent → Bool
in_bucket g short_code start end bucket e =
    is_click short_code start end e && (date_trunc g (micros e.occurred_at) == bucket)

-- A bucket with its group, or with zeros where it has none.
abbrev pub point :
    List RedirectEvent → Granularity → (short_code : Str) → (start end bucket : ℕ) → TimeSeriesPoint
point events g short_code start end bucket = record {
  bucket_start = bucket;
  clicks = count_rows (in_bucket g short_code start end bucket) events;
  unique_ips = distinct_ips [] (where_rows (in_bucket g short_code start end bucket) events);
}

unfoldable pub get_time_series :
    List RedirectEvent → (short_code : Str) → (start end : ℕ) → Granularity → List TimeSeriesPoint
get_time_series events short_code start end g =
    map (point events g short_code start end) (buckets g start end)

-- `GROUP BY` the column.
abbrev pub group_by : Dimension → List RedirectEvent → Counts
group_by dim [] = []
group_by dim (e ∷ events) = increment (column dim e) (group_by dim events)

-- `ORDER BY clicks DESC`
abbrev insert_count : Str × ℕ → Counts → Counts
insert_count c [] = c ∷ []
insert_count (value, n) ((other, m) ∷ counts) =
    let rest = insert_count (value, n) counts in
    if leb m n then (value, n) ∷ (other, m) ∷ counts else (other, m) ∷ rest

abbrev pub most_first : Counts → Counts
most_first [] = []
most_first (c ∷ counts) = insert_count c (most_first counts)

abbrev pub sum_clicks : Counts → ℕ
sum_clicks [] = 0
sum_clicks ((value, n) ∷ counts) = n + sum_clicks counts

-- The total is that of the rows that are read.
unfoldable pub get_breakdown :
    List RedirectEvent → (short_code : Str) → (start end : ℕ) → Dimension → Breakdown
unfolding column
get_breakdown events short_code start end dim =
    let counts =
      take 50 (most_first (group_by dim (where_rows (is_click short_code start end) events))) in
    record { total_clicks = sum_clicks counts; counts = counts }
