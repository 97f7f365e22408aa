-- ===== src/Handlers/Analytics.antt =====
-- internal/interfaces/http/handler/analytics.go. The texts of the query are arguments, empty where they
-- are missing, and so is the parser of RFC 3339 times.
use usp_cloud_native.Prelude.{
  ℕ, ◌==◌, Str, codes, is_empty, if◌then◌else◌, Option, none, some, Result, ok, err, ◌>>=◌,
}
use usp_cloud_native.Errors.{
  AppErr, not_found, validation, bad_time, unknown_window, unknown_granularity, unknown_dimension,
}
use usp_cloud_native.Access.Claims.{Claims}
use usp_cloud_native.Analytics.Query.{Window, parse_window, parse_granularity, parse_dimension}
use usp_cloud_native.Analytics.Queries.{
  Reads, given, SummaryResult, summarize, TimeSeriesResult, time_series, BreakdownResult,
  break_down,
}
use usp_cloud_native.Handlers.Response.{
  Response, json, unprocessable_entity, not_found_problem, internal_error, unauthenticated_problem,
  Context,
}

-- `writeError`
abbrev pub analytics_error {ℓ} : {A : Type ℓ} → Str → AppErr → Response A
analytics_error path (validation why) = unprocessable_entity path
analytics_error path not_found = not_found_problem path
analytics_error path _ = internal_error path

abbrev pub answer {ℓ} : {A : Type ℓ} → Str → Result AppErr A → Response A
answer path (ok a) = json 200 a
answer path (err e) = analytics_error path e

abbrev pub for_caller {ℓ} : {A : Type ℓ} → Context → (Claims → Result AppErr A) → Response A
for_caller c query = elim c.claims [
  | none ↦ unauthenticated_problem
  | some claims ↦ answer c.path (query claims)
]

abbrev pub or_text : Str → Str → Str
or_text text default_text = if is_empty text then default_text else text

unfoldable pub get_summary :
    Str → Reads → (now : ℕ) → Context → (url_id window : Str) → Response SummaryResult
unfolding parse_window summarize
get_summary base_url r now c url_id window = for_caller c (λ claims. do
  w ← given (parse_window (or_text window (codes "24h"))) (validation unknown_window)
  summarize base_url r now
      (record { url_id = url_id; workspace_id = claims.workspace_id; window = some w }))

-- The start and the end of the query, 0 where there is none.
abbrev pub parsed_time : (Str → Option ℕ) → AppErr → Str → Result AppErr ℕ
parsed_time parse_time e text = if is_empty text then ok 0 else given (parse_time text) e

-- The window is read where no start is given.
abbrev pub series_window : (start : ℕ) → Str → Result AppErr (Option Window)
series_window start window =
    if start == 0
    then (do
      w ← given (parse_window (or_text window (codes "24h"))) (validation unknown_window)
      ok (some w))
    else ok none

-- The query of a time series.
pub record SeriesParams : Type 0 where
  pub granularity : Str
  pub start : Str
  pub end : Str
  pub window : Str

unfoldable pub get_time_series :
    (Str → Option ℕ)
    → Reads
    → (now : ℕ) → Context
    → (url_id : Str) → SeriesParams
    → Response TimeSeriesResult
unfolding parse_granularity parse_window time_series
get_time_series parse_time r now c url_id p = for_caller c (λ claims. do
  g ←
      given (parse_granularity (or_text p.granularity (codes "1h")))
        (validation unknown_granularity)
  start ← parsed_time parse_time (validation bad_time) p.start
  end ← parsed_time parse_time (validation bad_time) p.end
  window ← series_window start p.window
  time_series r now (record {
    url_id = url_id;
    workspace_id = claims.workspace_id;
    start = start;
    end = end;
    window = window;
    granularity = some g;
  }))

unfoldable pub get_breakdown :
    Reads → (now : ℕ) → Context → (url_id dimension window : Str) → Response BreakdownResult
unfolding parse_dimension parse_window break_down
get_breakdown r now c url_id dimension window = for_caller c (λ claims. do
  dim ← given (parse_dimension (or_text dimension (codes "country"))) (validation unknown_dimension)
  w ← given (parse_window (or_text window (codes "7d"))) (validation unknown_window)
  break_down r now (record {
    url_id = url_id;
    workspace_id = claims.workspace_id;
    window = some w;
    dimension = some dim;
  }))
