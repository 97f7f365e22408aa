-- ===== src/Analytics/Queries/Laws.antt =====
-- What the use cases answer, against each other and against the tables.
use usp_cloud_native.Prelude.{
  ℕ, zero, suc, ◌≤◌, ◌+◌, ◌*◌, ◌-◌, ◌/◌, Str, length, map, Bool, not, true, false, Option, none,
  some, List, [], ◌∷◌, Result, ok, >>=-eq-ok, reject_if, arith, ◌≡◌, refl, ◌∙◌, ap,
}
use usp_cloud_native.Errors.{
  PgErr, AppErr, validation, unknown_window, unknown_granularity, window_too_long,
}
use usp_cloud_native.Urls.Entity.{Url}
use usp_cloud_native.Analytics.Query.{
  Window, Granularity, one_minute, one_hour, one_day, micros, validate_window_granularity, series,
  buckets, point, get_summary, get_time_series,
}
use usp_cloud_native.Analytics.Query.Series.{sum_points, sum_points-get_time_series}
use usp_cloud_native.Analytics.Queries.{
  Reads, window_start, resolve, answered, given, SummaryQuery, SummaryResult, summary_result,
  summarize, TimeSeriesQuery, TimeSeriesResult, named_start, series_start, series_end,
  series_result, time_series,
}

-- The query of a time series for the window of a summary.
abbrev pub as_series : SummaryQuery → Granularity → TimeSeriesQuery
as_series q g = record {
  url_id = q.url_id;
  workspace_id = q.workspace_id;
  start = 0;
  end = 0;
  window = q.window;
  granularity = some g;
}

given-ok {ℓ} : {A : Type ℓ} (o : Option A) (e : AppErr) {a : A} → given o e ≡ ok a → o ≡ some a
given-ok none e h = cc
given-ok (some b) e h = cc

answered-ok {ℓ} : {A : Type ℓ} (o : Option PgErr) (a : A) {b : A} → answered o a ≡ ok b → b ≡ a
answered-ok none a h = cc
answered-ok (some e) a h = cc

reject_if-ok :
    (fits : Bool) (e : AppErr) {t : Unit {0}} → reject_if (not fits) e ≡ ok t → fits ≡ true
reject_if-ok true e h = refl
reject_if-ok false e h = cc

returned : {A : Type 0} (r : Result AppErr A) {a b : A} → r ≡ ok a → r ≡ ok b → b ≡ a
returned r h k = cc

summarize-ok :
    (base_url : Str) (r : Reads) (now : ℕ) (q : SummaryQuery) {res : SummaryResult}
    → summarize base_url r now q ≡ ok res
    → (w : Window) × (u : Url) × (q.window ≡ some w)
      × (resolve r q.url_id q.workspace_id ≡ ok u)
      × (res
          ≡ summary_result base_url w
              (get_summary r.events u.short_code (window_start w u.created_at now) now))
unfolding summarize
summarize-ok base_url r now q h =
    let (w, e, h1) = >>=-eq-ok (given q.window (validation unknown_window)) _ h in
    let (u, f, h2) = >>=-eq-ok (resolve r q.url_id q.workspace_id) _ h1 in
    let (s, g, h3) = >>=-eq-ok (answered r.query_fault _) _ h2 in
    (
      w,
      u,
      given-ok q.window _ e,
      f,
      returned _ refl h3 ∙ ap (summary_result base_url w) (answered-ok r.query_fault _ g),
    )

time_series-ok :
    (r : Reads) (now : ℕ) (q : TimeSeriesQuery) {res : TimeSeriesResult}
    → time_series r now q ≡ ok res
    → (g : Granularity) × (u : Url) × (q.granularity ≡ some g)
      × (resolve r q.url_id q.workspace_id ≡ ok u)
      × (validate_window_granularity
            (series_start q u.created_at (series_end q now))
            (series_end q now)
            g
          ≡ true)
      × (res
          ≡ series_result u g (series_start q u.created_at (series_end q now)) (series_end q now) (
              get_time_series r.events u.short_code
                (series_start q u.created_at (series_end q now))
                (series_end q now)
                g))
unfolding time_series
time_series-ok r now q h =
    let (g, e, h1) = >>=-eq-ok (given q.granularity (validation unknown_granularity)) _ h in
    let (u, f, h2) = >>=-eq-ok (resolve r q.url_id q.workspace_id) _ h1 in
    let (t, k, h3) = >>=-eq-ok (reject_if _ (validation window_too_long)) _ h2 in
    let (s, l, h4) = >>=-eq-ok (answered r.query_fault _) _ h3 in
    (
      g,
      u,
      given-ok q.granularity _ e,
      f,
      reject_if-ok _ _ k,
      returned _ refl h4 ∙ ap (series_result u g _ _) (answered-ok r.query_fault _ l),
    )

abbrev series_of : Reads → (now : ℕ) → TimeSeriesQuery → Granularity → Url → TimeSeriesResult
series_of r now q g u =
    let start = series_start q u.created_at (series_end q now) in
    series_result u g start (series_end q now)
      (get_time_series r.events u.short_code start (series_end q now) g)

series-same :
    (r : Reads) (now : ℕ) (q : TimeSeriesQuery) (g g' : Granularity) (u u' : Url)
    → g ≡ g'
    → u ≡ u'
    → series_of r now q g u ≡ series_of r now q g' u'
series-same r now q g g' u u' h k =
    ap (λ x. series_of r now q x u) h ∙ ap (λ x. series_of r now q g' x) k

same_window :
    (base_url : Str) (r : Reads) (now : ℕ) (window : Option Window) (g : Granularity) (w : Window)
    (u : Url) (s : SummaryResult) (t : TimeSeriesResult)
    → window ≡ some w
    → s
      ≡ summary_result base_url w
          (get_summary r.events u.short_code (window_start w u.created_at now) now)
    → t
      ≡ series_result u g
          (named_start window u.created_at now)
          now
          (get_time_series r.events u.short_code (named_start window u.created_at now) now g)
    → (sum_points t.points ≡ s.total_clicks)
      × (t.short_code ≡ s.short_code)
      × (t.window_start ≡ s.window_start)
      × (t.window_end ≡ s.window_end)
unfolding get_summary
same_window base_url r now window g w u s t e a b =
    rw (a, b, e)
      (
        sum_points-get_time_series r.events u.short_code (window_start w u.created_at now) now g,
        refl,
        refl,
        refl,
      )

-- If a summary and the time series of the same window are read at one instant, then the clicks of the
-- series add up to the total of the summary, and both name the same short code and window.
pub time_series-summarize :
    (base_url : Str) (r : Reads) (now : ℕ) (q : SummaryQuery) (g : Granularity) {s : SummaryResult}
    {t : TimeSeriesResult}
    → summarize base_url r now q ≡ ok s
    → time_series r now (as_series q g) ≡ ok t
    → (sum_points t.points ≡ s.total_clicks)
      × (t.short_code ≡ s.short_code)
      × (t.window_start ≡ s.window_start)
      × (t.window_end ≡ s.window_end)
time_series-summarize base_url r now q g {s} {t} h k =
    let (w, u, e, f, a) = summarize-ok base_url r now q h in
    let (g', u', e', f', fits, b) = time_series-ok r now (as_series q g) k in
    same_window base_url r now q.window g w u s t e a
      (b ∙ series-same r now (as_series q g) g' g u' u (cc) (cc))

-- The most points that a time series has.
abbrev pub most_points : Granularity → ℕ
most_points one_minute = 1441
most_points one_hour = 721
most_points one_day = 366

length-series : (start step count : ℕ) → length (series start step count) ≡ count
length-series start step zero = refl
length-series start step (suc count) = ap suc (length-series (start + step) step count)

length-map {ℓ κ} :
    {A : Type ℓ} {B : Type κ} (f : A → B) (xs : List A) → length (map f xs) ≡ length xs
length-map f [] = refl
length-map f (x ∷ xs) = ap suc (length-map f xs)

length-buckets :
    (start end : ℕ) (g : Granularity)
    → validate_window_granularity start end g ≡ true
    → length (buckets g start end) ≤ most_points g
unfolding validate_window_granularity
length-buckets start end one_minute h = ground (
  arith,
  length-series (micros start / 60000000 * 60000000) 60000000 (
      suc
        (((micros end - 1) / 60000000 * 60000000 - micros start / 60000000 * 60000000) / 60000000)),
)
length-buckets start end one_hour h = ground (
  arith,
  length-series (micros start / 3600000000 * 3600000000) 3600000000 (
      suc (
        ((micros end - 1) / 3600000000 * 3600000000 - micros start / 3600000000 * 3600000000)
        / 3600000000)),
)
length-buckets start end one_day h = ground (
  arith,
  length-series (micros start / 86400000000 * 86400000000) 86400000000 (
      suc (
        ((micros end - 1) / 86400000000 * 86400000000 - micros start / 86400000000 * 86400000000)
        / 86400000000)),
)

-- A time series that is answered has at most 1441 points by the minute, 721 by the hour and 366 by the
-- day, whatever start and end the request names.
pub time_series_bound :
    (r : Reads) (now : ℕ) (q : TimeSeriesQuery) (g : Granularity) {t : TimeSeriesResult}
    → q.granularity ≡ some g
    → time_series r now q ≡ ok t
    → length t.points ≤ most_points g
unfolding get_time_series
time_series_bound r now q g {t} named h =
    let (g', u, e, f, fits, b) = time_series-ok r now q h in
    let same : g' ≡ g = cc in
    let start = series_start q u.created_at (series_end q now) in
    let end = series_end q now in
    rw (b, same)
      (omega (
        arith,
        length-map (point r.events g u.short_code start end) (buckets g start end),
        length-buckets start end g (rw (← same) fits),
      ))
