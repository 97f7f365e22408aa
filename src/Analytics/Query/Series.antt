-- ===== src/Analytics/Query/Series.antt =====
-- A time series against the summary of its window.
use usp_cloud_native.Prelude.{
  not, str_eq, leb_iff, ltb_iff, ℕ, zero, suc, ◌+◌, ◌-◌, ◌*◌, ◌/◌, ◌≤◌, ◌<◌, ◌==◌, Str, leb, ltb,
  count_rows, map, Bool, true, false, ◌&&◌, if◌then◌else◌, List, [], ◌∷◌, arith, ◌≡◌, refl, ◌∙◌, ap,
  Bool-cases, inl, inr,
}
use usp_cloud_native.Analytics.Event.{RedirectEvent}
use usp_cloud_native.Analytics.Query.{
  Granularity, one_minute, one_hour, one_day, TimeSeriesPoint, micros, is_click, date_trunc, series,
  buckets, in_bucket, point, get_summary, get_time_series,
}

abbrev pub sum_points : List TimeSeriesPoint → ℕ
sum_points [] = 0
sum_points (p ∷ points) = p.clicks + sum_points points

-- The sum of a number for each bucket.
abbrev sum_of : (ℕ → ℕ) → List ℕ → ℕ
sum_of f [] = 0
sum_of f (b ∷ bs) = f b + sum_of f bs

sum_points-map :
    (events : List RedirectEvent) (g : Granularity) (short_code : Str) (start end : ℕ) (bs : List ℕ)
    → sum_points (map (point events g short_code start end) bs)
      ≡ sum_of (λ b. count_rows (in_bucket g short_code start end b) events) bs
sum_points-map events g short_code start end [] = refl
sum_points-map events g short_code start end (b ∷ bs) =
    ap (λ n. count_rows (in_bucket g short_code start end b) events + n)
      (sum_points-map events g short_code start end bs)

sum_of-add : (f h : ℕ → ℕ) (bs : List ℕ) → sum_of (λ b. f b + h b) bs ≡ sum_of f bs + sum_of h bs
sum_of-add f h [] = omega arith
sum_of-add f h (b ∷ bs) = omega (arith, sum_of-add f h bs)

sum_of-zero : (bs : List ℕ) → sum_of (λ b. 0) bs ≡ 0
sum_of-zero [] = refl
sum_of-zero (b ∷ bs) = omega (arith, sum_of-zero bs)

-- In how many of the buckets a time falls.
abbrev hits : ℕ → List ℕ → ℕ
hits at [] = 0
hits at (b ∷ bs) = (if at == b then 1 else 0) + hits at bs

sum_of-hits :
    (click : Bool) (at : ℕ) (bs : List ℕ)
    → sum_of (λ b. if click && (at == b) then 1 else 0) bs ≡ (if click then hits at bs else 0)
sum_of-hits true at [] = refl
sum_of-hits true at (b ∷ bs) = omega (arith, sum_of-hits true at bs)
sum_of-hits false at [] = refl
sum_of-hits false at (b ∷ bs) = omega (arith, sum_of-hits false at bs)

next_multiple : (size i : ℕ) → i * size + size ≡ suc i * size
next_multiple size i = grind arith

multiple_lt : (size i k : ℕ) → 0 < size → k < i → k * size < i * size
multiple_lt size i k pos below =
    let e : i ≡ k + 1 + (i - k - 1) = omega arith in omega (arith, ap (λ (t : ℕ). t * size) e)

multiple_test : (size i k : ℕ) → 0 < size → (k * size == i * size) ≡ (k == i)
multiple_test size i k pos =
    ground
      (arith, multiple_lt size i k, multiple_lt size k i, ap (λ (n : ℕ). n * size) {x = k} {y = i})

-- A multiple of the step below the start of a series is not in it.
hits-series_before :
    (size i k count : ℕ) → 0 < size → k < i → hits (k * size) (series (i * size) size count) ≡ 0
hits-series_before size i k zero pos below = refl
hits-series_before size i k (suc count) pos below =
    rw (next_multiple size i, multiple_test size i k pos)
      (ground (arith, hits-series_before size (suc i) k count pos (omega arith)))

-- A multiple of the step is one of the series that starts below it and ends above.
hits-series :
    (size i k count : ℕ)
    → 0 < size
    → i ≤ k
    → k < i + count
    → hits (k * size) (series (i * size) size count) ≡ 1
hits-series size i k zero pos from to = absurd (omega arith)
hits-series size i k (suc count) pos from to =
    rw (next_multiple size i, multiple_test size i k pos)
      (elim (Bool-cases (k == i)) [
        | inl same ↦ ground (arith, hits-series_before size (suc i) k count pos)
        | inr other ↦ ground (arith, hits-series size (suc i) k count pos)
      ])

-- The buckets are the multiples of the step from the first to the last.
module _ (start end at : ℕ) (from : micros start ≤ at) (to : at < micros end) where
  hits-buckets : (g : Granularity) → hits (date_trunc g at) (buckets g start end) ≡ 1
  hits-buckets one_minute = ground (
    arith,
    hits-series 60000000 (micros start / 60000000) (at / 60000000)
        (suc ((micros end - 1) / 60000000 - micros start / 60000000)),
  )
  hits-buckets one_hour = ground (
    arith,
    hits-series 3600000000 (micros start / 3600000000) (at / 3600000000)
        (suc ((micros end - 1) / 3600000000 - micros start / 3600000000)),
  )
  hits-buckets one_day = ground (
    arith,
    hits-series 86400000000 (micros start / 86400000000) (at / 86400000000)
        (suc ((micros end - 1) / 86400000000 - micros start / 86400000000)),
  )

-- One hit for what passes the tests of the window.
one_hit :
    (same from to person : Bool) (n : ℕ)
    → (from ≡ true → to ≡ true → n ≡ 1)
    → (if (same && (from && to)) && person then n else 0)
      ≡ (if (same && (from && to)) && person then 1 else 0)
one_hit true true true true n h = h refl refl
one_hit true true true false n h = refl
one_hit true true false person n h = refl
one_hit true false to person n h = refl
one_hit false from to person n h = refl

-- A visit of the window is counted in one bucket, any other event in none.
module _ (g : Granularity) (short_code : Str) (start end : ℕ) where
  sum_of-event :
      (e : RedirectEvent)
      → sum_of (λ b. if in_bucket g short_code start end b e then 1 else 0) (buckets g start end)
        ≡ (if is_click short_code start end e then 1 else 0)
  sum_of-event e =
      sum_of-hits (is_click short_code start end e) (date_trunc g (micros e.occurred_at))
        (buckets g start end)
      ∙ one_hit (str_eq e.short_code short_code) (leb (micros start) (micros e.occurred_at))
          (ltb (micros e.occurred_at) (micros end)) (not e.is_bot)
          (hits (date_trunc g (micros e.occurred_at)) (buckets g start end))
          (λ from to.
            hits-buckets start end (micros e.occurred_at) ((leb_iff _ _).0 from)
              ((ltb_iff _ _).0 to) g)

  sum_of-count_rows :
      (events : List RedirectEvent)
      → sum_of (λ b. count_rows (in_bucket g short_code start end b) events) (buckets g start end)
        ≡ count_rows (is_click short_code start end) events
  sum_of-count_rows [] = sum_of-zero (buckets g start end)
  sum_of-count_rows (e ∷ events) =
      sum_of-add (λ b. if in_bucket g short_code start end b e then 1 else 0)
        (λ b. count_rows (in_bucket g short_code start end b) events) (buckets g start end)
      ∙ omega (arith, sum_of-event e, sum_of-count_rows events)

-- The clicks of a time series, at each granularity, add up to the total of the summary of the same
-- window: no visit falls between two buckets or is counted twice.
pub sum_points-get_time_series :
    (events : List RedirectEvent) (short_code : Str) (start end : ℕ) (g : Granularity)
    → sum_points (get_time_series events short_code start end g)
      ≡ (get_summary events short_code start end).total_clicks
unfolding get_time_series get_summary
sum_points-get_time_series events short_code start end g =
    sum_points-map events g short_code start end (buckets g start end)
    ∙ sum_of-count_rows g short_code start end events
