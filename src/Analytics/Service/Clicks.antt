-- ===== src/Analytics/Service/Clicks.antt =====
-- What a flush adds to the click counts.
use usp_cloud_native.Prelude.{
  ℕ, ◌+◌, Str, str_eq, str_eq_iff, first, first-update_rows, first-holds, update_rows, count_rows,
  all, Bool, true, false, not, ◌&&◌, if◌then◌else◌, some, List, [], ◌∷◌, Bool-cases, arith, ◌≡◌,
  refl, ap, subst, ◌∙◌, inl, inr,
}
use usp_cloud_native.Urls.Entity.{Url}
use usp_cloud_native.Urls.Repository as Urls
use usp_cloud_native.Urls.Repository.{is_counted, is_live}
use usp_cloud_native.Analytics.Event.{
  RedirectEvent, Counts, increment, add_clicks, increment_click_counts,
}
use usp_cloud_native.Analytics.Service.{
  Flushing, State, event_ok, insert_events, write_many, count_clicks, flush,
}

-- The visits of a short code by people.
abbrev pub clicks : Str → List RedirectEvent → ℕ
clicks code events = count_rows (λ e. str_eq e.short_code code && not e.is_bot) events

abbrev total : Str → Counts → ℕ
total code [] = 0
total code ((c, n) ∷ counts) = (if str_eq c code then n else 0) + total code counts

total-increment :
    (code c : Str) (counts : Counts)
    → total code (increment c counts) ≡ total code counts + (if str_eq c code then 1 else 0)
total-increment code c [] = ground arith
total-increment code c ((d, n) ∷ counts) = elim (Bool-cases (str_eq d c)) [
  | inr m ↦ rw m (omega (arith, total-increment code c counts))
  | inl m ↦ rw (m, (str_eq_iff d c).0 m) (ground arith)
]

total-count_clicks :
    (code : Str) (counts : Counts) (events : List RedirectEvent)
    → total code (count_clicks counts events) ≡ total code counts + clicks code events
total-count_clicks code counts [] = omega arith
total-count_clicks code counts (e ∷ events) = elim (Bool-cases e.is_bot) [
  | inl y ↦ rw y (ground (arith, total-count_clicks code counts events))
  | inr n ↦ rw n (
      ground (
        arith,
        total-count_clicks code (increment e.short_code counts) events,
        total-increment code e.short_code counts,
      ))
]

-- A row that an update of click counts has changed from `u`.
abbrev pub IsAdvanced : ℕ → Url → Url → Type 0
IsAdvanced n u v = v ≡ record u { click_count = u.click_count + n; updated_at = v.updated_at }

IsAdvanced-add :
    (n m now : ℕ) (u v : Url) → IsAdvanced m (add_clicks n now u) v → IsAdvanced (n + m) u v
IsAdvanced-add n m now u v h =
    h ∙ ap (λ (k : ℕ). record u { click_count = k; updated_at = v.updated_at }) (omega arith)

module _ (lost : Str → Bool) (never : (c : Str) → lost c ≡ false) (code : Str) (now : ℕ) where
  increment_click_counts-IsAdvanced :
      (t : Urls.Table) (counts : Counts) (u : Url)
      → first (is_counted code) t ≡ some u
      → (v : Url) × (first (is_counted code) (increment_click_counts lost t counts now).1 ≡ some v)
        × IsAdvanced (total code counts) u v
  unfolding increment_click_counts
  increment_click_counts-IsAdvanced t [] u h = (u, h, ground arith)
  increment_click_counts-IsAdvanced t ((c, n) ∷ counts) u h =
      let there =
        first-update_rows (is_counted code) (is_counted c) (add_clicks n now) (λ v. refl) t in
      let mine = first-holds (is_counted code) t u h in
      let same = (str_eq_iff u.short_code code).0 (ground (arith, mine)) in
      elim (Bool-cases (str_eq c code)) [
        | inl y ↦
            let hit : is_counted c u ≡ true = rw ((str_eq_iff c code).0 y) mine in
            let (v, read, advanced) =
              increment_click_counts-IsAdvanced (update_rows (is_counted c) (add_clicks n now) t)
                counts (add_clicks n now u) (there ∙ (rw (h, hit) refl)) in
            (
              v,
              rw (never c) read,
              subst (λ k. IsAdvanced k u v) (ground (arith, y))
                  (IsAdvanced-add n (total code counts) now u v advanced),
            )
        | inr m ↦
            let miss : is_counted c u ≡ false =
              ground (arith, m, same, str_eq_iff c code, str_eq_iff u.short_code c) in
            let (v, read, advanced) =
              increment_click_counts-IsAdvanced (update_rows (is_counted c) (add_clicks n now) t)
                counts u (there ∙ (rw (h, miss) refl)) in
            (v, rw (never c) read, subst (λ k. IsAdvanced k u v) (ground (arith, m)) advanced)
      ]

written-some :
    (s : State) (events : List RedirectEvent)
    → all event_ok events ≡ true
    → (lost : Bool) → lost ≡ false
    → write_many lost s.events events ≡ some (insert_events s.events events)
unfolding write_many
written-some s [] h lost e = refl
written-some s (x ∷ events) h lost e = rw (h, e) refl

-- A flush whose statements all succeed raises the click count of a link that is not deleted by the
-- number of the batch's visits of its code by people, changes no other field of the row but the time of
-- its update, and does so for every code.
pub flush-click_count :
    (w : Flushing) (events : List RedirectEvent) (s : State) (code : Str) (u : Url)
    → w.write_lost ≡ false
    → ((c : Str) → w.count_lost c ≡ false)
    → all event_ok events ≡ true
    → first (is_counted code) s.urls ≡ some u
    → (v : Url) × (first (is_counted code) (State.urls (flush w events s)) ≡ some v)
      × IsAdvanced (clicks code events) u v
unfolding flush
flush-click_count w [] s code u wrote never fits h = (u, h, ground arith)
flush-click_count w (e ∷ events) s code u wrote never fits h =
    let (v, read, advanced) =
      increment_click_counts-IsAdvanced w.count_lost never code w.now s.urls
        (count_clicks [] (e ∷ events)) u h in
    (
      v,
      rw (written-some s (e ∷ events) fits w.write_lost wrote) read,
      subst (λ n. IsAdvanced n u v) (total-count_clicks code [] (e ∷ events) ∙ omega arith)
          advanced,
    )
