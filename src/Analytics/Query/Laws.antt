-- ===== src/Analytics/Query/Laws.antt =====
-- A breakdown against the summary of its window.
use usp_cloud_native.Prelude.{
  ℕ, zero, suc, ◌+◌, ◌≤◌, Str, str_eq, str_eq_iff, take, length, where_rows, count_rows, Bool-cases,
  Bool, ◌&&◌, if◌then◌else◌, List, [], ◌∷◌, arith, ◌≡◌, refl, ◌∙◌, ap, inl, inr,
}
use usp_cloud_native.Analytics.Event.{RedirectEvent, Counts, increment}
use usp_cloud_native.Analytics.Query.{
  Dimension, column, is_click, group_by, insert_count, most_first, sum_clicks, get_summary,
  get_breakdown,
}

-- The clicks that are listed for a value.
abbrev pub clicks_of : Str → Counts → ℕ
clicks_of value [] = 0
clicks_of value ((v, n) ∷ counts) = (if str_eq v value then n else 0) + clicks_of value counts

sum_clicks-increment :
    (v : Str) (counts : Counts) → sum_clicks (increment v counts) ≡ sum_clicks counts + 1
sum_clicks-increment v [] = refl
sum_clicks-increment v ((w, n) ∷ counts) = ground (arith, sum_clicks-increment v counts)

clicks_of-increment :
    (value v : Str) (counts : Counts)
    → clicks_of value (increment v counts)
      ≡ clicks_of value counts + (if str_eq v value then 1 else 0)
clicks_of-increment value v [] = ground arith
clicks_of-increment value v ((w, n) ∷ counts) = elim (Bool-cases (str_eq w v)) [
  | inr m ↦ rw m (omega (arith, clicks_of-increment value v counts))
  | inl m ↦ rw (m, (str_eq_iff w v).0 m) (ground arith)
]

sum_clicks-group_by :
    (dim : Dimension) (rows : List RedirectEvent) → sum_clicks (group_by dim rows) ≡ length rows
sum_clicks-group_by dim [] = refl
sum_clicks-group_by dim (e ∷ rows) =
    omega
      (arith, sum_clicks-increment (column dim e) (group_by dim rows), sum_clicks-group_by dim rows)

clicks_of-group_by :
    (value : Str) (dim : Dimension) (rows : List RedirectEvent)
    → clicks_of value (group_by dim rows) ≡ count_rows (λ e. str_eq (column dim e) value) rows
clicks_of-group_by value dim [] = refl
clicks_of-group_by value dim (e ∷ rows) = omega (
  arith,
  clicks_of-increment value (column dim e) (group_by dim rows),
  clicks_of-group_by value dim rows,
)

sum_clicks-insert_count :
    (v : Str) (n : ℕ) (counts : Counts)
    → sum_clicks (insert_count (v, n) counts) ≡ n + sum_clicks counts
sum_clicks-insert_count v n [] = refl
sum_clicks-insert_count v n ((w, m) ∷ counts) = ground (arith, sum_clicks-insert_count v n counts)

sum_clicks-most_first : (counts : Counts) → sum_clicks (most_first counts) ≡ sum_clicks counts
sum_clicks-most_first [] = refl
sum_clicks-most_first ((v, n) ∷ counts) =
    omega (arith, sum_clicks-insert_count v n (most_first counts), sum_clicks-most_first counts)

clicks_of-insert_count :
    (value v : Str) (n : ℕ) (counts : Counts)
    → clicks_of value (insert_count (v, n) counts)
      ≡ (if str_eq v value then n else 0) + clicks_of value counts
clicks_of-insert_count value v n [] = refl
clicks_of-insert_count value v n ((w, m) ∷ counts) =
    ground (arith, clicks_of-insert_count value v n counts)

clicks_of-most_first :
    (value : Str) (counts : Counts) → clicks_of value (most_first counts) ≡ clicks_of value counts
clicks_of-most_first value [] = refl
clicks_of-most_first value ((v, n) ∷ counts) =
    omega (
      arith,
      clicks_of-insert_count value v n (most_first counts),
      clicks_of-most_first value counts,
    )

length-insert_count :
    (v : Str) (n : ℕ) (counts : Counts) → length (insert_count (v, n) counts) ≡ suc (length counts)
length-insert_count v n [] = refl
length-insert_count v n ((w, m) ∷ counts) = ground (arith, length-insert_count v n counts)

length-most_first : (counts : Counts) → length (most_first counts) ≡ length counts
length-most_first [] = refl
length-most_first ((v, n) ∷ counts) =
    omega (arith, length-insert_count v n (most_first counts), length-most_first counts)

sum_clicks-take : (k : ℕ) (counts : Counts) → sum_clicks (take k counts) ≤ sum_clicks counts
sum_clicks-take zero counts = omega arith
sum_clicks-take (suc k) [] = omega arith
sum_clicks-take (suc k) ((v, n) ∷ counts) = omega (arith, sum_clicks-take k counts)

length-take {ℓ} : {A : Type ℓ} (k : ℕ) (xs : List A) → length (take k xs) ≤ k
length-take zero xs = omega arith
length-take (suc k) [] = omega arith
length-take (suc k) (x ∷ xs) = omega (arith, length-take k xs)

take_whole {ℓ} : {A : Type ℓ} (k : ℕ) (xs : List A) → length xs ≤ k → take k xs ≡ xs
take_whole zero [] h = refl
take_whole zero (x ∷ xs) h = absurd (omega arith)
take_whole (suc k) [] h = refl
take_whole (suc k) (x ∷ xs) h = ap (λ l. x ∷ l) (take_whole k xs (omega arith))

-- No value has fewer clicks than one that stands behind it.
abbrev pub IsDescending : Counts → Type 0
IsDescending [] = Unit
IsDescending ((v, n) ∷ []) = Unit
IsDescending ((v, n) ∷ (w, m) ∷ counts) = (m ≤ n) × IsDescending ((w, m) ∷ counts)

insert_count-IsDescending :
    (v : Str) (n : ℕ) (counts : Counts)
    → IsDescending counts
    → IsDescending (insert_count (v, n) counts)
insert_count-IsDescending v n [] h = tt
insert_count-IsDescending v n ((w, m) ∷ []) h = ground arith
insert_count-IsDescending v n ((w, m) ∷ (x, k) ∷ counts) (h, hs) =
    ground (arith, insert_count-IsDescending v n ((x, k) ∷ counts) hs)

most_first-IsDescending : (counts : Counts) → IsDescending (most_first counts)
most_first-IsDescending [] = tt
most_first-IsDescending ((v, n) ∷ counts) =
    insert_count-IsDescending v n (most_first counts) (most_first-IsDescending counts)

take-IsDescending : (k : ℕ) (counts : Counts) → IsDescending counts → IsDescending (take k counts)
take-IsDescending zero counts h = tt
take-IsDescending (suc k) [] h = tt
take-IsDescending (suc zero) ((v, n) ∷ []) h = tt
take-IsDescending (suc (suc k)) ((v, n) ∷ []) h = tt
take-IsDescending (suc zero) ((v, n) ∷ (w, m) ∷ counts) h = tt
take-IsDescending (suc (suc k)) ((v, n) ∷ (w, m) ∷ counts) (h, hs) =
    (h, take-IsDescending (suc k) ((w, m) ∷ counts) hs)

module _ {ℓ} {A : Type ℓ} where
  length-where_rows : (p : A → Bool) (xs : List A) → length (where_rows p xs) ≡ count_rows p xs
  length-where_rows p [] = refl
  length-where_rows p (x ∷ xs) = ground (arith, length-where_rows p xs)

  count_rows-where_rows :
      (p q : A → Bool) (xs : List A)
      → count_rows q (where_rows p xs) ≡ count_rows (λ x. p x && q x) xs
  count_rows-where_rows p q [] = refl
  count_rows-where_rows p q (x ∷ xs) = ground (arith, count_rows-where_rows p q xs)

module _ (events : List RedirectEvent) (short_code : Str) (start end : ℕ) (dim : Dimension) where
  -- A breakdown lists at most 50 values, those with more clicks first, and its total is no more than the
  -- total of the summary of the same window.
  pub get_breakdown_bounds :
      (length (get_breakdown events short_code start end dim).counts ≤ 50)
      × IsDescending (get_breakdown events short_code start end dim).counts
      × ((get_breakdown events short_code start end dim).total_clicks
          ≤ (get_summary events short_code start end).total_clicks)
  unfolding get_breakdown get_summary
  get_breakdown_bounds =
      let rows = where_rows (is_click short_code start end) events in
      let counts = group_by dim rows in
      (
        length-take 50 (most_first counts),
        take-IsDescending 50 (most_first counts) (most_first-IsDescending counts),
        omega (
          arith,
          sum_clicks-take 50 (most_first counts),
          sum_clicks-most_first counts,
          sum_clicks-group_by dim rows,
          length-where_rows (is_click short_code start end) events,
        ),
      )

  -- The visits of the window with a value.
  abbrev pub visits_with : Str → ℕ
  visits_with value =
      count_rows (λ e. is_click short_code start end e && str_eq (column dim e) value) events

  -- While a dimension has at most 50 values in the window, the total of a breakdown is that of the
  -- summary, and the clicks listed for each value are the number of the window's visits with it.
  pub get_breakdown_complete :
      length (group_by dim (where_rows (is_click short_code start end) events)) ≤ 50
      → ((get_breakdown events short_code start end dim).total_clicks
          ≡ (get_summary events short_code start end).total_clicks)
        × ((value : Str)
            → clicks_of value (get_breakdown events short_code start end dim).counts
              ≡ visits_with value)
  unfolding get_breakdown get_summary
  get_breakdown_complete few =
      let click = is_click short_code start end in
      let rows = where_rows click events in
      let counts = group_by dim rows in
      let whole = take_whole 50 (most_first counts) (omega (arith, length-most_first counts)) in
      (
        rw whole (
            sum_clicks-most_first counts
            ∙ sum_clicks-group_by dim rows
            ∙ length-where_rows click events),
        λ value. rw whole (
            clicks_of-most_first value counts
            ∙ clicks_of-group_by value dim rows
            ∙ count_rows-where_rows click (λ e. str_eq (column dim e) value) events),
      )
