-- ===== src/Analytics/Event.antt =====
-- internal/domain/analytics/event.go (`RedirectEvent`, `ClickEvent`), and the statements of
-- internal/infrastructure/postgres/analytics_repository.go.
use usp_cloud_native.Prelude.{
  ℕ, ◌+◌, Str, str_eq, update_rows, Bool, true, false, if◌then◌else◌, List, [], ◌∷◌,
}
use usp_cloud_native.Urls.Entity.{Url}
use usp_cloud_native.Urls.Repository as Urls
use usp_cloud_native.Urls.Repository.{is_counted}

pub record RedirectEvent : Type 0 where
  pub id : Str
  pub short_code : Str
  pub workspace_id : Str
  pub occurred_at : ℕ
  pub ip_hash : Str
  pub user_agent : Str
  pub device_type : Str
  pub browser_family : Str
  pub os_family : Str
  pub is_bot : Bool
  pub country_code : Str
  pub referrer_domain : Str
  pub referrer_raw : Str
  pub request_id : Str

pub record ClickEvent : Type 0 where
  pub short_code : Str
  pub workspace_id : Str
  pub occurred_at : ℕ
  pub referrer : Str
  pub device_type : Str
  pub country_code : Str
  pub is_bot : Bool
  pub request_id : Str

-- A map from short codes to numbers.
abbrev pub Counts : Type 0
Counts = List (Str × ℕ)

-- `counts[code]++`
abbrev pub increment : Str → Counts → Counts
increment code [] = (code, 1) ∷ []
increment code ((c, n) ∷ counts) =
    let rest = increment code counts in if str_eq c code then (c, n + 1) ∷ counts else (c, n) ∷ rest

abbrev pub add_clicks : ℕ → ℕ → Url → Url
add_clicks count now v = record v { click_count = v.click_count + count; updated_at = now }

-- One `UPDATE` for each code, until one fails: `lost` says which.
unfoldable pub increment_click_counts : (Str → Bool) → Urls.Table → Counts → ℕ → Bool × Urls.Table
increment_click_counts lost t [] now = (true, t)
increment_click_counts lost t ((code, count) ∷ counts) now =
    let rest =
      increment_click_counts lost (update_rows (is_counted code) (add_clicks count now) t) counts
        now in
    if lost code then (false, t) else rest
