-- ===== src/Resolve/Answers.antt =====
-- The status of the redirect's answer, from the state of the row.
use usp_cloud_native.Prelude.{ℕ, false, ◌≡◌}
use usp_cloud_native.Urls.Entity.{active, Url, is_expired}
use usp_cloud_native.Urls.Store.{Store}

abbrev pub IsUsable : Url → ℕ → Type 0
IsUsable u now = (u.status ≡ active) × (is_expired u now ≡ false)
