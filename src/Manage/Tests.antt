-- ===== src/Manage/Tests.antt =====
-- The validation of an update at a concrete input.
use usp_cloud_native.Prelude.{codes, ok, ◌≡◌, refl}
use usp_cloud_native.Manage.{validate_update_url}
use usp_cloud_native.Samples.{parse_https}

-- A URL without a host.
hostless_accepted : validate_update_url parse_https (codes "https://") ≡ ok tt
unfolding validate_update_url parse_https
hostless_accepted = refl
