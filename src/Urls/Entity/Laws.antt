-- ===== src/Urls/Entity/Laws.antt =====
-- What the validation of an entity accepts, and when a URL redirects.
use usp_cloud_native.Prelude.{ℕ, ◌≤◌, length, true, false, none, [], ok, arith, ◌≡◌, ◌≢◌, ◌↔◌}
use usp_cloud_native.Urls.Entity.{Url, Parser, validate, is_expired, can_redirect}

pub record IsWellFormed (parse_request_uri : Parser) (u : Url) : Type 0 where
  pub code_long : 3 ≤ length u.short_code
  pub code_short : length u.short_code ≤ 32
  pub url_present : u.original_url ≢ []
  pub url_short : length u.original_url ≤ 8192
  pub url_parses : parse_request_uri u.original_url ≢ none
  pub workspace_present : u.workspace_id ≢ []

-- The validation succeeds exactly on entities with a short code of 3 to 32 bytes, a URL of 1 to 8192
-- bytes that parses, and a workspace.
pub validate_iff :
    (parse_request_uri : Parser) (u : Url)
    → (validate parse_request_uri u ≡ ok tt) ↔ IsWellFormed parse_request_uri u
unfolding validate
validate_iff parse_request_uri u = (
  (λ h. record {
    code_long = ground arith;
    code_short = ground arith;
    url_present = ground arith;
    url_short = ground arith;
    url_parses = ground arith;
    workspace_present = ground arith;
  }),
  (λ h. ground (
    arith, h.code_long, h.code_short, h.url_present, h.url_short, h.url_parses, h.workspace_present,
  )),
)

-- A URL that has expired stays so, and no longer redirects.
pub is_expired_mono :
    (u : Url) (now later : ℕ)
    → now ≤ later
    → is_expired u now ≡ true
    → (is_expired u later ≡ true) × (can_redirect u later ≡ false)
unfolding can_redirect
is_expired_mono u now later h e = ground arith
