-- ===== src/Shorten/Validation.antt =====
-- The validation helpers of internal/application/shorten/handler.go. A loop over the runes of a
-- code reads its bytes: no byte of a rune past ASCII is allowed.
pub mod Laws
use usp_cloud_native.Prelude.{
  ℕ, Str, codes, str_eq, is_empty, length, ltb, leb, ◌==◌, Bool, true, false, not, ◌&&◌, ◌||◌,
  if◌then◌else◌, Option, none, some, List, [], ◌∷◌, any, all, Result, ok, err, ◌>>◌, reject_if,
  to_lower,
}
use usp_cloud_native.Errors.{
  AppErr, url_blocked, validation, url_required, url_length, url_syntax, url_scheme, url_host,
  code_length, code_character, code_reserved,
}
use usp_cloud_native.Urls.Entity.{
  ParsedUrl, Parser, max_url_length, min_short_code_length, max_short_code_length,
}

-- The stub of the blocklist.
unfoldable pub is_blocked : Str → Bool
is_blocked raw_url = false

unfoldable pub is_web_scheme : Str → Bool
unfolding str_eq to_lower
is_web_scheme scheme =
    str_eq (to_lower scheme) (codes "http") || str_eq (to_lower scheme) (codes "https")

-- The tests on the parsed URL.
abbrev pub validate_parsed : Str → Option ParsedUrl → Result AppErr (Unit {0})
validate_parsed raw_url none = err (validation url_syntax)
validate_parsed raw_url (some parsed) = do
  reject_if (not (is_web_scheme parsed.scheme)) (validation url_scheme)
  reject_if (is_empty parsed.host) (validation url_host)
  reject_if (is_blocked raw_url) url_blocked
  ok tt

unfoldable pub validate_url : Parser → Str → Result AppErr (Unit {0})
unfolding is_web_scheme is_blocked
validate_url parse_request_uri raw_url = do
  reject_if (is_empty raw_url) (validation url_required)
  reject_if (ltb max_url_length (length raw_url)) (validation url_length)
  validate_parsed raw_url (parse_request_uri raw_url)

abbrev pub reserved_paths : List Str
reserved_paths =
    codes "healthz"
    ∷ codes "readyz"
    ∷ codes "metrics"
    ∷ codes "api"
    ∷ codes "admin"
    ∷ codes "static"
    ∷ codes "favicon.ico"
    ∷ codes "robots.txt"
    ∷ []

unfoldable pub is_alphanumeric_or_safe : ℕ → Bool
is_alphanumeric_or_safe r =
    (leb b'a' r && leb r b'z')
    || ((leb b'A' r && leb r b'Z') || ((leb b'0' r && leb r b'9') || ((r == b'-') || (r == b'_'))))

unfoldable pub is_reserved : Str → Bool
unfolding str_eq to_lower
is_reserved code = any (str_eq (to_lower code)) reserved_paths

unfoldable pub validate_custom_code : Str → Result AppErr (Unit {0})
unfolding is_alphanumeric_or_safe is_reserved
validate_custom_code code = do
  reject_if (ltb (length code) min_short_code_length || ltb max_short_code_length (length code))
      (validation code_length)
  reject_if (not (all is_alphanumeric_or_safe code)) (validation code_character)
  reject_if (is_reserved code) (validation code_reserved)
  ok tt
