-- ===== src/Errors.antt =====
-- Error values: internal/domain/url/errors.go, internal/application/apperrors/errors.go and
-- internal/infrastructure/postgres/errors.go. A sentinel error is a constructor, and a wrapped
-- error is its sentinel; the texts of the messages are left out.
use usp_cloud_native.Prelude.{Bool, true, false}

-- What the URL repository and the entity's validation return.
pub data UrlErr : Type 0 where
  not_found deleted expired conflict : UrlErr
  short_code_required short_code_length original_url_required url_too_long : UrlErr
  invalid_url workspace_id_required unauthorized : UrlErr
  foreign_key check_constraint not_null connection database : UrlErr

unfoldable pub is_not_found : UrlErr → Bool
is_not_found not_found = true
is_not_found deleted = true
is_not_found _ = false

unfoldable pub is_gone : UrlErr → Bool
is_gone expired = true
is_gone _ = false

unfoldable pub is_conflict : UrlErr → Bool
is_conflict conflict = true
is_conflict _ = false

-- What the driver reports: no row, or an error of the server by the class of its code.
pub data PgErr : Type 0 where
  no_rows unique_violation foreign_key_violation check_violation not_null_violation : PgErr
  connection_exception other : PgErr

unfoldable pub translate_error : PgErr → UrlErr
translate_error no_rows = not_found
translate_error unique_violation = conflict
translate_error foreign_key_violation = foreign_key
translate_error check_violation = check_constraint
translate_error not_null_violation = not_null
translate_error connection_exception = connection
translate_error other = database

-- The reasons for which a use case makes a `ValidationError`.
pub data Invalid : Type 0 where
  url_required url_length url_syntax url_scheme url_host : Invalid
  code_length code_character code_reserved : Invalid
  unknown_window unknown_granularity unknown_dimension window_too_long bad_time : Invalid
  entity : UrlErr → Invalid

pub data AppErr : Type 0 where
  not_found url_expired url_disabled url_blocked short_code_conflict : AppErr
  unauthorized unauthenticated : AppErr
  validation : Invalid → AppErr
  -- An error that is wrapped with a message and not classified.
  wrapped : UrlErr → AppErr
  -- `crypto/rand` failed.
  random : AppErr
