-- ===== src/Urls/Entity.antt =====
-- internal/domain/url/entity.go. A time is a number of nanoseconds. `net/url.ParseRequestURI` is a
-- parameter, of which the program reads whether it fails, the scheme and the host.
pub mod Laws
use usp_cloud_native.Prelude.{
  ℕ, Str, length, is_empty, ltb, Bool, true, false, not, ◌&&◌, ◌||◌, Option, none, some, Result, ok,
  err, ◌>>=◌, ◌>>◌, reject_if, codes,
}
use usp_cloud_native.Errors.{
  UrlErr, short_code_required, short_code_length, original_url_required, url_too_long, invalid_url,
  workspace_id_required,
}

-- The table's check constraint admits these four values and no other.
pub data Status : Type 0 where
  active expired disabled deleted : Status

unfoldable pub status_text : Status → Str
status_text active = codes "active"
status_text expired = codes "expired"
status_text disabled = codes "disabled"
status_text deleted = codes "deleted"

-- `u.Status == StatusActive`, and the other comparisons.
abbrev pub status_eq : Status → Status → Bool
status_eq active active = true
status_eq expired expired = true
status_eq disabled disabled = true
status_eq deleted deleted = true
status_eq _ _ = false

pub record Url : Type 0 where
  pub id : Str
  pub workspace_id : Str
  pub short_code : Str
  pub original_url : Str
  pub title : Str
  pub status : Status
  pub expires_at : Option ℕ
  pub created_by : Str
  pub created_at : ℕ
  pub updated_at : ℕ
  pub deleted_at : Option ℕ
  pub click_count : ℕ  -- int64

-- `t.After(*at)`, with a nil pointer that never passes.
abbrev pub has_passed : Option ℕ → ℕ → Bool
has_passed none now = false
has_passed (some at) now = ltb at now

unfoldable pub is_expired : Url → ℕ → Bool
is_expired u now = has_passed u.expires_at now

unfoldable pub is_active : Url → Bool
is_active u = status_eq u.status active

unfoldable pub can_redirect : Url → ℕ → Bool
unfolding is_expired
can_redirect u now = status_eq u.status active && not (is_expired u now)

abbrev pub min_short_code_length : ℕ
min_short_code_length = 3

abbrev pub max_short_code_length : ℕ
max_short_code_length = 32

abbrev pub max_url_length : ℕ
max_url_length = 8192

-- The parts of a parsed URL that the program reads.
pub record ParsedUrl : Type 0 where
  pub scheme : Str
  pub host : Str

abbrev pub Parser : Type 0
Parser = Str → Option ParsedUrl

abbrev pub fails : Option ParsedUrl → Bool
fails none = true
fails (some p) = false

unfoldable pub validate : Parser → Url → Result UrlErr (Unit {0})
validate parse_request_uri u = do
  reject_if (is_empty u.short_code) short_code_required
  reject_if
      (ltb (length u.short_code) min_short_code_length
        || ltb max_short_code_length (length u.short_code))
      short_code_length
  reject_if (is_empty u.original_url) original_url_required
  reject_if (ltb max_url_length (length u.original_url)) url_too_long
  reject_if (fails (parse_request_uri u.original_url)) invalid_url
  reject_if (is_empty u.workspace_id) workspace_id_required
  ok tt
