-- ===== src/Handlers/Shorten.antt =====
-- internal/interfaces/http/handler/shorten.go. The decoded body is an argument; metrics and log lines
-- are left out.
pub mod Laws
use usp_cloud_native.Prelude.{
  ℕ, Str, codes, is_empty, Bool, if◌then◌else◌, Option, none, some, [], ◌∷◌, Result, ok, err,
}
use usp_cloud_native.Errors.{AppErr, short_code_conflict, url_blocked, validation}
use usp_cloud_native.Urls.Store.{Store}
use usp_cloud_native.Access.Claims.{Claims}
use usp_cloud_native.Shorten.{Command, Created, Config, Outside, handle}
use usp_cloud_native.Webhooks.Registration.{Event, DispatchOutside}
use usp_cloud_native.Audit.Event as Audit
use usp_cloud_native.Audit.Event.{resource_url, annotate_context}
use usp_cloud_native.Handlers.Response.{
  Response, json, problem, write_problem, url_blocked as blocked_type, unprocessable_entity,
  conflict_problem, internal_error, Context, with_body,
}
use usp_cloud_native.Handlers.Urls.{Site, dispatched, url_metadata}

pub record ShortenRequest : Type 0 where
  pub original_url : Str
  pub custom_code : Str
  pub title : Str
  pub expires_at : Option ℕ

-- The workspace of the path and the two headers; what is missing is empty.
pub record Sender : Type 0 where
  pub path_workspace : Str
  pub x_workspace_id : Str
  pub x_user_id : Str

abbrev pub or_default : Str → Str → Str
or_default value default_value = if is_empty value then default_value else value

abbrev pub anonymous_identity : Sender → Str × Str
anonymous_identity from = (
  or_default (or_default from.path_workspace from.x_workspace_id) (codes "ws_default"),
  or_default from.x_user_id (codes "usr_default"),
)

-- The workspace and the user.
abbrev pub resolve_identity : Option Claims → Sender → Str × Str
resolve_identity none from = anonymous_identity from
resolve_identity (some c) from = (c.workspace_id, c.user_id)

abbrev pub shorten_command : Str × Str → ShortenRequest → Command
shorten_command (workspace_id, user_id) req = record {
  original_url = req.original_url;
  custom_code = req.custom_code;
  workspace_id = workspace_id;
  created_by = user_id;
  title = req.title;
  expires_at = req.expires_at;
}

pub record ShortenResponse : Type 0 where
  pub id : Str
  pub short_url : Str
  pub short_code : Str
  pub original_url : Str
  pub workspace_id : Str
  pub created_at : ℕ

abbrev pub shorten_response : Created → ShortenResponse
shorten_response r = record {
  id = r.id;
  short_url = r.short_url;
  short_code = r.short_code;
  original_url = r.original_url;
  workspace_id = r.workspace_id;
  created_at = r.created_at;
}

-- `writeError`
abbrev pub shorten_error {ℓ} : {A : Type ℓ} → Str → AppErr → Response A
shorten_error path (validation why) = unprocessable_entity path
shorten_error path short_code_conflict = conflict_problem path
shorten_error path url_blocked = write_problem path blocked_type 422
shorten_error path _ = internal_error path

abbrev pub created_event : Created → Event
created_event r = record {
  event_type = codes "url.created";
  event_id = r.id;
  workspace_id = r.workspace_id;
}

abbrev pub shortened :
    Option DispatchOutside
    → Context
    → Site
    → Result AppErr (Created × Store)
    → Response ShortenResponse × Site × Option Audit.Event
shortened d c s (err e) = (shorten_error c.path e, s, c.pending)
shortened d c s (ok (r, store)) = (
  json 201 (shorten_response r),
  dispatched d (created_event r) (record s { store = store }),
  annotate_context c.pending resource_url r.id (some (url_metadata r.short_code r.original_url)),
)

unfoldable pub post_url :
    Config
    → Outside
    → Option DispatchOutside
    → Context
    → Sender
    → Site
    → Option ShortenRequest
    → Response ShortenResponse × Site × Option Audit.Event
unfolding annotate_context
post_url config w d c from s body = with_body c s body (λ req.
    shortened d c s
      (handle config w (shorten_command (resolve_identity c.claims from) req) s.store))
