-- ===== src/Audit/Event.antt =====
-- internal/domain/audit/event.go. The pending event of a request's context, which a pointer shares, is
-- passed on by those that write to it; of metadata the texts are kept.
use usp_cloud_native.Prelude.{ℕ, Str, codes, Option, none, some, List}

pub data Meta : Type 0 where
  text : Str → Meta
  texts : List Str → Meta

-- A nil map is empty.
abbrev pub Metadata : Type 0
Metadata = List (Str × Meta)

pub record Event : Type 0 where
  pub id : Str
  pub workspace_id : Option Str
  pub actor_id : Str
  pub actor_type : Str
  pub action : Str
  pub resource_type : Str
  pub resource_id : Str
  pub source_ip : Str
  pub user_agent : Str
  pub request_id : Str
  pub metadata : Metadata
  pub occurred_at : ℕ

abbrev pub action_auth_failed : Str
action_auth_failed = codes "auth:failed"

abbrev pub actor_user : Str
actor_user = codes "user"

abbrev pub actor_api_key : Str
actor_api_key = codes "api_key"

abbrev pub actor_system : Str
actor_system = codes "system"

abbrev pub resource_url : Str
resource_url = codes "url"

abbrev pub resource_workspace : Str
resource_workspace = codes "workspace"

abbrev pub resource_member : Str
resource_member = codes "member"

abbrev pub resource_api_key : Str
resource_api_key = codes "api_key"

abbrev pub resource_webhook : Str
resource_webhook = codes "webhook"

-- Without a pending event nothing happens. `none` is a nil map, which leaves the metadata alone.
unfoldable pub annotate_context :
    Option Event → (resource_type resource_id : Str) → Option Metadata → Option Event
annotate_context none resource_type resource_id metadata = none
annotate_context (some e) resource_type resource_id none =
    some (record e { resource_type = resource_type; resource_id = resource_id })
annotate_context (some e) resource_type resource_id (some metadata) =
    some
      (record e { resource_type = resource_type; resource_id = resource_id; metadata = metadata })
