-- ===== src/Handlers/Webhooks.antt =====
-- internal/interfaces/http/handler/webhook.go, with the use case of
-- internal/application/webhook/delete_handler.go. Log lines are left out.
use usp_cloud_native.Prelude.{Str, codes, Bool, Option, some, List, [], ◌∷◌, Result, ok, err}
use usp_cloud_native.Workspaces.Entity.{Workspace}
use usp_cloud_native.Webhooks.{Webhook, Tables}
use usp_cloud_native.Webhooks.Registration.{
  RegisterErr, name_required, url_required, invalid_url, no_events, invalid_events, limit_reached,
  not_found, RegisterOutside, RegisterCommand, register, delete_hook, WebhookSummary, list_webhooks,
}
use usp_cloud_native.Handlers.Urls.{parse_int_query}
use usp_cloud_native.Access.Claims.{Claims}
use usp_cloud_native.Audit.Event.{Event, Metadata, text, texts, resource_webhook, annotate_context}
use usp_cloud_native.Handlers.Response.{
  Response, json, no_content, unprocessable_entity, not_found_problem, internal_error, Context,
  with_claims, with_body,
}

pub record RegisterWebhookRequest : Type 0 where
  pub name : Str
  pub url : Str
  pub events : List Str

-- `writeError`; all refusals of a registration are validation errors.
abbrev pub webhook_error {ℓ} : {A : Type ℓ} → Str → RegisterErr → Response A
webhook_error path name_required = unprocessable_entity path
webhook_error path url_required = unprocessable_entity path
webhook_error path invalid_url = unprocessable_entity path
webhook_error path no_events = unprocessable_entity path
webhook_error path invalid_events = unprocessable_entity path
webhook_error path limit_reached = unprocessable_entity path
webhook_error path not_found = not_found_problem path
webhook_error path _ = internal_error path

abbrev pub webhook_command : Claims → RegisterWebhookRequest → RegisterCommand
webhook_command claims req = record {
  workspace_id = claims.workspace_id;
  requesting_user_id = claims.user_id;
  name = req.name;
  url = req.url;
  events = req.events;
}

abbrev pub webhook_metadata : Webhook → Metadata
webhook_metadata h =
    (codes "name", text h.name) ∷ (codes "url", text h.url) ∷ (codes "events", texts h.events) ∷ []

abbrev pub registered :
    Context
    → Tables
    → Result RegisterErr (Webhook × Tables)
    → Response Webhook × Tables × Option Event
registered c t (err e) = (webhook_error c.path e, t, c.pending)
registered c t (ok (h, t')) =
    (json 201 h, t', annotate_context c.pending resource_webhook h.id (some (webhook_metadata h)))

-- The answer shows the hook with its secret.
unfoldable pub post_webhook :
    RegisterOutside
    → List Workspace
    → Context
    → (replica primary : Tables) → Option RegisterWebhookRequest
    → Response Webhook × Tables × Option Event
unfolding register annotate_context
post_webhook o workspaces c replica t body = with_claims c t (λ claims.
    with_body c t body
      (λ req. registered c t (register o workspaces replica t (webhook_command claims req))))

abbrev pub webhook_deleted :
    Context
    → Tables
    → Claims
    → Str
    → Result RegisterErr Tables
    → Response (Unit {0}) × Tables × Option Event
webhook_deleted c t claims id (err e) = (webhook_error c.path e, t, c.pending)
webhook_deleted c t claims id (ok t') = (
  no_content,
  t',
  annotate_context c.pending resource_webhook id
      (some ((codes "deleted_by", text claims.user_id) ∷ [])),
)

unfoldable pub delete_webhook :
    Bool → Context → Tables → (webhook_id : Str) → Response (Unit {0}) × Tables × Option Event
unfolding delete_hook annotate_context
delete_webhook lost c t webhook_id = with_claims c t (λ claims.
    webhook_deleted c t claims webhook_id (delete_hook lost t webhook_id claims.workspace_id))

abbrev pub webhook_list :
    Str → Result RegisterErr (List WebhookSummary) → Response (List WebhookSummary)
webhook_list path (ok hooks) = json 200 hooks
webhook_list path (err e) = webhook_error path e

-- `limit` is the text of the query's parameter.
unfoldable pub get_webhooks :
    Bool
    → Context
    → (replica : Tables) → (limit : Str) → Response (List WebhookSummary) × Tables × Option Event
unfolding list_webhooks parse_int_query
get_webhooks lost c replica limit = with_claims c replica (λ claims. (
  webhook_list c.path
      (list_webhooks lost replica claims.workspace_id (parse_int_query limit 20 100)),
  replica,
  c.pending,
))
