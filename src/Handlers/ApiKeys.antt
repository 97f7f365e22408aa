-- ===== src/Handlers/ApiKeys.antt =====
-- internal/interfaces/http/handler/apikey.go. The workspace and the key of the path and the decoded
-- body are arguments; log lines are left out.
pub mod Laws
use usp_cloud_native.Prelude.{ℕ, Str, codes, Option, none, some, List, [], ◌∷◌, Result, ok, err}
use usp_cloud_native.Workspaces.Entity.{Workspace}
use usp_cloud_native.Workspaces.Repository.{Tables}
use usp_cloud_native.ApiKeys.Repository.{Table}
use usp_cloud_native.ApiKeys.UseCases.{
  UseCaseErr, invalid, revoked_before, unauthorized, not_found, scopes_refused, Outside,
  CreateCommand, CreateResult, KeySummary, create_key, revoke_key, list_keys,
}
use usp_cloud_native.Access.Claims.{Claims}
use usp_cloud_native.Audit.Event.{Event, Metadata, text, texts, resource_api_key, annotate_context}
use usp_cloud_native.Handlers.Response.{
  Response, json, problem, no_content, unprocessable_entity, forbidden_problem, not_found_problem,
  internal_error, Context, with_claims, with_body,
}

pub record CreateApiKeyRequest : Type 0 where
  pub name : Str
  pub scopes : List Str
  pub expires_at : Option ℕ

-- `writeError`; a key that is revoked already is a validation error.
abbrev pub key_error {ℓ} : {A : Type ℓ} → Str → UseCaseErr → Response A
key_error path invalid = unprocessable_entity path
key_error path (scopes_refused why) = unprocessable_entity path
key_error path revoked_before = unprocessable_entity path
key_error path unauthorized = forbidden_problem
key_error path not_found = not_found_problem path
key_error path _ = internal_error path

abbrev pub key_command : Claims → Str → CreateApiKeyRequest → CreateCommand
key_command claims workspace_id req = record {
  workspace_id = workspace_id;
  name = req.name;
  scopes = req.scopes;
  expires_at = req.expires_at;
  created_by = claims.user_id;
}

abbrev pub key_metadata : CreateResult → Metadata
key_metadata r =
    (codes "name", text r.name)
    ∷ (codes "key_prefix", text r.key_prefix)
    ∷ (codes "scopes", texts r.scopes)
    ∷ []

abbrev pub key_created :
    Context
    → Table
    → Result UseCaseErr (CreateResult × Table)
    → Response CreateResult × Table × Option Event
key_created c t (err e) = (key_error c.path e, t, c.pending)
key_created c t (ok (r, t')) =
    (json 201 r, t', annotate_context c.pending resource_api_key r.id (some (key_metadata r)))

unfoldable pub post_key :
    Outside
    → List Workspace
    → Context
    → Table
    → (workspace_id : Str) → Option CreateApiKeyRequest
    → Response CreateResult × Table × Option Event
unfolding annotate_context
post_key o workspaces c t workspace_id body = with_claims c t (λ claims.
    with_body c t body
      (λ req. key_created c t (create_key o workspaces t (key_command claims workspace_id req))))

abbrev pub key_list : Str → Result UseCaseErr (List KeySummary) → Response (List KeySummary)
key_list path (ok keys) = json 200 keys
key_list path (err e) = key_error path e

unfoldable pub get_keys :
    Outside
    → Tables
    → Context
    → Table
    → (workspace_id : Str) → Response (List KeySummary) × Table × Option Event
unfolding list_keys
get_keys o members c t workspace_id =
    with_claims c t (λ claims.
      (key_list c.path (list_keys o members t workspace_id claims.user_id), t, c.pending))

abbrev pub key_revoked :
    Context
    → Table
    → Claims
    → Str
    → Result UseCaseErr Table
    → Response (Unit {0}) × Table × Option Event
key_revoked c t claims key_id (err e) = (key_error c.path e, t, c.pending)
key_revoked c t claims key_id (ok t') = (
  no_content,
  t',
  annotate_context c.pending resource_api_key key_id
      (some ((codes "revoked_by", text claims.user_id) ∷ [])),
)

unfoldable pub delete_key :
    Outside
    → Tables
    → Context
    → Table
    → (workspace_id key_id : Str) → Response (Unit {0}) × Table × Option Event
unfolding revoke_key annotate_context
delete_key o members c t workspace_id key_id = with_claims c t (λ claims.
    key_revoked c t claims key_id (revoke_key o members t key_id workspace_id claims.user_id))
