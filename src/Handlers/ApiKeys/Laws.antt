-- ===== src/Handlers/ApiKeys/Laws.antt =====
-- For which workspace a key is made.
use usp_cloud_native.Prelude.{
  Str, Option, some, List, [], ◌∷◌, ◌++◌, Result, ok, err, ◌≡◌, ◌≢◌, refl, ap, ◌∙◌,
}
use usp_cloud_native.Workspaces.Entity.{Workspace}
use usp_cloud_native.ApiKeys.Entity.{ApiKey}
use usp_cloud_native.ApiKeys.Repository.{Table, stored}
use usp_cloud_native.ApiKeys.UseCases.{
  UseCaseErr, invalid, revoked_before, unauthorized, not_found, scopes_refused, Outside,
  CreateResult, new_key, create_key,
}
use usp_cloud_native.Access.Claims.{Claims}
use usp_cloud_native.Access.ApiKeyAuth.Lifecycle.{create_key-IsCreated}
use usp_cloud_native.Audit.Event.{Event}
use usp_cloud_native.Handlers.Response.{json, Context}
use usp_cloud_native.Handlers.ApiKeys.{
  CreateApiKeyRequest, key_error, key_command, key_created, post_key,
}

module _ (path : Str) (r : CreateResult) where
  key_error-ne-json : (e : UseCaseErr) → key_error path e ≢ json 201 r
  key_error-ne-json invalid h = cc
  key_error-ne-json revoked_before h = cc
  key_error-ne-json unauthorized h = cc
  key_error-ne-json not_found h = cc
  key_error-ne-json (scopes_refused why) h = cc
  key_error-ne-json UseCaseErr.random h = cc
  key_error-ne-json UseCaseErr.hashing h = cc
  key_error-ne-json (UseCaseErr.wrapped e) h = cc
  key_error-ne-json (UseCaseErr.membership e) h = cc

-- What a POST that is answered with 201 has added.
pub record IsAdded (workspace_id : Str) (claims : Claims) (r : CreateResult) (t t' : Table)
    : Type 0 where
  pub k : ApiKey
  pub appended : t' ≡ t ++ k ∷ []
  pub workspace : k.workspace_id ≡ workspace_id
  pub creator : k.created_by ≡ claims.user_id
  pub shown : r.workspace_id ≡ workspace_id

key_created-IsAdded :
    (o : Outside) (workspaces : List Workspace) (c : Context) (t : Table) (claims : Claims)
    (workspace_id : Str) (req : CreateApiKeyRequest) (r : CreateResult)
    (res : Result UseCaseErr (CreateResult × Table))
    → create_key o workspaces t (key_command claims workspace_id req) ≡ res
    → (key_created c t res).0 ≡ json 201 r
    → IsAdded workspace_id claims r t (key_created c t res).1
unfolding new_key
key_created-IsAdded o workspaces c t claims workspace_id req r (err e) h k =
    absurd (key_error-ne-json c.path r e k)
key_created-IsAdded o workspaces c t claims workspace_id req r (ok (v, t')) h k =
    let made = create_key-IsCreated o workspaces t (key_command claims workspace_id req) v t' h in
    let same : r ≡ v = cc in
    record {
      k = stored (new_key o (key_command claims workspace_id req) made.raw_key made.key_hash);
      appended = made.written;
      workspace = refl;
      creator = refl;
      shown = ap (λ (x : CreateResult). x.workspace_id) (same ∙ made.answer);
    }

-- A POST of a key that is answered with 201 adds one row for the workspace of the path, made by the
-- caller, whichever workspace the caller's claims name.
pub post_key-IsAdded :
    (o : Outside) (workspaces : List Workspace) (claims : Claims) (path : Str)
    (pending : Option Event) (t : Table) (workspace_id : Str) (req : CreateApiKeyRequest)
    (r : CreateResult)
    → (post_key o workspaces
        (record { claims = some claims; path = path; pending = pending })
        t
        workspace_id
        (some req)).0
      ≡ json 201 r
    → IsAdded workspace_id claims r t
        (post_key o workspaces
          (record { claims = some claims; path = path; pending = pending })
          t
          workspace_id
          (some req)).1
unfolding post_key
post_key-IsAdded o workspaces claims path pending t workspace_id req r h =
    key_created-IsAdded o workspaces
      (record { claims = some claims; path = path; pending = pending }) t claims workspace_id req r
      _ refl h
