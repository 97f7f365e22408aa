-- ===== src/ApiKeys/UseCases.antt =====
-- internal/application/apikey: create_handler.go, list_handler.go and revoke_handler.go.
use usp_cloud_native.Prelude.{
  ℕ, Str, is_empty, length, ltb, map, Bool, not, if◌then◌else◌, Option, none, some, List, Result,
  ok, err, ◌>>=◌, ◌>>◌, reject_if,
}
use usp_cloud_native.Workspaces.Roles.{action_manage_members, can}
use usp_cloud_native.Workspaces.Entity.{Workspace, WorkspaceErr, is_not_found}
use usp_cloud_native.Workspaces.Repository.{Tables, get_member}
use usp_cloud_native.ApiKeys.Entity.{
  ApiKey, ApiKeyErr, already_revoked, server, ScopeErr, validate_scopes, extract_prefix,
}
use usp_cloud_native.ApiKeys.Entity as Entity
use usp_cloud_native.ApiKeys.Secrets.{Hashing, generate_raw, hash}
use usp_cloud_native.ApiKeys.Repository.{Table, create, list, revoke}

-- The reasons for which a use case refuses: a validation error of its own, of the scopes, or that the
-- key is revoked already.
pub data UseCaseErr : Type 0 where
  invalid revoked_before unauthorized not_found : UseCaseErr
  scopes_refused : ScopeErr → UseCaseErr
  random hashing : UseCaseErr
  wrapped : ApiKeyErr → UseCaseErr
  membership : WorkspaceErr → UseCaseErr

pub record CreateCommand : Type 0 where
  pub workspace_id : Str
  pub name : Str
  pub scopes : List Str
  pub expires_at : Option ℕ
  pub created_by : Str

pub record CreateResult : Type 0 where
  pub id : Str
  pub name : Str
  pub key_prefix : Str
  pub raw_key : Str
  pub scopes : List Str
  pub workspace_id : Str
  pub created_at : ℕ
  pub expires_at : Option ℕ

-- What happens outside.
pub record Outside : Type 0 where
  pub hashing : Hashing
  pub random_bytes : Option (List ℕ)
  pub new_id : Str
  pub now : ℕ
  pub lost : Bool
  pub check_lost : Bool
  pub member_lost : Bool

abbrev pub or_fail {ℓ} : {A : Type ℓ} → UseCaseErr → Option A → Result UseCaseErr A
or_fail e none = err e
or_fail e (some a) = ok a

abbrev pub or_else {ℓ} :
    {E : Type 0} {A : Type ℓ} → (E → UseCaseErr) → Result E A → Result UseCaseErr A
or_else f (ok a) = ok a
or_else f (err e) = err (f e)

unfoldable pub new_key : Outside → CreateCommand → (raw_key key_hash : Str) → ApiKey
unfolding extract_prefix
new_key o cmd raw_key key_hash = record {
  id = o.new_id;
  workspace_id = cmd.workspace_id;
  name = cmd.name;
  key_hash = key_hash;
  key_prefix = extract_prefix raw_key;
  scopes = cmd.scopes;
  created_by = cmd.created_by;
  created_at = o.now;
  expires_at = cmd.expires_at;
  revoked_at = none;
  last_used_at = none;
}

abbrev pub create_result : ApiKey → Str → CreateResult
create_result k raw_key = record {
  id = k.id;
  name = k.name;
  key_prefix = k.key_prefix;
  raw_key = raw_key;
  scopes = k.scopes;
  workspace_id = k.workspace_id;
  created_at = k.created_at;
  expires_at = k.expires_at;
}

unfoldable pub create_key :
    Outside → List Workspace → Table → CreateCommand → Result UseCaseErr (CreateResult × Table)
unfolding validate_scopes generate_raw hash new_key create
create_key o workspaces t cmd = do
  reject_if (is_empty cmd.name) invalid
  reject_if (ltb 100 (length cmd.name)) invalid
  or_else scopes_refused (validate_scopes cmd.scopes)
  reject_if (is_empty cmd.workspace_id) invalid
  reject_if (is_empty cmd.created_by) invalid
  raw_key ← or_fail random (generate_raw cmd.workspace_id o.random_bytes)
  key_hash ← or_fail hashing (hash o.hashing raw_key)
  t' ← or_else wrapped (create o.lost workspaces t (new_key o cmd raw_key key_hash))
  ok (create_result (new_key o cmd raw_key key_hash) raw_key, t')

-- A caller who is no member is not authorized.
abbrev pub caller_error : WorkspaceErr → UseCaseErr
caller_error e = if is_not_found e then unauthorized else membership e

abbrev pub revoke_error : ApiKeyErr → UseCaseErr
revoke_error Entity.not_found = not_found
revoke_error already_revoked = revoked_before
revoke_error server = wrapped server

unfoldable pub revoke_key :
    Outside
    → Tables
    → Table
    → (key_id workspace_id requesting_user_id : Str) → Result UseCaseErr Table
unfolding get_member is_not_found can revoke
revoke_key o members t key_id workspace_id requesting_user_id = do
  caller ← or_else caller_error (get_member o.member_lost members workspace_id requesting_user_id)
  reject_if (not (can caller.role action_manage_members)) unauthorized
  or_else revoke_error (revoke o.lost o.check_lost t key_id workspace_id o.now)

pub record KeySummary : Type 0 where
  pub id : Str
  pub name : Str
  pub key_prefix : Str
  pub scopes : List Str
  pub created_at : ℕ
  pub expires_at : Option ℕ
  pub last_used_at : Option ℕ

abbrev pub summary : ApiKey → KeySummary
summary k = record {
  id = k.id;
  name = k.name;
  key_prefix = k.key_prefix;
  scopes = k.scopes;
  created_at = k.created_at;
  expires_at = k.expires_at;
  last_used_at = k.last_used_at;
}

unfoldable pub list_keys :
    Outside
    → Tables
    → Table
    → (workspace_id requesting_user_id : Str) → Result UseCaseErr (List KeySummary)
unfolding get_member is_not_found list
list_keys o members t workspace_id requesting_user_id = do
  _ ← or_else caller_error (get_member o.member_lost members workspace_id requesting_user_id)
  keys ← or_else wrapped (list o.lost t workspace_id)
  ok (map summary keys)
