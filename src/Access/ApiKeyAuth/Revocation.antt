-- ===== src/Access/ApiKeyAuth/Revocation.antt =====
-- What a revocation ends.
use usp_cloud_native.Prelude.{
  ℕ, Str, update_rows, Bool, false, not, ◌&&◌, if◌then◌else◌, some, [], ◌∷◌, All, All-first, ok,
  >>=-eq-ok, reject_if, arith, ◌≡◌, Bool-cases, inl, inr,
}
use usp_cloud_native.Workspaces.Roles.{can, action_manage_members}
use usp_cloud_native.Workspaces.Repository.{Tables, get_member}
use usp_cloud_native.ApiKeys.Entity.{ApiKey, extract_prefix}
use usp_cloud_native.ApiKeys.Secrets.{verify}
use usp_cloud_native.ApiKeys.Repository.{
  Table, is_candidate, is_row, is_revocable, set_revoked, revoke,
}
use usp_cloud_native.ApiKeys.UseCases as UseCases
use usp_cloud_native.ApiKeys.UseCases.{
  or_else, caller_error, revoke_error, unauthorized, revoke_key,
}
use usp_cloud_native.Access.ApiKeyAuth.{
  Request, next, Outside, extract_api_key, key_claims, api_key_auth,
}
use usp_cloud_native.Access.ApiKeyAuth.Laws.{api_key_auth-IsVerified}
use usp_cloud_native.Access.ApiKeyAuth.Lifecycle.{or_else-eq-ok}

abbrev IsRevoked : Str → Str → ApiKey → Type 0
IsRevoked id workspace_id k = is_revocable id workspace_id k ≡ false

rows_after_revoke :
    (id workspace_id : Str) (now : ℕ) (t : Table)
    → All
        (IsRevoked id workspace_id)
        (update_rows (is_revocable id workspace_id) (set_revoked now) t)
rows_after_revoke id workspace_id now [] = tt
rows_after_revoke id workspace_id now (k ∷ t) = (here, rows_after_revoke id workspace_id now t)
  where
    here :
        is_revocable id workspace_id
          (if is_revocable id workspace_id k then set_revoked now k else k)
        ≡ false
    here = elim (Bool-cases (is_revocable id workspace_id k)) [
      | inl e ↦ rw e (ground arith)
      | inr e ↦ rw e e
    ]

revoke-All :
    (lost check_lost : Bool) (t t' : Table) (id workspace_id : Str) (now : ℕ)
    → revoke lost check_lost t id workspace_id now ≡ ok t'
    → All (IsRevoked id workspace_id) t'
unfolding revoke
revoke-All lost check_lost t t' id workspace_id now h =
    let written : t' ≡ update_rows (is_revocable id workspace_id) (set_revoked now) t =
      ground arith in
    rw written (rows_after_revoke id workspace_id now t)

-- After a revocation by an owner or admin, no request passes with the claims of the revoked key: a
-- request with a key that passes is let in by a row with another id or of another workspace.
pub api_key_auth-revoke_key :
    (o : UseCases.Outside) (members : Tables) (t t' : Table) (id workspace_id user : Str)
    (v : Outside) (request request' : Request) (raw_key : Str)
    → revoke_key o members t id workspace_id user ≡ ok t'
    → extract_api_key request ≡ some raw_key
    → api_key_auth v t' request ≡ next request'
    → (k : ApiKey) × (request' ≡ record request { claims = some (key_claims k v.now) })
      × (is_row id workspace_id k ≡ false)
unfolding revoke_key
api_key_auth-revoke_key o members t t' id workspace_id user v request request' raw_key h asked
      passed =
    let (caller, _, h₁) =
      >>=-eq-ok (or_else caller_error (get_member o.member_lost members workspace_id user)) _ h in
    let (_, _, h₂) =
      >>=-eq-ok (reject_if (not (can caller.role action_manage_members)) unauthorized) _ h₁ in
    let rows =
      revoke-All o.lost o.check_lost t t' id workspace_id o.now
        (or_else-eq-ok revoke_error _ t' h₂) in
    elim (api_key_auth-IsVerified v t' request request' passed) [
      | inl (n, _) ↦ absurd (ground (arith, n, asked))
      | inr (key, k, _, verified, answer) ↦
          let gone =
            All-first (IsRevoked id workspace_id)
              (λ x.
                is_candidate (extract_prefix key) v.queried_at x && verify v.hashing key x.key_hash)
              t' k rows verified.stored in
          (k, answer, ground (arith, gone, verified.unrevoked))
    ]
