-- ===== src/Access/ApiKeyAuth/Lifecycle.antt =====
-- A key from its creation to its revocation.
use usp_cloud_native.Prelude.{
  ◌==◌, Str, str_eq_refl, is_empty, length, ltb, first, first-append_of_none, any, where_rows, Bool,
  true, false, ◌&&◌, Option, none, some, List, [], ◌∷◌, ◌++◌, Result, ok, err, >>=-eq-ok, reject_if,
  arith, ◌≡◌, refl, sym, ◌∙◌,
}
use usp_cloud_native.Access.Claims.{Claims}
use usp_cloud_native.Workspaces.Entity.{Workspace}
use usp_cloud_native.ApiKeys.Entity.{ApiKey, extract_prefix, validate_scopes}
use usp_cloud_native.ApiKeys.Secrets.{Hashing, Accepts, generate_raw, hash, verify}
use usp_cloud_native.ApiKeys.Repository.{
  Table, row_ok, stored, create, get_by_prefix, is_candidate, lives,
}
use usp_cloud_native.ApiKeys.UseCases as UseCases
use usp_cloud_native.ApiKeys.UseCases.{
  UseCaseErr, invalid, scopes_refused, random, hashing, wrapped, unauthorized, caller_error,
  revoke_error, or_fail, or_else, CreateCommand, CreateResult, new_key, create_result, create_key,
  revoke_key,
}
use usp_cloud_native.Access.ApiKeyAuth.{
  Request, next, Outside, extract_api_key, key_claims, matching, api_key_auth,
}
use usp_cloud_native.Access.ApiKeyAuth.Laws.{first-where_rows}

or_fail-eq-ok {ℓ} :
    {A : Type ℓ} (e : UseCaseErr) (o : Option A) (a : A) → or_fail e o ≡ ok a → o ≡ some a
or_fail-eq-ok e none a h = absurd (ground arith)
or_fail-eq-ok e (some b) a h = ground arith

pub or_else-eq-ok {ℓ} :
    {E : Type 0} {A : Type ℓ} (f : E → UseCaseErr) (r : Result E A) (a : A)
    → or_else f r ≡ ok a
    → r ≡ ok a
or_else-eq-ok f (ok b) a h = ground arith
or_else-eq-ok f (err e) a h = absurd (ground arith)

-- What a creation that succeeds has made and written.
pub record IsCreated (o : UseCases.Outside) (t : Table) (cmd : CreateCommand) (r : CreateResult)
    (t' : Table) : Type 0 where
  pub raw_key : Str
  pub key_hash : Str
  pub generated : generate_raw cmd.workspace_id o.random_bytes ≡ some raw_key
  pub hashed : hash o.hashing raw_key ≡ some key_hash
  pub answer : r ≡ create_result (new_key o cmd raw_key key_hash) raw_key
  pub fits : row_ok (new_key o cmd raw_key key_hash) ≡ true
  pub written : t' ≡ t ++ stored (new_key o cmd raw_key key_hash) ∷ []

create-eq-ok :
    (lost : Bool) (workspaces : List Workspace) (t : Table) (k : ApiKey) (t' : Table)
    → create lost workspaces t k ≡ ok t'
    → (row_ok k ≡ true) × (t' ≡ t ++ stored k ∷ [])
unfolding create
create-eq-ok lost workspaces t k t' h = ground arith

pub create_key-IsCreated :
    (o : UseCases.Outside) (workspaces : List Workspace) (t : Table) (cmd : CreateCommand)
    (r : CreateResult) (t' : Table)
    → create_key o workspaces t cmd ≡ ok (r, t')
    → IsCreated o t cmd r t'
unfolding create_key
create_key-IsCreated o workspaces t cmd r t' h =
    let (_, _, h₁) = >>=-eq-ok (reject_if (is_empty cmd.name) invalid) _ h in
    let (_, _, h₂) = >>=-eq-ok (reject_if (ltb 100 (length cmd.name)) invalid) _ h₁ in
    let (_, _, h₃) = >>=-eq-ok (or_else scopes_refused (validate_scopes cmd.scopes)) _ h₂ in
    let (_, _, h₄) = >>=-eq-ok (reject_if (is_empty cmd.workspace_id) invalid) _ h₃ in
    let (_, _, h₅) = >>=-eq-ok (reject_if (is_empty cmd.created_by) invalid) _ h₄ in
    let (raw_key, made, h₆) =
      >>=-eq-ok (or_fail random (generate_raw cmd.workspace_id o.random_bytes)) _ h₅ in
    let (key_hash, hashed, h₇) = >>=-eq-ok (or_fail hashing (hash o.hashing raw_key)) _ h₆ in
    let k = new_key o cmd raw_key key_hash in
    let (t₁, kept, h₈) = >>=-eq-ok (or_else wrapped (create o.lost workspaces t k)) _ h₇ in
    let (fits, written) = create-eq-ok o.lost workspaces t k t₁ (or_else-eq-ok wrapped _ t₁ kept) in
    record {
      raw_key = raw_key;
      key_hash = key_hash;
      generated = or_fail-eq-ok random _ raw_key made;
      hashed = or_fail-eq-ok hashing _ key_hash hashed;
      answer = ground arith;
      fits = fits;
      written = ground arith;
    }

any_both_false {ℓ} :
    {A : Type ℓ} (p q : A → Bool) (xs : List A)
    → any q xs ≡ false
    → any (λ x. p x && q x) xs ≡ false
any_both_false p q [] h = refl
any_both_false p q (x ∷ xs) h = ground (arith, any_both_false p q xs)

long_present : (s : Str) → (length s == 14) ≡ true → is_empty s ≡ false
long_present [] h = absurd (ground arith)
long_present (c ∷ s) h = refl

-- A prefix that passes the check constraint is not empty.
prefix_present : (k : ApiKey) → row_ok k ≡ true → is_empty k.key_prefix ≡ false
unfolding row_ok
prefix_present k h = ground (arith, long_present k.key_prefix)

verify-hash :
    (h : Hashing) (raw_key key_hash : Str)
    → Accepts h
    → hash h raw_key ≡ some key_hash
    → verify h raw_key key_hash ≡ true
unfolding hash verify
verify-hash h raw_key key_hash accepts e = accepts (_) key_hash e

-- A new row is the first that a key verifies against, if no older one is.
candidate-new :
    (o : Outside) (t : Table) (k : ApiKey) (raw_key : Str)
    → k.key_prefix ≡ extract_prefix raw_key
    → lives k.expires_at o.queried_at ≡ true
    → verify o.hashing raw_key k.key_hash ≡ true
    → any (λ v. verify o.hashing raw_key v.key_hash) t ≡ false
    → first
        (λ v.
          is_candidate (extract_prefix raw_key) o.queried_at v
          && verify o.hashing raw_key v.key_hash)
        (t ++ stored k ∷ [])
      ≡ some (stored k)
candidate-new o t k raw_key prefix live fits older =
    let here = is_candidate (extract_prefix raw_key) o.queried_at in
    let there = λ (v : ApiKey). verify o.hashing raw_key v.key_hash in
    first-append_of_none (λ v. here v && there v) t (stored k ∷ [])
      (any_both_false here there t older)
    ∙ rw (prefix, live, fits, str_eq_refl (extract_prefix raw_key)) refl

-- A request with a key that was just created passes with claims for the key's creator and workspace,
-- under the key's id, before the key expires: if the lookup goes through, bcrypt accepts what it
-- hashed, and the key is not accepted by the hash of an older row.
pub api_key_auth-create_key :
    (o : UseCases.Outside) (workspaces : List Workspace) (t t' : Table) (cmd : CreateCommand)
    (r : CreateResult) (v : Outside) (request : Request)
    → create_key o workspaces t cmd ≡ ok (r, t')
    → Accepts o.hashing
    → v.hashing ≡ o.hashing
    → v.lookup_lost ≡ false
    → lives cmd.expires_at v.queried_at ≡ true
    → any (λ k. verify o.hashing r.raw_key k.key_hash) t ≡ false
    → extract_api_key request ≡ some r.raw_key
    → (c : Claims) × (api_key_auth v t' request ≡ next (record request { claims = some c }))
      × (c.user_id ≡ cmd.created_by)
      × (c.workspace_id ≡ cmd.workspace_id)
      × (c.token_id ≡ r.id)
unfolding api_key_auth get_by_prefix matching key_claims new_key
api_key_auth-create_key o workspaces t t' cmd r v request h accepts same calm live older asked =
    let made = create_key-IsCreated o workspaces t cmd r t' h in
    let k = new_key o cmd made.raw_key made.key_hash in
    let raw : r.raw_key ≡ made.raw_key = ground (arith, made.answer) in
    let here = is_candidate (extract_prefix made.raw_key) v.queried_at in
    let there = λ (x : ApiKey). verify v.hashing made.raw_key x.key_hash in
    let fits : verify v.hashing made.raw_key made.key_hash ≡ true =
      rw same (verify-hash o.hashing made.raw_key made.key_hash accepts made.hashed) in
    let first_row = candidate-new v t k made.raw_key refl live fits (rw (same, sym raw) older) in
    let found : first there (where_rows here t') ≡ some (stored k) =
      first-where_rows here there t' ∙ rw made.written first_row in
    let present = prefix_present k made.fits in
    (
      key_claims (stored k) v.now,
      rw (asked, raw, present, calm, found) refl,
      refl,
      refl,
      ground (arith, made.answer),
    )
