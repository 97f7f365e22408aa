-- ===== src/Access/ApiKeyAuth.antt =====
-- internal/interfaces/http/middleware/apikey.go: of a request the headers that are read and the claims
-- that its context has, of the answer whether the next handler runs, and with which claims. The
-- goroutine that notes the last use of a key, `ApiKeys.Repository.update_last_used`, is left out.
pub mod Laws
pub mod Lifecycle
pub mod Revocation
use usp_cloud_native.Prelude.{
  ℕ, ◌+◌, ◌*◌, Str, codes, str_eq, has_prefix, is_empty, cut, equal_fold, first, Bool, true, false,
  not, ◌&&◌, if◌then◌else◌, Option, none, some, List, [], ◌∷◌, Result, ok, err,
}
use usp_cloud_native.Access.Claims.{Claims}
use usp_cloud_native.ApiKeys.Entity.{
  ApiKey, ApiKeyErr, key_prefix_text, extract_prefix, scope_string,
}
use usp_cloud_native.ApiKeys.Secrets.{Hashing, verify}
use usp_cloud_native.ApiKeys.Repository.{Table, get_by_prefix}

-- A request by what the middleware in front of the handlers reads. A missing header is empty.
pub record Request : Type 0 where
  pub path : Str
  pub user_agent : Str
  pub authorization : Str
  pub x_api_key : Str
  pub x_jwt_assertion : Str
  pub activity_id : Str
  pub claims : Option Claims

-- The next handler runs with the request as it is now; or an answer with a status is written.
pub data Passed : Type 0 where
  next : Request → Passed
  refused : ℕ → Passed

abbrev pub if_key : Str → Option Str
if_key token = if has_prefix token key_prefix_text then some token else none

abbrev pub bearer_token : Option (Str × Str) → Option Str
bearer_token none = none
bearer_token (some (scheme, token)) =
    if equal_fold scheme (codes "Bearer") && has_prefix token key_prefix_text
    then some token
    else none

abbrev or_try {ℓ} : {A : Type ℓ} → Option A → Option A → Option A
or_try none other = other
or_try (some a) other = some a

-- `extractAPIKey`. An empty header has no prefix and no scheme.
unfoldable pub extract_api_key : Request → Option Str
unfolding has_prefix cut equal_fold
extract_api_key r = or_try (if_key r.x_api_key) (bearer_token (cut (b' ') r.authorization))

-- A hundred years from now where a key does not expire.
abbrev pub expires_at_or_far : Option ℕ → ℕ → ℕ
expires_at_or_far none now = now + 100 * 365 * 24 * 3600000000000
expires_at_or_far (some at) now = at

unfoldable pub key_claims : ApiKey → ℕ → Claims
unfolding scope_string
key_claims k now = record {
  user_id = k.created_by;
  token_id = k.id;
  workspace_id = k.workspace_id;
  scope = scope_string k;
  issuer = codes "apikey";
  audiences = [];
  issued_at = k.created_at;
  expires_at = expires_at_or_far k.expires_at now;
}

pub record Outside : Type 0 where
  pub hashing : Hashing
  pub lookup_lost : Bool
  -- The database's clock in the query, and the program's afterwards.
  pub queried_at : ℕ
  pub now : ℕ

-- The loop over the candidates.
unfoldable pub matching : Hashing → Str → List ApiKey → Option ApiKey
unfolding verify
matching h raw_key keys = first (λ k. verify h raw_key k.key_hash) keys

abbrev pub accepted : Outside → Request → Option ApiKey → Passed
accepted o r none = refused 401
accepted o r (some k) = next (record r { claims = some (key_claims k o.now) })

abbrev pub compared : Outside → Request → Str → Result ApiKeyErr (List ApiKey) → Passed
compared o r raw_key (err e) = refused 500
compared o r raw_key (ok keys) = accepted o r (matching o.hashing raw_key keys)

abbrev pub with_key : Outside → Table → Request → Option Str → Passed
with_key o t r none = next r
with_key o t r (some raw_key) =
    if is_empty (extract_prefix raw_key)
    then refused 401
    else compared o r raw_key (get_by_prefix o.lookup_lost t (extract_prefix raw_key) o.queried_at)

unfoldable pub api_key_auth : Outside → Table → Request → Passed
unfolding extract_api_key extract_prefix get_by_prefix matching key_claims
api_key_auth o t r = with_key o t r (extract_api_key r)
