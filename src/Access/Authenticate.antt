-- ===== src/Access/Authenticate.antt =====
-- internal/interfaces/http/middleware/auth.go. The parsing and validation of a JWT by a key set, the
-- deny list and the base64 decoders are arguments; log lines are left out.
pub mod Laws
use usp_cloud_native.Prelude.{
  ℕ, ◌+◌, ◌*◌, Str, codes, str_eq, has_prefix, is_empty, cut, split, contains, count_byte, trim,
  trim_space, trim_prefix, equal_fold, any, ◌==◌, Bool, true, false, not, ◌&&◌, ◌||◌, if◌then◌else◌,
  Option, none, some, List, [], ◌∷◌, ◌++◌, map, Result, ok, err, ◌>>=◌, ◌>>◌, reject_if,
}
use usp_cloud_native.Access.Claims.{Claims, has_scope}
use usp_cloud_native.Access.ApiKeyAuth.{Request}

-- A token that was parsed and validated. `private` gives its private claims that are texts.
pub record Token : Type 0 where
  pub issuer : Str
  pub subject : Str
  pub jti : Str
  pub audience : List Str
  pub issued_at : ℕ
  pub expiration : ℕ
  pub private : Str → Option Str

pub data AuthErr : Type 0 where
  missing_token invalid_token token_expired token_revoked invalid_issuer missing_claim : AuthErr

-- `parse` is `jwt.Parse` with the primary key set, for a token and an audience, with the text of its
-- error; `additional` the same with the other key set, if there is one. `revoked` is the deny list, if
-- there is one: none where it cannot be read.
pub record Config : Type 0 where
  pub issuer : Str
  pub audience : Str
  pub allowed_issuers : List Str
  pub parse : Str → Str → Result Str Token
  pub additional : Option (Str → Str → Result Str Token)
  pub revoked : Option (Str → Option Bool)
  pub decoders : List (Str → Option Str)

abbrev pub gateway_agent : Str
gateway_agent = codes "Synapse-PT-HttpComponents-NIO"

unfoldable pub trusted_gateway_request : Request → Bool
unfolding contains has_prefix
trusted_gateway_request r =
    if not (contains r.user_agent gateway_agent)
    then false
    else has_prefix r.path (codes "/api/v1/")

-- The part after the first part that is "workspaces" and has a part after it.
abbrev pub after_workspaces : List Str → Str
after_workspaces [] = []
after_workspaces (part ∷ []) = []
after_workspaces (part ∷ next ∷ parts) =
    let rest = after_workspaces (next ∷ parts) in
    if str_eq part (codes "workspaces") then next else rest

unfoldable pub workspace_from_path : Str → Str
unfolding split trim
workspace_from_path path = after_workspaces (split (b'/') (trim (λ c. c == b'/') path))

abbrev pub minute : ℕ
minute = 60000000000

abbrev pub claims_for : Request → Str → ℕ → Claims
claims_for r workspace_id now = record {
  user_id = codes "usr_default";
  token_id = r.activity_id;
  workspace_id = workspace_id;
  scope = codes "read write";
  issuer = codes "wso2-gateway";
  audiences = [];
  issued_at = now;
  expires_at = now + minute;
}

unfoldable pub gateway_claims : Request → ℕ → Option Claims
unfolding trusted_gateway_request workspace_from_path
gateway_claims r now =
    if not (trusted_gateway_request r)
    then none
    else if is_empty (workspace_from_path r.path)
    then none
    else some (claims_for r (workspace_from_path r.path) now)

abbrev first_token : Str → List (Str → Option Str) → Option Str
first_token value [] = none
first_token value (decode ∷ decoders) = elim (decode value) [
  | none ↦ first_token value decoders
  | some token ↦ if count_byte (b'.') token == 2 then some token else first_token value decoders
]

-- `decodeGatewayAssertion`: the first decoding with two dots.
unfoldable pub decode_gateway_assertion : List (Str → Option Str) → Str → Option Str
unfolding count_byte
decode_gateway_assertion decoders value = first_token value decoders

abbrev or_same : Str → Option Str → Str
or_same value none = value
or_same value (some token) = token

abbrev pub assertion_token : Config → Str → Str
assertion_token config assertion =
    if count_byte (b'.') assertion == 2
    then assertion
    else or_same assertion (decode_gateway_assertion config.decoders assertion)

abbrev pub header_token : Option (Str × Str) → Result AuthErr Str
header_token none = err missing_token
header_token (some (scheme, token)) =
    if not (equal_fold scheme (codes "Bearer")) || is_empty token
    then err missing_token
    else ok token

unfoldable pub extract_bearer_token : Config → Request → Result AuthErr Str
unfolding trim_space trim_prefix decode_gateway_assertion count_byte cut equal_fold
extract_bearer_token config r =
    if is_empty r.authorization
    then (if is_empty (trim_space r.x_jwt_assertion)
        then err missing_token
        else ok
            (assertion_token config (trim_prefix (trim_space r.x_jwt_assertion) (codes "Bearer "))))
    else header_token (cut (b' ') r.authorization)

-- The second key set is asked where the first refuses; the first error is kept.
abbrev pub fallback_token : Str → Result Str Token → Result Str Token
fallback_token why (ok token) = ok token
fallback_token why (err other) = err why

abbrev pub retried : Config → Str → Result Str Token → Result Str Token
retried config token (ok parsed) = ok parsed
retried config token (err why) = elim config.additional [
  | none ↦ err why
  | some parse ↦ fallback_token why (parse token config.audience)
]

unfoldable pub parse_jwt : Config → Str → Result Str Token
parse_jwt config token = retried config token (config.parse token config.audience)

abbrev pub parse_error : Str → AuthErr
parse_error why = if contains why (codes "exp not satisfied") then token_expired else invalid_token

abbrev pub or_refuse : Result Str Token → Result AuthErr Token
or_refuse (ok token) = ok token
or_refuse (err why) = err (parse_error why)

abbrev append_issuer : Str → List Str → List Str
append_issuer value issuers =
    if is_empty (trim_space value) then issuers else trim_space value ∷ issuers

abbrev append_issuers : List Str → List Str
append_issuers [] = []
append_issuers (value ∷ values) = append_issuer value (append_issuers values)

unfoldable pub configured_issuers : Config → List Str
unfolding split trim_space
configured_issuers config = append_issuers (split (b',') config.issuer ++ config.allowed_issuers)

unfoldable pub issuer_allowed : Config → Str → Bool
unfolding configured_issuers
issuer_allowed config issuer = any (str_eq issuer) (configured_issuers config)

abbrev or_next : Option Str → Option Str → Option Str
or_next none other = other
or_next (some value) other = if is_empty value then other else some value

-- `stringClaim` for a short name and the gateway's long one.
unfoldable pub string_claim : Token → Str → Str → Option Str
string_claim token name long = or_next (token.private name) (or_next (token.private long) none)

abbrev pub workspace_claim : Token → Option Str
workspace_claim token =
    string_claim token (codes "workspace_id") (codes "http://wso2.org/claims/workspace_id")

abbrev pub or_empty : Option Str → Str
or_empty none = []
or_empty (some s) = s

-- A deny list that cannot be read lets the token pass.
abbrev pub or_pass : Option Bool → Bool
or_pass none = false
or_pass (some revoked) = revoked

abbrev pub denied : Option (Str → Option Bool) → Str → Bool
denied none jti = false
denied (some list) jti = or_pass (list jti)

abbrev pub token_claims : Token → Claims
token_claims token = record {
  user_id = token.subject;
  token_id = token.jti;
  workspace_id = or_empty (workspace_claim token);
  scope = or_empty (string_claim token (codes "scope") (codes "http://wso2.org/claims/scope"));
  issuer = token.issuer;
  audiences = token.audience;
  issued_at = token.issued_at;
  expires_at = token.expiration;
}

unfoldable pub authenticate_token : Config → Request → Result AuthErr Claims
unfolding extract_bearer_token parse_jwt contains issuer_allowed string_claim
authenticate_token config r = do
  token ← extract_bearer_token config r
  parsed ← or_refuse (parse_jwt config token)
  reject_if (not (issuer_allowed config parsed.issuer)) invalid_issuer
  reject_if (is_empty (or_empty (workspace_claim parsed))) missing_claim
  reject_if (is_empty parsed.jti) missing_claim
  reject_if (denied config.revoked parsed.jti) token_revoked
  ok (token_claims parsed)

abbrev pub with_claims : Request → Result AuthErr Claims → Result AuthErr Request
with_claims r (ok c) = ok (record r { claims = some c })
with_claims r (err e) = err e

abbrev pub past_gateway : Config → Request → Option Claims → Result AuthErr Request
past_gateway config r (some c) = ok (record r { claims = some c })
past_gateway config r none = with_claims r (authenticate_token config r)

abbrev pub past_context : Config → Request → ℕ → Option Claims → Result AuthErr Request
past_context config r now (some c) = ok r
past_context config r now none = past_gateway config r (gateway_claims r now)

-- The request that the next handler gets, or the error for which 401 is answered.
unfoldable pub authenticate : Config → Request → ℕ → Result AuthErr Request
unfolding gateway_claims authenticate_token
authenticate config r now = past_context config r now r.claims

-- The request passes, or 403 is answered.
unfoldable pub require_scope : Str → Request → Bool
unfolding has_scope
require_scope scope r = has_scope r.claims scope
