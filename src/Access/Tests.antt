-- ===== src/Access/Tests.antt =====
-- Scopes, keys, tokens and roles at concrete inputs.
use usp_cloud_native.Prelude.{
  Str, codes, str_eq, str_eq_refl, true, false, none, some, [], ◌∷◌, ◌⊎◌, arith, ◌≡◌, ◌≢◌, refl, ok,
  err, cut, split, contains, trim_space, trim, equal_fold, has_prefix, to_lower, if◌then◌else◌,
}
use usp_cloud_native.Access.Claims.{Claims, has_scope}
use usp_cloud_native.Workspaces.Roles.{can, role_admin, action_view_url}
use usp_cloud_native.Workspaces.Entity.{Workspace, Member, is_not_found}
use usp_cloud_native.Workspaces.Repository.{Tables, get_member}
use usp_cloud_native.Urls.Repository.{char_length}
use usp_cloud_native.ApiKeys.Entity.{ApiKey, validate_scopes, extract_prefix}
use usp_cloud_native.ApiKeys.Secrets.{Hashing, Accepts, hex, generate_raw, hash, verify}
use usp_cloud_native.ApiKeys.Repository as Keys
use usp_cloud_native.ApiKeys.Repository.{row_ok, create, get_by_prefix, is_row, lives, revoke}
use usp_cloud_native.ApiKeys.UseCases as UseCases
use usp_cloud_native.ApiKeys.UseCases.{
  CreateCommand, new_key, create_result, create_key, revoke_key,
}
use usp_cloud_native.Access.ApiKeyAuth.{
  Request, next, Outside, extract_api_key, key_claims, matching, api_key_auth,
}
use usp_cloud_native.Access.ApiKeyAuth.Laws.{IsVerified, api_key_auth-IsVerified}
use usp_cloud_native.Access.ApiKeyAuth.Lifecycle.{api_key_auth-create_key}
use usp_cloud_native.Access.ApiKeyAuth.Revocation.{api_key_auth-revoke_key}
use usp_cloud_native.Access.Authenticate.{
  Token, Config, gateway_agent, gateway_claims, trusted_gateway_request, claims_for,
  workspace_from_path, extract_bearer_token, parse_jwt, issuer_allowed, configured_issuers,
  string_claim, token_claims, authenticate_token, authenticate,
}
use usp_cloud_native.Access.Authenticate.Laws.{IsTrusted, authenticate-IsTrusted}
use usp_cloud_native.Access.DenyList as DenyList
use usp_cloud_native.Access.DenyList.Laws.{authenticate-revoke}
use usp_cloud_native.Access.WorkspaceAuth.{workspace_auth, require_action, protected}
use usp_cloud_native.Access.WorkspaceAuth.Laws.{protected-authorized}

abbrev read_write : Claims
read_write = record {
  user_id = codes "user1";
  token_id = [];
  workspace_id = codes "ws1";
  scope = codes "read write";
  issuer = codes "usp";
  audiences = [];
  issued_at = 10;
  expires_at = 900;
}

write_allowed : has_scope (some read_write) (codes "write") ≡ true
unfolding has_scope str_eq
write_allowed = refl

-- A part of a word is no scope.
prefix_refused : has_scope (some read_write) (codes "rea") ≡ false
unfolding has_scope str_eq
prefix_refused = refl

-- A hash that keeps its text.
abbrev plain : Hashing
plain = record {
  sha256 = λ s. s;
  bcrypt_generate = λ password. some password;
  bcrypt_matches = λ hash password. str_eq hash password;
}

plain-Accepts : Accepts plain
plain-Accepts password hash e = ground (arith, e, str_eq_refl password)

abbrev acme : Workspace
acme = record {
  id = codes "01HW7XYZQK";
  name = codes "Acme";
  slug = codes "acme";
  plan_tier = codes "free";
  owner_id = codes "user1";
  created_at = 5;
  updated_at = 5;
}

abbrev admin : Member
admin = record {
  workspace_id = codes "01HW7XYZQK";
  user_id = codes "user1";
  role = role_admin;
  invited_by = [];
  joined_at = 5;
}

abbrev tables : Tables
tables = record { workspaces = acme ∷ []; members = admin ∷ [] }

abbrev around : UseCases.Outside
around = record {
  hashing = plain;
  random_bytes = some (1 ∷ 255 ∷ []);
  new_id = codes "k1";
  now = 10;
  lost = false;
  check_lost = false;
  member_lost = false;
}

abbrev command : CreateCommand
command = record {
  workspace_id = codes "01HW7XYZQK";
  name = codes "ci";
  scopes = codes "read" ∷ [];
  expires_at = none;
  created_by = codes "user1";
}

abbrev raw_key : Str
raw_key = codes "urlsk_01HW7XYZ01ff"

abbrev key_hash : Str
key_hash = hex (plain.sha256 raw_key)

abbrev key : ApiKey
key = new_key around command raw_key key_hash

key_created : create_key around (acme ∷ []) [] command ≡ ok (create_result key raw_key, key ∷ [])
unfolding create_key new_key extract_prefix validate_scopes generate_raw hash create row_ok
    char_length str_eq has_prefix
key_created = refl

abbrev visited : Outside
visited = record { hashing = plain; lookup_lost = false; queried_at = 20; now = 21 }

abbrev request : Request
request = record {
  path = codes "/api/v1/urls";
  user_agent = codes "curl/8.0";
  authorization = codes "bearer urlsk_01HW7XYZ01ff";
  x_api_key = [];
  x_jwt_assertion = [];
  activity_id = [];
  claims = none;
}

key_carried : extract_api_key request ≡ some raw_key
unfolding extract_api_key cut equal_fold to_lower has_prefix str_eq
key_carried = refl

api_key_auth-create_key_example :
    (c : Claims) × (api_key_auth visited (key ∷ []) request
      ≡ next (record request { claims = some c }))
    × (c.user_id ≡ codes "user1")
    × (c.workspace_id ≡ codes "01HW7XYZQK")
    × (c.token_id ≡ codes "k1")
unfolding new_key
api_key_auth-create_key_example =
    api_key_auth-create_key around (acme ∷ []) [] (key ∷ []) command (create_result key raw_key)
      visited request key_created plain-Accepts refl refl refl refl key_carried

abbrev keyed : Request
keyed = record request { claims = some (key_claims key 21) }

key_passes : api_key_auth visited (key ∷ []) request ≡ next keyed
unfolding api_key_auth extract_api_key extract_prefix get_by_prefix matching verify new_key cut
    equal_fold to_lower has_prefix str_eq
key_passes = refl

api_key_auth-IsVerified_example :
    ((extract_api_key request ≡ none) × (keyed ≡ request))
    ⊎ ((text : Str) × (k : ApiKey) × (extract_api_key request ≡ some text)
        × IsVerified visited (key ∷ []) text k
        × (keyed ≡ record request { claims = some (key_claims k 21) }))
api_key_auth-IsVerified_example =
    api_key_auth-IsVerified visited (key ∷ []) request keyed key_passes

-- A second row of the same secret.
abbrev other_key : ApiKey
other_key = record key { id = codes "k2" }

abbrev after_revocation : Keys.Table
after_revocation = record key { revoked_at = some 10 } ∷ other_key ∷ []

key_revoked :
    revoke_key around tables
      (key ∷ other_key ∷ [])
      (codes "k1")
      (codes "01HW7XYZQK")
      (codes "user1")
    ≡ ok after_revocation
unfolding revoke_key get_member is_not_found can revoke new_key str_eq
key_revoked = refl

abbrev other_keyed : Request
other_keyed = record request { claims = some (key_claims other_key 21) }

other_passes : api_key_auth visited after_revocation request ≡ next other_keyed
unfolding api_key_auth extract_api_key extract_prefix get_by_prefix matching verify new_key cut
    equal_fold to_lower has_prefix str_eq
other_passes = refl

api_key_auth-revoke_key_example :
    (k : ApiKey) × (other_keyed ≡ record request { claims = some (key_claims k 21) })
    × (is_row (codes "k1") (codes "01HW7XYZQK") k ≡ false)
api_key_auth-revoke_key_example =
    api_key_auth-revoke_key around tables (key ∷ other_key ∷ []) after_revocation (codes "k1")
      (codes "01HW7XYZQK") (codes "user1") visited request other_keyed raw_key key_revoked
      key_carried other_passes

abbrev token : Token
token = record {
  issuer = codes "https://issuer.example";
  subject = codes "user1";
  jti = codes "j1";
  audience = codes "api" ∷ [];
  issued_at = 5;
  expiration = 900;
  private = λ name. if str_eq name (codes "workspace_id") then some (codes "01HW7XYZQK") else none;
}

abbrev config : Config
config = record {
  issuer = codes "https://issuer.example";
  audience = codes "api";
  allowed_issuers = [];
  parse = λ text audience. if str_eq text (codes "a.b.c") then ok token else err (codes "bad");
  additional = none;
  revoked = some (λ jti. some false);
  decoders = [];
}

abbrev bearer : Request
bearer = record request { authorization = codes "Bearer a.b.c" }

abbrev known : Request
known = record bearer { claims = some (token_claims token) }

bearer_let_in : authenticate config bearer 20 ≡ ok known
unfolding authenticate gateway_claims trusted_gateway_request authenticate_token
    extract_bearer_token parse_jwt issuer_allowed configured_issuers string_claim cut equal_fold
    to_lower split trim_space contains has_prefix str_eq
bearer_let_in = refl

authenticate-IsTrusted_example :
    ((c : Claims) × (bearer.claims ≡ some c) × (known ≡ bearer))
    ⊎ (((c : Claims) × (gateway_claims bearer 20 ≡ some c)
          × (known ≡ record bearer { claims = some c }))
        ⊎ ((c : Claims) × IsTrusted config bearer c × (known ≡ record bearer { claims = some c })))
authenticate-IsTrusted_example = authenticate-IsTrusted config bearer known 20 bearer_let_in

abbrev marked : Request
marked = record request {
  path = codes "/api/v1/workspaces/ws1/urls";
  user_agent = gateway_agent;
  authorization = [];
}

-- No token is asked for.
gateway_let_in :
    authenticate config marked 20
    ≡ ok (record marked { claims = some (claims_for marked (codes "ws1") 20) })
unfolding authenticate gateway_claims trusted_gateway_request workspace_from_path contains
    has_prefix split trim str_eq
gateway_let_in = refl

member_admitted :
    protected visited (some config) false (some []) (some tables) action_view_url bearer
    ≡ ok (known, some admin)
unfolding protected api_key_auth extract_api_key workspace_auth require_action get_member
    is_not_found can authenticate gateway_claims trusted_gateway_request authenticate_token
    extract_bearer_token parse_jwt issuer_allowed configured_issuers string_claim cut equal_fold
    to_lower split trim_space contains has_prefix str_eq
member_admitted = refl

protected-authorized_example :
    (t : Tables) × (c : Claims) × (n : Member) × (some tables ≡ some t)
    × (known.claims ≡ some c)
    × (get_member false t c.workspace_id c.user_id ≡ ok n)
    × (some admin ≡ some n)
    × (can n.role action_view_url ≡ true)
protected-authorized_example =
    protected-authorized visited (some config) false (some []) (some tables) action_view_url bearer
      known (some admin) member_admitted

-- A deny list on which another token stands.
abbrev denying : Config
denying = record config {
  revoked = some (λ id.
      DenyList.is_revoked false (DenyList.revoke false (codes "j9") 2000000 10 11 []).1 id 20);
}

bearer_passes : authenticate denying bearer 20 ≡ ok known
unfolding authenticate gateway_claims trusted_gateway_request authenticate_token
    extract_bearer_token parse_jwt issuer_allowed configured_issuers string_claim cut equal_fold
    to_lower split trim_space contains has_prefix DenyList.is_revoked DenyList.revoke str_eq
bearer_passes = refl

bearer_unmarked : gateway_claims bearer 20 ≡ none
unfolding gateway_claims trusted_gateway_request contains has_prefix
bearer_unmarked = refl

revocation_sent : (DenyList.revoke false (codes "j9") 2000000 10 11 []).0 ≡ true
unfolding DenyList.revoke
revocation_sent = refl

revocation_seen :
    DenyList.is_revoked false
      (DenyList.revoke false (codes "j1") 2000000 10 11 []).1
      (codes "j1")
      20
    ≡ some true
unfolding DenyList.is_revoked DenyList.revoke str_eq
revocation_seen = refl

authenticate-revoke_example : codes "j1" ≢ codes "j9"
authenticate-revoke_example =
    authenticate-revoke denying bearer known false (codes "j9") 2000000 10 11 20 []
      (token_claims token) refl bearer_unmarked refl (omega arith) (omega arith) (omega arith)
      revocation_sent bearer_passes refl
