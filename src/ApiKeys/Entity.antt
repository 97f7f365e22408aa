-- ===== src/ApiKeys/Entity.antt =====
-- internal/domain/apikey/entity.go and errors.go.
use usp_cloud_native.Prelude.{
  ℕ, Str, codes, str_eq, ltb, has_prefix, length, take, any, all, Bool, true, false, not, ◌||◌,
  if◌then◌else◌, Option, none, some, List, [], ◌∷◌, ◌++◌, Result, ◌>>◌, reject_if,
}
use usp_cloud_native.Urls.Entity.{has_passed}

abbrev pub key_prefix_text : Str
key_prefix_text = codes "urlsk_"

abbrev pub raw_key_prefix_length : ℕ
raw_key_prefix_length = 14

abbrev pub scope_read : Str
scope_read = codes "read"

abbrev pub scope_write : Str
scope_write = codes "write"

abbrev pub scope_admin : Str
scope_admin = codes "admin"

pub record ApiKey : Type 0 where
  pub id : Str
  pub workspace_id : Str
  pub name : Str
  pub key_hash : Str
  pub key_prefix : Str
  pub scopes : List Str
  pub created_by : Str
  pub created_at : ℕ
  pub expires_at : Option ℕ
  pub revoked_at : Option ℕ
  pub last_used_at : Option ℕ

abbrev pub is_set {ℓ} : {A : Type ℓ} → Option A → Bool
is_set none = false
is_set (some a) = true

unfoldable pub is_active : ApiKey → ℕ → Bool
is_active k now =
    if is_set k.revoked_at then false else if has_passed k.expires_at now then false else true

unfoldable pub has_scope : ApiKey → Str → Bool
has_scope k scope = any (λ s. str_eq s scope) k.scopes

-- `strings.Join(scopes, " ")`
abbrev pub join_words : List Str → Str
join_words [] = []
join_words (word ∷ []) = word
join_words (word ∷ next ∷ words) = word ++ b' ' ∷ join_words (next ∷ words)

unfoldable pub scope_string : ApiKey → Str
scope_string k = join_words k.scopes

unfoldable pub extract_prefix : Str → Str
unfolding has_prefix
extract_prefix raw_key =
    if ltb (length raw_key) raw_key_prefix_length
    then []
    else if not (has_prefix raw_key key_prefix_text)
    then []
    else take raw_key_prefix_length raw_key

abbrev pub is_scope : Str → Bool
is_scope s = str_eq scope_read s || (str_eq scope_write s || str_eq scope_admin s)

-- The reason for which scopes are refused.
pub data ScopeErr : Type 0 where
  unknown missing : ScopeErr

unfoldable pub validate_scopes : List Str → Result ScopeErr (Unit {0})
unfolding str_eq
validate_scopes scopes =
    reject_if (not (all is_scope scopes)) unknown >> reject_if (no_scope scopes) missing
  where
    no_scope : List Str → Bool
    no_scope [] = true
    no_scope (s ∷ rest) = false

pub data ApiKeyErr : Type 0 where
  not_found already_revoked server : ApiKeyErr
