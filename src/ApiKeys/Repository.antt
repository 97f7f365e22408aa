-- ===== src/ApiKeys/Repository.antt =====
-- internal/infrastructure/postgres/apikey_repository.go over the table of
-- deployments/migrations/000003_create_api_keys.up.sql. A row refers to a workspace.
use usp_cloud_native.Prelude.{
  ℕ, zero, suc, Str, str_eq, leb, ltb, ◌==◌, has_prefix, drop, length, all, any, first, where_rows,
  update_rows, count_rows, Bool, true, false, not, ◌&&◌, ◌||◌, if◌then◌else◌, Option, none, some,
  List, [], ◌∷◌, ◌++◌, Result, ok, err,
}
use usp_cloud_native.Urls.Repository.{char_length}
use usp_cloud_native.Workspaces.Entity.{Workspace}
use usp_cloud_native.ApiKeys.Entity.{
  ApiKey, ApiKeyErr, not_found, already_revoked, server, is_scope, is_set, key_prefix_text,
}

abbrev pub Table : Type 0
Table = List ApiKey

abbrev pub is_alphanumeric : ℕ → Bool
is_alphanumeric c =
    (leb b'a' c && leb c b'z') || ((leb b'A' c && leb c b'Z') || (leb b'0' c && leb c b'9'))

-- The check constraints: the name's length, `^urlsk_[a-zA-Z0-9]{8}$`, and the scopes.
unfoldable pub row_ok : ApiKey → Bool
unfolding has_prefix
row_ok k =
    (leb 1 (char_length k.name) && leb (char_length k.name) 100)
    && ((has_prefix k.key_prefix key_prefix_text
          && ((length k.key_prefix == 14) && all is_alphanumeric (drop 6 k.key_prefix)))
        && all is_scope k.scopes)

abbrev pub unless {ℓ} : {A : Type ℓ} → Bool → Result ApiKeyErr A → Result ApiKeyErr A
unless true r = err server
unless false r = r

abbrev pub stored : ApiKey → ApiKey
stored k = record k { revoked_at = none; last_used_at = none }

unfoldable pub create : Bool → List Workspace → Table → ApiKey → Result ApiKeyErr Table
unfolding row_ok
create lost workspaces t k = unless lost (
    if not (row_ok k)
    then err server
    else if any (λ v. str_eq v.id k.id) t
    then err server
    else if not (any (λ w. str_eq w.id k.workspace_id) workspaces)
    then err server
    else ok (t ++ stored k ∷ []))

-- `expires_at IS NULL OR expires_at > NOW()`
abbrev pub lives : Option ℕ → ℕ → Bool
lives none now = true
lives (some at) now = ltb now at

-- The `WHERE` of `GetByPrefix`.
abbrev pub is_candidate : Str → ℕ → ApiKey → Bool
is_candidate prefix now k =
    str_eq k.key_prefix prefix && (not (is_set k.revoked_at) && lives k.expires_at now)

unfoldable pub get_by_prefix : Bool → Table → Str → ℕ → Result ApiKeyErr (List ApiKey)
get_by_prefix lost t prefix now = unless lost (ok (where_rows (is_candidate prefix now) t))

abbrev pub is_row : Str → Str → ApiKey → Bool
is_row id workspace_id k = str_eq k.id id && str_eq k.workspace_id workspace_id

abbrev row_or_error : Option ApiKey → Result ApiKeyErr ApiKey
row_or_error none = err not_found
row_or_error (some k) = ok k

unfoldable pub get_by_id : Bool → Table → Str → Str → Result ApiKeyErr ApiKey
get_by_id lost t id workspace_id = unless lost (row_or_error (first (is_row id workspace_id) t))

-- `ORDER BY created_at DESC`
abbrev insert_newest : ApiKey → Table → Table
insert_newest k [] = k ∷ []
insert_newest k (v ∷ t) =
    let rest = insert_newest k t in if leb v.created_at k.created_at then k ∷ v ∷ t else v ∷ rest

abbrev pub newest_first : Table → Table
newest_first [] = []
newest_first (k ∷ t) = insert_newest k (newest_first t)

unfoldable pub list : Bool → Table → Str → Result ApiKeyErr Table
list lost t workspace_id = unless lost (
    ok (
      newest_first
        (where_rows (λ k. str_eq k.workspace_id workspace_id && not (is_set k.revoked_at)) t)))

abbrev pub is_revocable : Str → Str → ApiKey → Bool
is_revocable id workspace_id k = is_row id workspace_id k && not (is_set k.revoked_at)

abbrev pub set_revoked : ℕ → ApiKey → ApiKey
set_revoked now k = record k { revoked_at = some now }

-- Why no row was changed: the second query, whose own fault reads as a missing row.
abbrev reason : Bool → Option ApiKey → ApiKeyErr
reason true row = not_found
reason false none = not_found
reason false (some k) = if is_set k.revoked_at then already_revoked else not_found

abbrev revoked : ℕ → ApiKeyErr → Table → Result ApiKeyErr Table
revoked zero why t = err why
revoked (suc n) why t = ok t

unfoldable pub revoke : Bool → Bool → Table → Str → Str → ℕ → Result ApiKeyErr Table
revoke lost check_lost t id workspace_id now = unless lost (
    revoked (count_rows (is_revocable id workspace_id) t)
      (reason check_lost (first (is_row id workspace_id) t))
      (update_rows (is_revocable id workspace_id) (set_revoked now) t))

unfoldable pub update_last_used : Bool → Table → Str → ℕ → Result ApiKeyErr Table
update_last_used lost t id now =
    unless lost
      (ok (update_rows (λ k. str_eq k.id id) (λ k. record k { last_used_at = some now }) t))
