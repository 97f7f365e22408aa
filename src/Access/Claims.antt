-- ===== src/Access/Claims.antt =====
-- internal/domain/auth/claims.go. The context that carries the claims is an optional value.
pub mod Laws
use usp_cloud_native.Prelude.{
  ℕ, Str, str_eq, ltb, ◌==◌, Bool, true, false, ◌||◌, if◌then◌else◌, Option, none, some, List, [],
  ◌∷◌, ◌++◌,
}

pub record Claims : Type 0 where
  pub user_id : Str
  pub token_id : Str
  pub workspace_id : Str
  pub scope : Str
  pub issuer : Str
  pub audiences : List Str
  pub issued_at : ℕ
  pub expires_at : ℕ

-- The loop of `HasScope`: `word` is the text from `start` to `i`, and a space or the end closes it.
scan : (word rest scope : Str) → Bool
scan word [] scope = str_eq word scope
scan word (c ∷ rest) scope =
    let closed = str_eq word scope || scan [] rest scope in
    let longer = scan (word ++ c ∷ []) rest scope in if c == b' ' then closed else longer

-- A nil pointer has no scope.
unfoldable pub has_scope : Option Claims → Str → Bool
unfolding scan
has_scope none scope = false
has_scope (some c) scope = scan [] c.scope scope

unfoldable pub is_expired : Option Claims → ℕ → Bool
is_expired none now = true
is_expired (some c) now = ltb c.expires_at now

unfoldable pub workspace_id_from_context : Option Claims → Str
workspace_id_from_context none = []
workspace_id_from_context (some c) = c.workspace_id

unfoldable pub user_id_from_context : Option Claims → Str
user_id_from_context none = []
user_id_from_context (some c) = c.user_id
