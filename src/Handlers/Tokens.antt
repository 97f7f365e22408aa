-- ===== src/Handlers/Tokens.antt =====
-- `revokeTokenHandler` of cmd/api/main.go. Log lines are left out.
use usp_cloud_native.Prelude.{ℕ, codes, Bool, true, false, Option, some, [], ◌∷◌}
use usp_cloud_native.Access.Claims.{Claims}
use usp_cloud_native.Access.DenyList.{Entries, revoke}
use usp_cloud_native.Audit.Event.{Event, text, annotate_context}
use usp_cloud_native.Handlers.Response.{Response, no_content, internal_error, Context, with_claims}

abbrev pub token_revoked :
    Context → Claims → Entries → Bool × Entries → Response (Unit {0}) × Entries × Option Event
token_revoked c claims entries (false, entries') = (internal_error c.path, entries', c.pending)
token_revoked c claims entries (true, entries') = (
  no_content,
  entries',
  annotate_context c.pending (codes "token") claims.token_id
      (some ((codes "revoked_by", text claims.user_id) ∷ [])),
)

unfoldable pub delete_token :
    Bool → (now at : ℕ) → Context → Entries → Response (Unit {0}) × Entries × Option Event
unfolding revoke annotate_context
delete_token lost now at c entries = with_claims c entries (λ claims.
    token_revoked c claims entries (revoke lost claims.token_id claims.expires_at now at entries))
