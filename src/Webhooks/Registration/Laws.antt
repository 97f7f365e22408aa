-- ===== src/Webhooks/Registration/Laws.antt =====
-- How many webhooks a workspace has.
use usp_cloud_native.Prelude.{
  count_rows-append, ℕ, suc, ◌≤◌, ◌==◌, Str, str_eq, str_eq_iff, is_empty, leb, length, all,
  count_rows, Bool, not, ◌&&◌, List, [], ◌∷◌, ◌++◌, ok, >>=-eq-ok, reject_if, Bool-cases, arith,
  ◌≡◌, subst, inl, inr,
}
use usp_cloud_native.Workspaces.Entity.{Workspace}
use usp_cloud_native.Webhooks.{Webhook, Tables}
use usp_cloud_native.Webhooks.Signature.{generate_secret}
use usp_cloud_native.Webhooks.Registration.{
  name_required, url_required, invalid_url, no_events, invalid_events, limit_reached, is_http_url,
  is_valid_event_type, is_disabled, max_webhooks_per_workspace, count_by_workspace, create_hook,
  drawn, RegisterCommand, RegisterOutside, new_webhook, register,
}

-- The webhooks of a workspace that are not disabled.
abbrev pub enabled : Str → Tables → ℕ
enabled workspace_id t =
    count_rows (λ h. str_eq h.workspace_id workspace_id && not (is_disabled h.status)) t.hooks

create_hook-eq-ok :
    (lost : Bool) (workspaces : List Workspace) (t t' : Tables) (h : Webhook)
    → create_hook lost workspaces t h ≡ ok t'
    → t' ≡ record t { hooks = t.hooks ++ h ∷ [] }
unfolding create_hook
create_hook-eq-ok lost workspaces t t' h e = ground arith

count_by_workspace-eq-ok :
    (lost : Bool) (t : Tables) (workspace_id : Str) (n : ℕ)
    → count_by_workspace lost t workspace_id ≡ ok n
    → n ≡ enabled workspace_id t
unfolding count_by_workspace
count_by_workspace-eq-ok lost t workspace_id n e = ground arith

below_limit :
    (n : ℕ) (t : Tables) (workspace_id : Str)
    → n ≡ enabled workspace_id t
    → {v : Unit {0}} → reject_if (leb max_webhooks_per_workspace n) limit_reached ≡ ok v
    → suc (enabled workspace_id t) ≤ 10
below_limit n t workspace_id e h = ground (arith, e, h)

created_bound :
    (o : RegisterOutside) (workspaces : List Workspace) (t t' : Tables) (cmd : RegisterCommand)
    (secret workspace_id : Str)
    → enabled workspace_id t ≤ 10
    → suc (enabled cmd.workspace_id t) ≤ 10
    → create_hook o.create_lost workspaces t (new_webhook o cmd secret) ≡ ok t'
    → enabled workspace_id t' ≤ 10
created_bound o workspaces t t' cmd secret workspace_id few below created =
    let hook = new_webhook o cmd secret in
    let mine = λ (v : Webhook). str_eq v.workspace_id workspace_id && not (is_disabled v.status) in
    let sum = count_rows-append mine t.hooks (hook ∷ []) in
    rw (create_hook-eq-ok o.create_lost workspaces t t' hook created, sum)
      (elim (Bool-cases (str_eq cmd.workspace_id workspace_id)) [
        | inr n ↦ rw n (omega (arith, few))
        | inl y ↦ rw y (
            omega (
              arith,
              subst (λ w. suc (enabled w t) ≤ 10) ((str_eq_iff cmd.workspace_id workspace_id).0 y)
                  below,
            ))
      ])

-- Where the replica shows what the primary holds, no registration brings a workspace above ten webhooks
-- that are not disabled, its own or another.
pub register_bound :
    (o : RegisterOutside) (workspaces : List Workspace) (t t' : Tables) (cmd : RegisterCommand)
    (h : Webhook) (workspace_id : Str)
    → enabled workspace_id t ≤ 10
    → register o workspaces t t cmd ≡ ok (h, t')
    → enabled workspace_id t' ≤ 10
unfolding register
register_bound o workspaces t t' cmd h workspace_id few e =
    let (_, _, e₁) = >>=-eq-ok (reject_if (is_empty cmd.name) name_required) _ e in
    let (_, _, e₂) = >>=-eq-ok (reject_if (is_empty cmd.url) url_required) _ e₁ in
    let (_, _, e₃) = >>=-eq-ok (reject_if (not (is_http_url cmd.url)) invalid_url) _ e₂ in
    let (_, _, e₄) = >>=-eq-ok (reject_if (length cmd.events == 0) no_events) _ e₃ in
    let (_, _, e₅) =
      >>=-eq-ok (reject_if (not (all is_valid_event_type cmd.events)) invalid_events) _ e₄ in
    let (n, counted, e₆) = >>=-eq-ok (count_by_workspace o.count_lost t cmd.workspace_id) _ e₅ in
    let (_, below, e₇) =
      >>=-eq-ok (reject_if (leb max_webhooks_per_workspace n) limit_reached) _ e₆ in
    let (secret, _, e₈) = >>=-eq-ok (drawn (generate_secret o.random_bytes)) _ e₇ in
    let (t₁, created, e₉) =
      >>=-eq-ok (create_hook o.create_lost workspaces t (new_webhook o cmd secret)) _ e₈ in
    let same : t₁ ≡ t' = ground arith in
    subst (λ x. enabled workspace_id x ≤ 10) same
      (created_bound o workspaces t t₁ cmd secret workspace_id few
        (below_limit n t cmd.workspace_id
          (count_by_workspace-eq-ok o.count_lost t cmd.workspace_id n counted) below)
        created)
