-- ===== src/Access/WorkspaceAuth/Laws.antt =====
-- Which requests reach a handler.
use usp_cloud_native.Prelude.{
  Str, Bool, true, Option, none, some, Result-cases, sym, refl, ◌∙◌, ◌⊎◌, Result, ok, err,
  >>=-eq-ok, Option-cases, arith, ◌≡◌, subst, Bool-cases, inl, inr,
}
use usp_cloud_native.Workspaces.Roles.{can}
use usp_cloud_native.Workspaces.Entity.{Member, WorkspaceErr}
use usp_cloud_native.Workspaces.Repository.{Tables, get_member}
use usp_cloud_native.ApiKeys.Repository.{Table}
use usp_cloud_native.Access.Claims.{Claims}
use usp_cloud_native.Access.ApiKeyAuth.{Request, Outside}
use usp_cloud_native.Access.Authenticate.{Config}
use usp_cloud_native.Access.WorkspaceAuth.{
  found_member, workspace_auth, require_action, keyed, known, joined, protected,
}

found_member-eq-ok :
    (r : Result WorkspaceErr Member) (m : Member) → found_member r ≡ ok m → r ≡ ok m
found_member-eq-ok (ok x) m h = ground arith
found_member-eq-ok (err e) m h = absurd (ground arith)

workspace_auth-eq-ok :
    (lost : Bool) (t : Tables) (r : Request) (m : Member)
    → workspace_auth lost t r ≡ ok m
    → (c : Claims) × (r.claims ≡ some c) × (get_member lost t c.workspace_id c.user_id ≡ ok m)
unfolding workspace_auth
workspace_auth-eq-ok lost t r m h = elim (Option-cases r.claims) [
  | inl n ↦ absurd (ground (arith, (rw n at h)))
  | inr (c, e) ↦ (c, e, found_member-eq-ok _ m (rw e at h))
]

joined-eq-ok :
    (lost : Bool) (t : Option Tables) (r : Request) (m : Option Member)
    → joined lost t r ≡ ok m
    → (m ≡ none)
      ⊎ ((tables : Tables) × (n : Member) × (t ≡ some tables)
          × (m ≡ some n)
          × (workspace_auth lost tables r ≡ ok n))
joined-eq-ok lost none r m h = inl (ground arith)
joined-eq-ok lost (some tables) r m h = elim (Result-cases (workspace_auth lost tables r)) [
  | inl (n, e) ↦ inr (tables, n, refl, ground (arith, (rw e at h)), e)
  | inr (status, e) ↦ absurd (ground (arith, (rw e at h)))
]

required-eq-ok :
    (action : Str) (m : Option Member) {v : Unit {0}}
    → require_action action m ≡ ok v
    → (n : Member) × (m ≡ some n) × (can n.role action ≡ true)
unfolding require_action
required-eq-ok action none h = absurd (ground arith)
required-eq-ok action (some n) h = elim (Bool-cases (can n.role action)) [
  | inl e ↦ (n, refl, e)
  | inr e ↦ absurd (ground (arith, (rw e at h)))
]

-- A request passes the chain in front of a route below a workspace that asks for an action, whichever of
-- the middlewares are configured, only with claims, of a user whom the replica shows as a member of the
-- claims' workspace, in a role that may do the action; the handler gets that member.
pub protected-authorized :
    (o : Outside) (config : Option Config) (lost : Bool) (keys : Option Table) (t : Option Tables)
    (action : Str) (r r' : Request) (m : Option Member)
    → protected o config lost keys t action r ≡ ok (r', m)
    → (tables : Tables) × (c : Claims) × (n : Member) × (t ≡ some tables)
      × (r'.claims ≡ some c)
      × (get_member lost tables c.workspace_id c.user_id ≡ ok n)
      × (m ≡ some n)
      × (can n.role action ≡ true)
unfolding protected
protected-authorized o config lost keys t action r r' m h =
    let (r₁, _, h₁) = >>=-eq-ok (keyed o keys r) _ h in
    let (r₂, _, h₂) = >>=-eq-ok (known config o.now r₁) _ h₁ in
    let (m₁, found, h₃) = >>=-eq-ok (joined lost t r₂) _ h₂ in
    let (_, may, h₄) = >>=-eq-ok (require_action action m₁) _ h₃ in
    let same : r₂ ≡ r' = ground arith in
    let same' : m₁ ≡ m = ground arith in
    let (n, held, can_do) = required-eq-ok action m₁ may in
    elim (joined-eq-ok lost t r₂ m₁ found) [
      | inl e ↦ absurd (ground (arith, e, held))
      | inr (tables, n', configured, e, passes) ↦
          let one : n' ≡ n = ground (arith, e, held) in
          let (c, claimed, read) = workspace_auth-eq-ok lost tables r₂ n' passes in
          (
            tables,
            c,
            n,
            configured,
            subst (λ x. x.claims ≡ some c) same claimed,
            subst (λ x. get_member lost tables c.workspace_id c.user_id ≡ ok x) one read,
            sym same' ∙ held,
            can_do,
          )
    ]
