-- ===== src/Access/Authenticate/Laws.antt =====
-- Whom the middleware lets in.
use usp_cloud_native.Prelude.{
  ℕ, Str, is_empty, true, false, not, some, Result, ok, err, >>=-eq-ok, reject_if, Result-cases,
  arith, ◌≡◌, ◌≢◌, ◌⊎◌, Option-cases, inl, inr, [],
}
use usp_cloud_native.Access.Claims.{Claims}
use usp_cloud_native.Access.ApiKeyAuth.{Request}
use usp_cloud_native.Access.Authenticate.{
  Token, invalid_issuer, missing_claim, token_revoked, Config, gateway_claims, extract_bearer_token,
  parse_jwt, or_refuse, issuer_allowed, workspace_claim, or_empty, denied, token_claims,
  authenticate_token, authenticate,
}

-- Why the claims of a token are trusted.
pub record IsTrusted (config : Config) (r : Request) (c : Claims) : Type 0 where
  pub text : Str
  pub token : Token
  pub extracted : extract_bearer_token config r ≡ ok text
  pub parsed : parse_jwt config text ≡ ok token
  pub issuer : issuer_allowed config token.issuer ≡ true
  pub workspace : c.workspace_id ≢ []
  pub identified : token.jti ≢ []
  pub allowed : denied config.revoked token.jti ≡ false
  pub same : c ≡ token_claims token

or_refuse-eq-ok : (r : Result Str Token) (t : Token) → or_refuse r ≡ ok t → r ≡ ok t
or_refuse-eq-ok (ok x) t h = ground arith
or_refuse-eq-ok (err e) t h = absurd (ground arith)

authenticate_token-IsTrusted :
    (config : Config) (r : Request) (c : Claims)
    → authenticate_token config r ≡ ok c
    → IsTrusted config r c
unfolding authenticate_token
authenticate_token-IsTrusted config r c h =
    let (text, extracted, h₁) = >>=-eq-ok (extract_bearer_token config r) _ h in
    let (token, parsed, h₂) = >>=-eq-ok (or_refuse (parse_jwt config text)) _ h₁ in
    let (_, issuer, h₃) =
      >>=-eq-ok (reject_if (not (issuer_allowed config token.issuer)) invalid_issuer) _ h₂ in
    let (_, workspace, h₄) =
      >>=-eq-ok (reject_if (is_empty (or_empty (workspace_claim token))) missing_claim) _ h₃ in
    let (_, identified, h₅) = >>=-eq-ok (reject_if (is_empty token.jti) missing_claim) _ h₄ in
    let (_, allowed, h₆) =
      >>=-eq-ok (reject_if (denied config.revoked token.jti) token_revoked) _ h₅ in
    let same : c ≡ token_claims token = ground arith in
    record {
      text = text;
      token = token;
      extracted = extracted;
      parsed = or_refuse-eq-ok _ token parsed;
      issuer = ground arith;
      workspace = rw same (λ e. ground (arith, e, workspace));
      identified = λ e. ground (arith, e, identified);
      allowed = ground arith;
      same = same;
    }

-- Whoever is let in had claims before, or came with the marks of the gateway, or with a token that a
-- key set accepts, of an allowed issuer, with a workspace and an identifier that is not known to be
-- revoked.
pub authenticate-IsTrusted :
    (config : Config) (r r' : Request) (now : ℕ)
    → authenticate config r now ≡ ok r'
    → ((c : Claims) × (r.claims ≡ some c) × (r' ≡ r))
      ⊎ (((c : Claims) × (gateway_claims r now ≡ some c) × (r' ≡ record r { claims = some c }))
          ⊎ ((c : Claims) × IsTrusted config r c × (r' ≡ record r { claims = some c })))
unfolding authenticate
authenticate-IsTrusted config r r' now h = elim (Option-cases r.claims) [
  | inr (c, e) ↦ inl (c, e, ground (arith, (rw e at h)))
  | inl n ↦ elim (Option-cases (gateway_claims r now)) [
    | inr (c, e) ↦ inr (inl (c, e, ground (arith, (rw (n, e) at h))))
    | inl m ↦ elim (Result-cases (authenticate_token config r)) [
      | inl (c, e) ↦
          inr (
            inr (c, authenticate_token-IsTrusted config r c e, ground (arith, (rw (n, m, e) at h))))
      | inr (x, e) ↦ absurd (ground (arith, (rw (n, m, e) at h)))
    ]
  ]
]
