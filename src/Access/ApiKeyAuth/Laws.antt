-- ===== src/Access/ApiKeyAuth/Laws.antt =====
-- Whom an API key lets in.
use usp_cloud_native.Prelude.{
  Str, str_eq_iff, is_empty, first, first-holds, where_rows, Bool, true, ◌&&◌, Option, none, some,
  List, [], ◌∷◌, arith, sym, ◌∙◌, ◌≡◌, ◌⊎◌, refl, Bool-cases, Option-cases, inl, inr,
}
use usp_cloud_native.ApiKeys.Entity.{ApiKey, extract_prefix}
use usp_cloud_native.ApiKeys.Secrets.{verify}
use usp_cloud_native.ApiKeys.Repository.{Table, get_by_prefix, is_candidate, lives}
use usp_cloud_native.Access.ApiKeyAuth.{
  Request, next, Outside, extract_api_key, key_claims, matching, with_key, accepted, api_key_auth,
}

-- The first row of those that pass one test and then another, and what it is.
pub first-where_rows {ℓ} :
    {A : Type ℓ} (p q : A → Bool) (xs : List A)
    → first q (where_rows p xs) ≡ first (λ x. p x && q x) xs
first-where_rows p q [] = refl
first-where_rows p q (x ∷ xs) = ground (arith, first-where_rows p q xs)

-- Why a request with the key `raw_key` passes: a row that is not revoked, that has not expired, and
-- that the key verifies against.
pub record IsVerified (o : Outside) (t : Table) (raw_key : Str) (k : ApiKey) : Type 0 where
  pub stored :
      first
        (λ v.
          is_candidate (extract_prefix raw_key) o.queried_at v
          && verify o.hashing raw_key v.key_hash)
        t
      ≡ some k
  pub same_prefix : k.key_prefix ≡ extract_prefix raw_key
  pub unrevoked : k.revoked_at ≡ none
  pub unexpired : lives k.expires_at o.queried_at ≡ true
  pub verified : verify o.hashing raw_key k.key_hash ≡ true

candidate-IsVerified :
    (o : Outside) (t : Table) (raw_key : Str) (k : ApiKey)
    → first
        (λ v.
          is_candidate (extract_prefix raw_key) o.queried_at v
          && verify o.hashing raw_key v.key_hash)
        t
      ≡ some k
    → IsVerified o t raw_key k
candidate-IsVerified o t raw_key k e =
    let holds =
      first-holds
        (λ v.
          is_candidate (extract_prefix raw_key) o.queried_at v
          && verify o.hashing raw_key v.key_hash)
        t k e in
    record {
      stored = e;
      same_prefix = ground (arith, str_eq_iff k.key_prefix (extract_prefix raw_key), holds);
      unrevoked = elim (Option-cases k.revoked_at) [
        | inl n ↦ n
        | inr (at, n) ↦ absurd (ground (arith, n, holds))
      ];
      unexpired = ground (arith, holds);
      verified = ground (arith, holds);
    }

accepted-eq-next :
    (o : Outside) (r r' : Request) (found : Option ApiKey)
    → accepted o r found ≡ next r'
    → (k : ApiKey) × (found ≡ some k) × (r' ≡ record r { claims = some (key_claims k o.now) })
accepted-eq-next o r r' none h = absurd (ground arith)
accepted-eq-next o r r' (some k) h = (k, refl, ground arith)

with_key-eq-next :
    (o : Outside) (t : Table) (r r' : Request) (raw_key : Str)
    → with_key o t r (some raw_key) ≡ next r'
    → (k : ApiKey) × IsVerified o t raw_key k
      × (r' ≡ record r { claims = some (key_claims k o.now) })
unfolding get_by_prefix matching
with_key-eq-next o t r r' raw_key h = elim (Bool-cases (is_empty (extract_prefix raw_key))) [
  | inl e ↦ absurd (ground (arith, (rw e at h)))
  | inr e ↦ elim (Bool-cases o.lookup_lost) [
    | inl l ↦ absurd (ground (arith, (rw (e, l) at h)))
    | inr l ↦
        let here = is_candidate (extract_prefix raw_key) o.queried_at in
        let there = λ (v : ApiKey). verify o.hashing raw_key v.key_hash in
        let (k, found, answer) =
          accepted-eq-next o r r' (first there (where_rows here t)) (rw (e, l) at h) in
        let one : first (λ v. here v && there v) t ≡ some k =
          sym (first-where_rows here there t) ∙ found in
        (k, candidate-IsVerified o t raw_key k one, answer)
  ]
]

-- A request that passes is as it came, where it carries no key, or it has the claims of a row that is
-- neither revoked nor expired and that its key verifies against.
pub api_key_auth-IsVerified :
    (o : Outside) (t : Table) (r r' : Request)
    → api_key_auth o t r ≡ next r'
    → ((extract_api_key r ≡ none) × (r' ≡ r))
      ⊎ ((raw_key : Str) × (k : ApiKey) × (extract_api_key r ≡ some raw_key)
          × IsVerified o t raw_key k
          × (r' ≡ record r { claims = some (key_claims k o.now) }))
unfolding api_key_auth
api_key_auth-IsVerified o t r r' h = elim (Option-cases (extract_api_key r)) [
  | inl n ↦ inl (n, ground (arith, (rw n at h)))
  | inr (raw_key, n) ↦
      let (k, verified, answer) = with_key-eq-next o t r r' raw_key (rw n at h) in
      inr (raw_key, k, n, verified, answer)
]
