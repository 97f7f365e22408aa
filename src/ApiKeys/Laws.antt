-- ===== src/ApiKeys/Laws.antt =====
-- The format of keys, and what creation, revocation and the scopes guarantee.
use usp_cloud_native.Prelude.{
  ℕ, zero, suc, ◌+◌, ◌≤◌, Str, codes, str_eq, str_eq_iff, has_prefix, length, length-append, take,
  any, all, true, some, List, [], ◌∷◌, ◌++◌, ok, arith, ◌≡◌, ◌↔◌, ◌⊎◌, refl, subst, inl, inr, ap,
}
use usp_cloud_native.Access.Claims as Claims
use usp_cloud_native.Access.ApiKeyAuth.{key_claims}
use usp_cloud_native.Access.Claims.Laws.{HasNoSpace, join, IsAmong, AllPlain, has_scope_iff}
use usp_cloud_native.ApiKeys.Entity.{
  ApiKey, extract_prefix, is_scope, scope_read, scope_write, scope_admin, validate_scopes,
  scope_string, join_words, has_scope,
}
use usp_cloud_native.ApiKeys.Secrets.{hex, generate_raw}

take-append {ℓ} :
    {A : Type ℓ} (xs ys : List A) (n : ℕ) → n ≤ length xs → take n (xs ++ ys) ≡ take n xs
take-append xs ys zero h = refl
take-append [] ys (suc n) h = absurd (omega arith)
take-append (x ∷ xs) ys (suc n) h = ap (λ l. x ∷ l) (take-append xs ys n (omega arith))

length-take {ℓ} : {A : Type ℓ} (xs : List A) (n : ℕ) → n ≤ length xs → length (take n xs) ≡ n
length-take xs zero h = refl
length-take [] (suc n) h = absurd (omega arith)
length-take (x ∷ xs) (suc n) h = ap suc (length-take xs n (omega arith))

take_all {ℓ} : {A : Type ℓ} (xs : List A) (n : ℕ) → length xs ≡ n → take n xs ≡ xs
take_all [] zero h = refl
take_all (x ∷ xs) zero h = absurd (omega arith)
take_all [] (suc n) h = refl
take_all (x ∷ xs) (suc n) h = ap (λ l. x ∷ l) (take_all xs n (omega arith))

length-hex : (bytes : List ℕ) → length (hex bytes) ≡ length bytes + length bytes
length-hex [] = refl
length-hex (b ∷ bytes) = omega (arith, length-hex bytes)

extract_prefix-append :
    (w rest : Str)
    → length w ≡ 8
    → extract_prefix (codes "urlsk_" ++ (w ++ rest)) ≡ codes "urlsk_" ++ w
unfolding extract_prefix has_prefix
extract_prefix-append w rest e =
    let same : take 8 (w ++ rest) ≡ w = rw (take-append w rest 8 (omega arith)) (take_all w 8 e) in
    ground (arith, length-append w rest, same)

-- The keys of a workspace whose id has eight bytes or more all have one prefix, which holds nothing
-- random: the text "urlsk_" and the first eight bytes of the id.
pub extract_prefix-generate_raw :
    (workspace_id : Str) (bytes : List ℕ) (raw_key : Str)
    → 8 ≤ length workspace_id
    → generate_raw workspace_id (some bytes) ≡ some raw_key
    → extract_prefix raw_key ≡ codes "urlsk_" ++ take 8 workspace_id
unfolding generate_raw
extract_prefix-generate_raw workspace_id bytes raw_key long e =
    let w = take 8 workspace_id in
    let key : raw_key ≡ codes "urlsk_" ++ (w ++ hex bytes) = ground arith in
    rw key (extract_prefix-append w (hex bytes) (length-take workspace_id 8 long))

scope_cases :
    (s : Str) → is_scope s ≡ true → (scope_read ≡ s) ⊎ ((scope_write ≡ s) ⊎ (scope_admin ≡ s))
scope_cases s h =
    ground (arith, str_eq_iff scope_read s, str_eq_iff scope_write s, str_eq_iff scope_admin s)

scope-HasNoSpace : (s : Str) → is_scope s ≡ true → HasNoSpace s
scope-HasNoSpace s h = elim (scope_cases s h) [
  | inl e ↦ subst HasNoSpace e (ground arith)
  | inr (inl e) ↦ subst HasNoSpace e (ground arith)
  | inr (inr e) ↦ subst HasNoSpace e (ground arith)
]

scopes-AllPlain :
    (s : Str) (scopes : List Str) → all is_scope (s ∷ scopes) ≡ true → AllPlain s scopes
scopes-AllPlain s [] h = scope-HasNoSpace s (ground arith)
scopes-AllPlain s (next ∷ scopes) h =
    (scope-HasNoSpace s (ground arith), scopes-AllPlain next scopes (ground arith))

join_words-eq-join : (s : Str) (scopes : List Str) → join_words (s ∷ scopes) ≡ join s scopes
join_words-eq-join s [] = refl
join_words-eq-join s (next ∷ scopes) = ap (λ t. s ++ b' ' ∷ t) (join_words-eq-join next scopes)

any-IsAmong_iff :
    (scope s : Str) (scopes : List Str)
    → IsAmong scope s scopes ↔ (any (λ x. str_eq x scope) (s ∷ scopes) ≡ true)
any-IsAmong_iff scope s [] = ground (arith, str_eq_iff s scope)
any-IsAmong_iff scope s (next ∷ scopes) =
    ground (arith, str_eq_iff s scope, any-IsAmong_iff scope next scopes)

-- The claims that a key with valid scopes authenticates have exactly the scopes of the key, although
-- they carry them as one text that is cut at its spaces.
pub has_scope-key_claims :
    (k : ApiKey) (now : ℕ) (scope : Str)
    → validate_scopes k.scopes ≡ ok tt
    → (Claims.has_scope (some (key_claims k now)) scope ≡ true) ↔ (has_scope k scope ≡ true)
unfolding validate_scopes has_scope key_claims scope_string
has_scope-key_claims k now scope h = by_scopes k.scopes refl
  where
    by_scopes :
        (scopes : List Str)
        → k.scopes ≡ scopes
        → (Claims.has_scope (some (key_claims k now)) scope ≡ true)
          ↔ (any (λ x. str_eq x scope) k.scopes ≡ true)
    by_scopes [] e = absurd (ground arith)
    by_scopes (s ∷ scopes) e =
        let valid : all is_scope (s ∷ scopes) ≡ true = ground arith in
        let words =
          has_scope_iff (key_claims k now) s scopes scope (rw e (join_words-eq-join s scopes))
            (scopes-AllPlain s scopes valid) in
        let items = any-IsAmong_iff scope s scopes in
        (λ h'. rw e (items.0 (words.0 h')), λ h'. words.1 (items.1 (rw e at h')))
