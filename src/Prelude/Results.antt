-- ===== src/Prelude/Results.antt =====
-- Go's pair of a value and an `error`, of which exactly one is set.
use mathlib.Core.Path.{◌≡◌, refl}
use mathlib.Core.Logic.{◌⊎◌, inl, inr}
use mathlib.Core.Bool.{Bool, true, false}

pub data Result {ℓ} (E : Type 0) (A : Type ℓ) : Type ℓ where
  ok : A → Result E A
  err : E → Result E A

-- `if bad { return e }`
abbrev pub reject_if : {E : Type 0} → Bool → E → Result E (Unit {0})
reject_if bad e = elim bad [ true ↦ err e | false ↦ ok tt ]

module _ {ℓ} {E : Type 0} {A : Type ℓ} where
  pub Result-cases : (r : Result E A) → ((a : A) × (r ≡ ok a)) ⊎ ((e : E) × (r ≡ err e))
  Result-cases (err e) = inr (e, refl)
  Result-cases (ok a) = inl (a, refl)

-- The statements after `if err != nil { return err }`.
module _ {ℓ κ} {E : Type 0} {A : Type ℓ} {B : Type κ} where
  infixl 5 ◌>>=◌
  abbrev pub ◌>>=◌ : Result E A → (A → Result E B) → Result E B
  err failure >>= next = err failure
  ok value >>= next = next value

  -- Inversion of a chain: of its success, and of its failure.
  pub >>=-eq-ok :
      (head : Result E A) (next : A → Result E B) {last : B}
      → (head >>= next) ≡ ok last
      → (value : A) × (head ≡ ok value) × (next value ≡ ok last)
  >>=-eq-ok (err failure) next chain = cc
  >>=-eq-ok (ok value) next chain = (value, refl, chain)

  pub >>=-eq-err :
      (head : Result E A) (next : A → Result E B) {last : E}
      → (head >>= next) ≡ err last
      → (head ≡ err last) ⊎ ((value : A) × (head ≡ ok value) × (next value ≡ err last))
  >>=-eq-err (err failure) next chain = inl (cc)
  >>=-eq-err (ok value) next chain = inr (value, refl, chain)

infixl 5 ◌>>◌
abbrev pub ◌>>◌ {ℓ} : {E : Type 0} {B : Type ℓ} → Result E (Unit {0}) → Result E B → Result E B
head >> next = head >>= (λ done. next)
