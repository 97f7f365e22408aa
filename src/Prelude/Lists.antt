-- ===== src/Prelude/Lists.antt =====
-- Lists measured and indexed by native numbers, under the library's names.
use Prim.Native.Nat.{ℕ, zero, suc, ◌+◌}
use mathlib.Core.Path.{◌≡◌, refl, ap}
use mathlib.Core.Logic.{◌↔◌, ◌≢◌}
use mathlib.Core.Bool.{Bool, true, false, ◌&&◌, ◌||◌}
use mathlib.Core.List.{List, [], ◌∷◌, ◌++◌}
use mathlib.Core.Option.{Option, none, some}
use native.Mathlib.Omega.{arith}
use usp_cloud_native.Prelude.Tests.{if◌then◌else◌}

module _ {ℓ} {A : Type ℓ} where
  abbrev pub length : List A → ℕ
  length [] = 0
  length (x ∷ xs) = suc (length xs)

  abbrev pub get_elem? : List A → ℕ → Option A
  get_elem? [] i = none
  get_elem? (x ∷ xs) zero = some x
  get_elem? (x ∷ xs) (suc i) = get_elem? xs i

  abbrev pub take : ℕ → List A → List A
  take zero xs = []
  take (suc n) [] = []
  take (suc n) (x ∷ xs) = x ∷ take n xs

  abbrev pub drop : ℕ → List A → List A
  drop zero xs = xs
  drop (suc n) [] = []
  drop (suc n) (x ∷ xs) = drop n xs

  -- The tests of a loop over a slice; the library's cannot be computed with.
  abbrev pub any : (A → Bool) → List A → Bool
  any p [] = false
  any p (x ∷ xs) = p x || any p xs

  abbrev pub all : (A → Bool) → List A → Bool
  all p [] = true
  all p (x ∷ xs) = p x && all p xs

  -- The rows that a `WHERE` clause keeps, and the first of them.
  abbrev pub where_rows : (A → Bool) → List A → List A
  where_rows p [] = []
  where_rows p (x ∷ xs) = let rest = where_rows p xs in if p x then x ∷ rest else rest

  abbrev pub first : (A → Bool) → List A → Option A
  first p [] = none
  first p (x ∷ xs) = if p x then some x else first p xs

  -- `UPDATE … SET … WHERE …`, and the number of rows that it reports.
  abbrev pub update_rows : (A → Bool) → (A → A) → List A → List A
  update_rows p f [] = []
  update_rows p f (x ∷ xs) = (if p x then f x else x) ∷ update_rows p f xs

  abbrev pub count_rows : (A → Bool) → List A → ℕ
  count_rows p [] = 0
  count_rows p (x ∷ xs) = (if p x then 1 else 0) + count_rows p xs

module _ {ℓ} {A : Type ℓ} where
  pub length-append : (xs ys : List A) → length (xs ++ ys) ≡ length xs + length ys
  length-append [] ys = omega arith
  length-append (x ∷ xs) ys = omega (arith, length-append xs ys)

  pub length-update_rows :
      (p : A → Bool) (f : A → A) (xs : List A) → length (update_rows p f xs) ≡ length xs
  length-update_rows p f [] = refl
  length-update_rows p f (x ∷ xs) = ap suc (length-update_rows p f xs)

  pub any-append : (p : A → Bool) (xs ys : List A) → any p (xs ++ ys) ≡ (any p xs || any p ys)
  any-append p [] ys = refl
  any-append p (x ∷ xs) ys = ground (arith, any-append p xs ys)

  pub first-append_of_none :
      (p : A → Bool) (xs ys : List A) → any p xs ≡ false → first p (xs ++ ys) ≡ first p ys
  first-append_of_none p [] ys h = refl
  first-append_of_none p (x ∷ xs) ys h = ground (arith, first-append_of_none p xs ys)

  pub first-append_of_some :
      (p : A → Bool) (xs ys : List A) (a : A) → first p xs ≡ some a → first p (xs ++ ys) ≡ some a
  first-append_of_some p [] ys a h = ground arith
  first-append_of_some p (x ∷ xs) ys a h = ground (arith, first-append_of_some p xs ys a)

  pub first-eq-none_iff : (p : A → Bool) (xs : List A) → (first p xs ≡ none) ↔ (any p xs ≡ false)
  first-eq-none_iff p [] = ground arith
  first-eq-none_iff p (x ∷ xs) = ground (arith, first-eq-none_iff p xs)

  pub first-holds : (p : A → Bool) (xs : List A) (a : A) → first p xs ≡ some a → p a ≡ true
  first-holds p [] a h = ground arith
  first-holds p (x ∷ xs) a h = ground (arith, first-holds p xs a)

-- What holds of every item.
module _ {ℓ κ} {A : Type ℓ} (P : A → Type κ) where
  abbrev pub All : List A → Type κ
  All [] = Unit
  All (x ∷ xs) = P x × All xs

  pub All-append : (xs ys : List A) → All xs → All ys → All (xs ++ ys)
  All-append [] ys h k = k
  All-append (x ∷ xs) ys (p, h) k = (p, All-append xs ys h k)

  pub All-first : (p : A → Bool) (xs : List A) (a : A) → All xs → first p xs ≡ some a → P a
  All-first p [] a h e = absurd (ground arith)
  All-first p (x ∷ xs) a (q, h) e = ground (arith, All-first p xs a h)

abbrev pub map_if {ℓ} : {A : Type ℓ} → (A → Bool) → (A → A) → Option A → Option A
map_if p f none = none
map_if p f (some a) = some (if p a then f a else a)

-- A lookup by what an update does not write finds the updated row.
pub first-update_rows {ℓ} :
    {A : Type ℓ} (q p : A → Bool) (f : A → A)
    → ((a : A) → q (f a) ≡ q a)
    → (xs : List A) → first q (update_rows p f xs) ≡ map_if p f (first q xs)
first-update_rows q p f same [] = refl
first-update_rows q p f same (x ∷ xs) = ground (arith, same x, first-update_rows q p f same xs)

pub first-any-false {ℓ} :
    {A : Type ℓ} (q r : A → Bool) (xs : List A) (a : A)
    → first q xs ≡ some a
    → any r xs ≡ false
    → r a ≡ false
first-any-false q r [] a e h = absurd (ground arith)
first-any-false q r (x ∷ xs) a e h = ground (arith, first-any-false q r xs a)

pub first-of-count_rows {ℓ} :
    {A : Type ℓ} (p q : A → Bool)
    → ((a : A) → p a ≡ true → q a ≡ true)
    → (xs : List A) → count_rows p xs ≢ 0
    → first q xs ≢ none
first-of-count_rows p q sub [] h = ground arith
first-of-count_rows p q sub (x ∷ xs) h = ground (arith, sub x, first-of-count_rows p q sub xs)

module _ {ℓ} {A : Type ℓ} where
  pub count_rows-of-any-false :
      (p : A → Bool) (xs : List A) → any p xs ≡ false → count_rows p xs ≡ 0
  count_rows-of-any-false p [] h = refl
  count_rows-of-any-false p (x ∷ xs) h = ground (arith, count_rows-of-any-false p xs)

  pub any-of-any-false :
      (p q : A → Bool) (xs : List A) → any p xs ≡ false → any (λ x. p x && q x) xs ≡ false
  any-of-any-false p q [] h = refl
  any-of-any-false p q (x ∷ xs) h = ground (arith, any-of-any-false p q xs)

module _ {ℓ} {A : Type ℓ} where
  pub append_nil : (xs : List A) → xs ++ [] ≡ xs
  append_nil [] = refl
  append_nil (x ∷ xs) = ap (λ l. x ∷ l) (append_nil xs)

  pub append_assoc : (xs ys zs : List A) → (xs ++ ys) ++ zs ≡ xs ++ (ys ++ zs)
  append_assoc [] ys zs = refl
  append_assoc (x ∷ xs) ys zs = ap (λ l. x ∷ l) (append_assoc xs ys zs)

pub count_rows-append {ℓ} :
    {A : Type ℓ} (p : A → Bool) (xs ys : List A)
    → count_rows p (xs ++ ys) ≡ count_rows p xs + count_rows p ys
count_rows-append p [] ys = omega arith
count_rows-append p (x ∷ xs) ys = omega (arith, count_rows-append p xs ys)
