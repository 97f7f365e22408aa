-- ===== src/Shorten/Generator/Laws.antt =====
-- The codes that the generator makes: their shape, and that every one of them can come.
use usp_cloud_native.Prelude.{
  ℕ, zero, suc, ◌+◌, ◌<◌, Str, Bool, true, Option, none, some, List, [], ◌∷◌, all, length,
  get_elem?, ok, err, >>=-eq-ok, >>=-eq-err, arith, inl, inr, ◌≡◌, refl, sym, ap, ◌∙◌, ltb,
  if◌then◌else◌,
}
use usp_cloud_native.Errors.{AppErr, random}
use usp_cloud_native.Shorten.Validation.{is_alphanumeric_or_safe}
use usp_cloud_native.Shorten.Generator.{alphabet, alphabet_len, or_random, generate, generate_from}

-- Every byte may stand in a custom code.
abbrev pub IsSafe : Str → Type 0
IsSafe code = all is_alphanumeric_or_safe code ≡ true

get_elem?-all :
    (p : ℕ → Bool) (s : Str) (k : ℕ) (c : ℕ) → all p s ≡ true → get_elem? s k ≡ some c → p c ≡ true
get_elem?-all p [] k c h e = absurd (ground arith)
get_elem?-all p (a ∷ s) zero c h e = ground arith
get_elem?-all p (a ∷ s) (suc k) c h e = get_elem?-all p s k c (ground arith) e

alphabet-IsSafe : IsSafe alphabet
unfolding is_alphanumeric_or_safe
alphabet-IsSafe = refl

or_random-eq-ok {ℓ} : {A : Type ℓ} (o : Option A) {a : A} → or_random o ≡ ok a → o ≡ some a
or_random-eq-ok none h = absurd (ground arith)
or_random-eq-ok (some b) h = ground arith

generate_from-eq-ok :
    (n i : ℕ) (draw : ℕ → Option ℕ) (code : Str)
    → generate_from n i draw ≡ ok code
    → (length code ≡ n) × IsSafe code
unfolding generate_from
generate_from-eq-ok zero i draw code h = ground arith
generate_from-eq-ok (suc n) i draw code h =
    let (k, drawn, h₁) = >>=-eq-ok (or_random (draw i)) _ h in
    let (c, looked, h₂) = >>=-eq-ok (or_random (get_elem? alphabet k)) _ h₁ in
    let (rest, later, h₃) = >>=-eq-ok (generate_from n (i + 1) draw) _ h₂ in
    let (long, safe) = generate_from-eq-ok n (i + 1) draw rest later in
    let here =
      get_elem?-all is_alphanumeric_or_safe alphabet k c alphabet-IsSafe
        (or_random-eq-ok (get_elem? alphabet k) looked) in
    (ground arith, ground arith)

-- A generated code has the length asked for, and only letters and digits that a custom code may
-- have.
pub generate-eq-ok :
    (n : ℕ) (draw : ℕ → Option ℕ) (code : Str)
    → generate n draw ≡ ok code
    → (length code ≡ n) × IsSafe code
unfolding generate
generate-eq-ok n draw code h = generate_from-eq-ok n 0 draw code h

get_elem?-below :
    {A : Type 0} (s : List A) (k : ℕ) → k < length s → (c : A) × (get_elem? s k ≡ some c)
get_elem?-below [] k h = absurd (omega arith)
get_elem?-below (a ∷ s) zero h = (a, refl)
get_elem?-below (a ∷ s) (suc k) h = get_elem?-below s k (omega arith)

-- The letter that a draw picks.
abbrev pub letter : Option ℕ → Option ℕ
letter none = none
letter (some k) = get_elem? alphabet k

spelling :
    (n i : ℕ) (draw : ℕ → Option ℕ) (c : ℕ) (rest : Str)
    → some c ≡ letter (draw i)
    → ((j : ℕ) → get_elem? rest j ≡ (if ltb j n then letter (draw (i + 1 + j)) else none))
    → (j : ℕ) → get_elem? (c ∷ rest) j ≡ (if ltb j (suc n) then letter (draw (i + j)) else none)
spelling n i draw c rest here spelled zero =
    let same : i ≡ i + 0 = omega arith in here ∙ ap (λ (m : ℕ). letter (draw m)) same ∙ ground arith
spelling n i draw c rest here spelled (suc j) =
    let shifted : i + 1 + j ≡ i + suc j = omega arith in
    spelled j ∙ ap (λ (m : ℕ). if ltb j n then letter (draw m) else none) shifted ∙ ground arith

generate_from_total :
    (n i : ℕ) (draw : ℕ → Option ℕ)
    → ((j : ℕ) → (k : ℕ) × (draw j ≡ some k) × (k < alphabet_len))
    → (code : Str) × (generate_from n i draw ≡ ok code)
      × (length code ≡ n)
      × ((j : ℕ) → get_elem? code j ≡ (if ltb j n then letter (draw (i + j)) else none))
unfolding generate_from
generate_from_total zero i draw h = ([], refl, refl, λ j. ground arith)
generate_from_total (suc n) i draw h =
    let (k, drawn, small) = h i in
    let (c, looked) = get_elem?-below alphabet k small in
    let (rest, later, long, spelled) = generate_from_total n (i + 1) draw h in
    let here : some c ≡ letter (draw i) = rw drawn (sym looked) in
    (
      c ∷ rest,
      rw (drawn, looked, later) refl,
      ap suc long,
      λ j. spelling n i draw c rest here spelled j,
    )

-- With a random source that answers below the length of the alphabet the generator returns a code of the
-- length asked for, whose letter at each position is the one of the alphabet that was drawn for it.
pub generate_total :
    (n : ℕ) (draw : ℕ → Option ℕ)
    → ((j : ℕ) → (k : ℕ) × (draw j ≡ some k) × (k < alphabet_len))
    → (code : Str) × (generate n draw ≡ ok code)
      × (length code ≡ n)
      × ((j : ℕ) → get_elem? code j ≡ (if ltb j n then letter (draw j) else none))
unfolding generate
generate_total n draw h =
    let (code, made, long, spelled) = generate_from_total n 0 draw h in
    (
      code,
      made,
      long,
      λ j.
          let same : 0 + j ≡ j = omega arith in
          spelled j ∙ ap (λ (m : ℕ). if ltb j n then letter (draw m) else none) same,
    )

or_random-eq-err {ℓ} : {A : Type ℓ} (o : Option A) {e : AppErr} → or_random o ≡ err e → e ≡ random
or_random-eq-err none h = ground arith
or_random-eq-err (some b) h = absurd (ground arith)

generate_from-eq-err :
    (n i : ℕ) (draw : ℕ → Option ℕ) (e : AppErr) → generate_from n i draw ≡ err e → e ≡ random
unfolding generate_from
generate_from-eq-err zero i draw e h = absurd (ground arith)
generate_from-eq-err (suc n) i draw e h = elim (>>=-eq-err (or_random (draw i)) _ h) [
  | inl e₁ ↦ or_random-eq-err (draw i) e₁
  | inr (k, _, h₁) ↦ elim (>>=-eq-err (or_random (get_elem? alphabet k)) _ h₁) [
    | inl e₂ ↦ or_random-eq-err (get_elem? alphabet k) e₂
    | inr (c, _, h₂) ↦ elim (>>=-eq-err (generate_from n (i + 1) draw) _ h₂) [
      | inl e₃ ↦ generate_from-eq-err n (i + 1) draw e e₃
      | inr (rest, _, h₃) ↦ absurd (ground arith)
    ]
  ]
]

-- A generator that fails reports the random source.
pub generate-eq-err :
    (n : ℕ) (draw : ℕ → Option ℕ) (e : AppErr) → generate n draw ≡ err e → e ≡ random
unfolding generate
generate-eq-err n draw e h = generate_from-eq-err n 0 draw e h
