-- ===== src/Shorten/Generator.antt =====
-- pkg/shortcode/generator.go. `crypto/rand` is the argument `draw`: the index drawn for a position,
-- or a failure. An index past the alphabet, which `rand.Int` never returns, ends as a failure too.
pub mod Laws
use usp_cloud_native.Prelude.{
  ℕ, zero, suc, ◌+◌, ◌<◌, ◌≤◌, Str, codes, ltb, leb, ◌==◌, Bool, true, false, ◌&&◌, ◌||◌,
  if◌then◌else◌, Option, none, some, List, [], ◌∷◌, ◌++◌, length, get_elem?, all, Result, ok, err,
  ◌>>=◌, arith, ◌≡◌, refl, ap,
}
use usp_cloud_native.Errors.{AppErr, random}

abbrev pub alphabet : Str
alphabet = codes "abcdefghijklmnopqrstuvwxyzABCDEFGHIJKLMNOPQRSTUVWXYZ0123456789"

abbrev pub alphabet_len : ℕ
alphabet_len = 62

-- The constructor panics on a length below 3.
unfoldable pub new : ℕ → Option ℕ
new n = if ltb n 3 then none else some n

abbrev or_random {ℓ} : {A : Type ℓ} → Option A → Result AppErr A
or_random none = err random
or_random (some a) = ok a

-- The loop over the positions; the first is `i`.
generate_from : ℕ → ℕ → (ℕ → Option ℕ) → Result AppErr Str
generate_from zero i draw = ok []
generate_from (suc n) i draw = do
  k ← or_random (draw i)
  c ← or_random (get_elem? alphabet k)
  rest ← generate_from n (i + 1) draw
  ok (c ∷ rest)

unfoldable pub generate : ℕ → (ℕ → Option ℕ) → Result AppErr Str
unfolding generate_from
generate n draw = generate_from n 0 draw
