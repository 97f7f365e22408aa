-- ===== src/Prelude/Strings.antt =====
-- More of Go's package `strings`, on texts of bytes. White space is that of ASCII.
use Prim.Native.Nat.{ℕ, ◌+◌}
use mathlib.Core.Bool.{Bool, ◌&&◌, ◌||◌}
use mathlib.Core.List.{List, [], ◌∷◌, ◌++◌}
use mathlib.Core.Option.{Option, none, some}
use usp_cloud_native.Prelude.Tests.{leb, ◌==◌, if◌then◌else◌}
use usp_cloud_native.Prelude.Lists.{drop, length}
use usp_cloud_native.Prelude.Text.{Str, has_prefix, str_eq, to_lower, is_empty}

-- `strings.Cut(s, sep)` for a separator of one byte: `none` where it is not found.
abbrev before : ℕ → Option (Str × Str) → Option (Str × Str)
before c none = none
before c (some (s, t)) = some (c ∷ s, t)

unfoldable pub cut : ℕ → Str → Option (Str × Str)
cut sep [] = none
cut sep (c ∷ s) = let rest = before c (cut sep s) in if c == sep then some ([], s) else rest

-- `strings.Split(s, sep)` for a separator of one byte: `word` is the part so far.
abbrev pub split_at : ℕ → Str → Str → List Str
split_at sep word [] = word ∷ []
split_at sep word (c ∷ s) =
    let closed = word ∷ split_at sep [] s in
    let longer = split_at sep (word ++ c ∷ []) s in if c == sep then closed else longer

unfoldable pub split : ℕ → Str → List Str
split sep s = split_at sep [] s

-- `strings.Contains`
unfoldable pub contains : Str → Str → Bool
unfolding has_prefix
contains [] part = has_prefix [] part
contains (c ∷ s) part = let rest = contains s part in has_prefix (c ∷ s) part || rest

-- `strings.Count` for one byte.
unfoldable pub count_byte : ℕ → Str → ℕ
count_byte b [] = 0
count_byte b (c ∷ s) = (if c == b then 1 else 0) + count_byte b s

abbrev pub is_space : ℕ → Bool
is_space c = c == b' ' || (leb 9 c && leb c 13)

abbrev pub trim_left : (ℕ → Bool) → Str → Str
trim_left p [] = []
trim_left p (c ∷ s) = let rest = trim_left p s in if p c then rest else c ∷ s

abbrev pub trim_right : (ℕ → Bool) → Str → Str
trim_right p [] = []
trim_right p (c ∷ s) = let rest = trim_right p s in if p c && is_empty rest then [] else c ∷ rest

-- `strings.TrimSpace`, and `strings.Trim` for a set of bytes.
unfoldable pub trim : (ℕ → Bool) → Str → Str
trim p s = trim_left p (trim_right p s)

unfoldable pub trim_space : Str → Str
unfolding trim
trim_space s = trim is_space s

-- `strings.TrimPrefix`
unfoldable pub trim_prefix : Str → Str → Str
unfolding has_prefix
trim_prefix s prefix = if has_prefix s prefix then drop (length prefix) s else s

-- `strings.EqualFold`, on ASCII text.
unfoldable pub equal_fold : Str → Str → Bool
unfolding to_lower str_eq
equal_fold s t = str_eq (to_lower s) (to_lower t)
