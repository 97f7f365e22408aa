-- ===== src/Workspaces/Slug/Laws.antt =====
-- A generated slug is a slug.
use usp_cloud_native.Prelude.{
  ℕ, ◌+◌, Str, codes, is_empty, ◌==◌, Bool, true, false, not, ◌&&◌, ◌||◌, if◌then◌else◌, [], ◌∷◌,
  ◌++◌, All, All-append, arith, ◌≡◌, refl, Bool-cases, inl, inr,
}
use usp_cloud_native.Workspaces.Slug.{
  is_lower, is_upper, is_digit, is_edge, is_inner, ends_slug, matches_slug_pattern, add_char,
  add_chars, trim_hyphens, generate_slug,
}

-- The slug so far is empty or begins with a letter or digit, and has no other characters than a slug.
abbrev IsStarted : Str → Type 0
IsStarted [] = Unit
IsStarted (c ∷ s) = (is_edge c ≡ true) × All (λ d. is_inner d ≡ true) s

IsStarted-snoc :
    (slug : Str) (c : ℕ)
    → IsStarted slug
    → is_inner c ≡ true
    → (is_empty slug ≡ true → is_edge c ≡ true)
    → IsStarted (slug ++ c ∷ [])
IsStarted-snoc [] c h i first = (first refl, tt)
IsStarted-snoc (d ∷ s) c (e, h) i first =
    (e, All-append (λ x. is_inner x ≡ true) s (c ∷ []) h (i, tt))

add_hyphen-IsStarted :
    (slug : Str) (prev : Bool)
    → IsStarted slug
    → IsStarted
        (if◌then◌else◌ {A = Str × Bool}
          (not prev && not (is_empty slug))
          (slug ++ b'-' ∷ [], true)
          (slug, prev)).0
add_hyphen-IsStarted [] true h = h
add_hyphen-IsStarted [] false h = h
add_hyphen-IsStarted (c ∷ s) true h = h
add_hyphen-IsStarted (c ∷ s) false h =
    IsStarted-snoc (c ∷ s) (b'-') h refl (λ e. absurd (ground arith))

add_char-IsStarted :
    (slug : Str) (prev : Bool) (c : ℕ) → IsStarted slug → IsStarted (add_char (slug, prev) c).0
add_char-IsStarted slug prev c h = elim (Bool-cases (is_lower c)) [
  | inl e ↦ rw e (IsStarted-snoc slug c h (ground arith) (λ _. ground arith))
  | inr l ↦ elim (Bool-cases (is_upper c)) [
    | inl e ↦ rw (l, e) (IsStarted-snoc slug (c + 32) h (ground arith) (λ _. ground arith))
    | inr u ↦ elim (Bool-cases (is_digit c)) [
      | inl e ↦ rw (l, u, e) (IsStarted-snoc slug c h (ground arith) (λ _. ground arith))
      | inr d ↦ rw (l, u, d) (add_hyphen-IsStarted slug prev h)
    ]
  ]
]

add_chars-IsStarted :
    (slug : Str) (prev : Bool) (name : Str)
    → IsStarted slug
    → IsStarted (add_chars (slug, prev) name).0
add_chars-IsStarted slug prev [] h = h
add_chars-IsStarted slug prev (c ∷ name) h =
    let (slug', prev') = add_char (slug, prev) c in
    add_chars-IsStarted slug' prev' name (add_char-IsStarted slug prev c h)

-- A character in front of a trimmed text.
trimmed_cons :
    (c : ℕ) (rest : Str)
    → is_inner c ≡ true
    → (is_empty rest || ends_slug rest) ≡ true
    → let t = if (c == b'-') && is_empty rest then [] else c ∷ rest in
      (is_empty t || ends_slug t) ≡ true
trimmed_cons c [] i h = ground arith
trimmed_cons c (d ∷ rest) i h = ground arith

-- The same for a letter or digit.
trimmed_first :
    (c : ℕ) (rest : Str)
    → is_edge c ≡ true
    → (is_empty rest || ends_slug rest) ≡ true
    → let t = if (c == b'-') && is_empty rest then [] else c ∷ rest in
      (is_empty t || matches_slug_pattern t) ≡ true
unfolding matches_slug_pattern
trimmed_first c [] i h = ground arith
trimmed_first c (d ∷ rest) i h = ground arith

or_default-matches :
    (s : Str)
    → (is_empty s || matches_slug_pattern s) ≡ true
    → matches_slug_pattern (if is_empty s then codes "workspace" else s) ≡ true
unfolding matches_slug_pattern
or_default-matches [] h = refl
or_default-matches (c ∷ s) h = h

trim_hyphens-ends_slug :
    (s : Str)
    → All (λ d. is_inner d ≡ true) s
    → (is_empty (trim_hyphens s) || ends_slug (trim_hyphens s)) ≡ true
trim_hyphens-ends_slug [] h = refl
trim_hyphens-ends_slug (c ∷ s) (i, h) =
    trimmed_cons c (trim_hyphens s) i (trim_hyphens-ends_slug s h)

trim_hyphens-matches :
    (slug : Str)
    → IsStarted slug
    → (is_empty (trim_hyphens slug) || matches_slug_pattern (trim_hyphens slug)) ≡ true
unfolding matches_slug_pattern
trim_hyphens-matches [] h = refl
trim_hyphens-matches (c ∷ s) (e, h) =
    trimmed_first c (trim_hyphens s) e (trim_hyphens-ends_slug s h)

-- Whatever the name, the slug made from it matches the pattern that a workspace's slug must match.
pub generate_slug-matches : (name : Str) → matches_slug_pattern (generate_slug name) ≡ true
unfolding generate_slug matches_slug_pattern
generate_slug-matches name =
    let slug = (add_chars ([], false) name).0 in
    or_default-matches (trim_hyphens slug)
      (trim_hyphens-matches slug (add_chars-IsStarted [] false name tt))
