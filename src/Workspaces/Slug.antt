-- ===== src/Workspaces/Slug.antt =====
-- The slugs of internal/domain/workspace/entity.go. The loop of `GenerateSlug` runs over runes; a
-- rune of several bytes counts there like one other character, and like several in a row here, which
-- makes no difference to a hyphen that is written once.
pub mod Laws
use usp_cloud_native.Prelude.{
  ℕ, ◌+◌, Str, codes, is_empty, leb, ◌==◌, Bool, true, false, not, ◌&&◌, ◌||◌, if◌then◌else◌, [],
  ◌∷◌, ◌++◌,
}

abbrev pub is_lower : ℕ → Bool
is_lower c = leb b'a' c && leb c b'z'

abbrev pub is_upper : ℕ → Bool
is_upper c = leb b'A' c && leb c b'Z'

abbrev pub is_digit : ℕ → Bool
is_digit c = leb b'0' c && leb c b'9'

-- `[a-z0-9]` and `[a-z0-9\-]`
abbrev pub is_edge : ℕ → Bool
is_edge c = is_lower c || is_digit c

abbrev pub is_inner : ℕ → Bool
is_inner c = is_edge c || (c == b'-')

-- `[a-z0-9\-]*[a-z0-9]$`
abbrev pub ends_slug : Str → Bool
ends_slug [] = false
ends_slug (c ∷ []) = is_edge c
ends_slug (c ∷ d ∷ s) = is_inner c && ends_slug (d ∷ s)

-- `^[a-z0-9][a-z0-9\-]*[a-z0-9]$|^[a-z0-9]$`
unfoldable pub matches_slug_pattern : Str → Bool
matches_slug_pattern [] = false
matches_slug_pattern (c ∷ []) = is_edge c
matches_slug_pattern (c ∷ d ∷ s) = is_edge c && ends_slug (d ∷ s)

-- One round of the loop: the slug so far, and whether it ends in a hyphen just written.
abbrev pub add_char : Str × Bool → ℕ → Str × Bool
add_char (slug, prev_hyphen) c =
    if is_lower c
    then (slug ++ c ∷ [], false)
    else if is_upper c
    then (slug ++ (c + 32) ∷ [], false)
    else if is_digit c
    then (slug ++ c ∷ [], false)
    else if not prev_hyphen && not (is_empty slug)
    then (slug ++ b'-' ∷ [], true)
    else (slug, prev_hyphen)

abbrev pub add_chars : Str × Bool → Str → Str × Bool
add_chars acc [] = acc
add_chars acc (c ∷ name) = add_chars (add_char acc c) name

-- `for len(slug) > 0 && slug[len(slug)-1] == '-'`
abbrev pub trim_hyphens : Str → Str
trim_hyphens [] = []
trim_hyphens (c ∷ s) =
    let rest = trim_hyphens s in if (c == b'-') && is_empty rest then [] else c ∷ rest

abbrev or_default : Str → Str
or_default slug = if is_empty slug then codes "workspace" else slug

unfoldable pub generate_slug : Str → Str
generate_slug name = or_default (trim_hyphens (add_chars ([], false) name).0)
