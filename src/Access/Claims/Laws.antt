-- ===== src/Access/Claims/Laws.antt =====
-- When a caller has a scope.
use usp_cloud_native.Prelude.{
  ℕ, Str, str_eq, str_eq_iff, true, false, some, List, [], ◌∷◌, ◌++◌, arith, ◌≡◌, ◌≢◌, ◌↔◌, ◌⊎◌,
  ◌||◌, append_nil, append_assoc, ◌==◌,
}
use usp_cloud_native.Access.Claims.{Claims, scan, has_scope}

abbrev pub HasNoSpace : Str → Type 0
HasNoSpace [] = Unit
HasNoSpace (c ∷ s) = (c ≢ b' ') × HasNoSpace s

-- The text of a list of words: each word but the last is followed by a space.
abbrev pub join : Str → List Str → Str
join word [] = word
join word (next ∷ words) = word ++ b' ' ∷ join next words

-- Among the words.
abbrev pub IsAmong : Str → Str → List Str → Type 0
IsAmong scope word [] = word ≡ scope
IsAmong scope word (next ∷ words) = (word ≡ scope) ⊎ IsAmong scope next words

abbrev pub AllPlain : Str → List Str → Type 0
AllPlain word [] = HasNoSpace word
AllPlain word (next ∷ words) = HasNoSpace word × AllPlain next words

eq_false : (c : ℕ) → c ≢ b' ' → (c == b' ') ≡ false
eq_false c h = ground arith

-- Without a space, the text up to the end is one word.
scan_end :
    (seen word scope : Str) → HasNoSpace word → scan seen word scope ≡ str_eq (seen ++ word) scope
unfolding scan
scan_end seen [] scope h = rw (append_nil seen)
scan_end seen (c ∷ word) scope h =
    rw (eq_false c h.0, scan_end (seen ++ c ∷ []) word scope h.1, append_assoc seen (c ∷ []) word)

-- Up to a space, the text is one word.
scan_space :
    (seen word rest scope : Str)
    → HasNoSpace word
    → scan seen (word ++ b' ' ∷ rest) scope ≡ (str_eq (seen ++ word) scope || scan [] rest scope)
unfolding scan
scan_space seen [] rest scope h = rw (append_nil seen)
scan_space seen (c ∷ word) rest scope h = rw (
  eq_false c h.0,
  scan_space (seen ++ c ∷ []) word rest scope h.1,
  append_assoc seen (c ∷ []) word,
)

scan-join :
    (word : Str) (words : List Str) (scope : Str)
    → AllPlain word words
    → (scan [] (join word words) scope ≡ true) ↔ IsAmong scope word words
scan-join word [] scope h = rw (scan_end [] word scope h) (str_eq_iff word scope)
scan-join word (next ∷ words) scope h =
    rw (scan_space [] word (join next words) scope h.0)
      (ground (arith, str_eq_iff word scope, scan-join next words scope h.1))

-- The text of a list of words, none with a space, has a scope exactly if the scope is one of them.
pub has_scope_iff :
    (c : Claims) (word : Str) (words : List Str) (scope : Str)
    → c.scope ≡ join word words
    → AllPlain word words
    → (has_scope (some c) scope ≡ true) ↔ IsAmong scope word words
unfolding has_scope
has_scope_iff c word words scope e h = rw e (scan-join word words scope h)
