-- ===== src/ApiKeys/Secrets.antt =====
-- pkg/keyutil/hash.go. The random bytes, SHA-256 and bcrypt are arguments; `encoding/hex` is written
-- out.
use usp_cloud_native.Prelude.{
  ℕ, ◌+◌, ◌/◌, ◌%◌, Str, codes, take, ltb, Bool, true, ◌≡◌, if◌then◌else◌, Option, none, some, List,
  [], ◌∷◌, ◌++◌,
}

abbrev pub hex_digit : ℕ → ℕ
hex_digit n = if ltb n 10 then b'0' + n else 87 + n

-- `hex.EncodeToString`
abbrev pub hex : List ℕ → Str
hex [] = []
hex (b ∷ bytes) = hex_digit (b / 16) ∷ hex_digit (b % 16) ∷ hex bytes

-- `rand.Read` of 32 bytes, which may fail.
unfoldable pub generate_raw : Str → Option (List ℕ) → Option Str
generate_raw workspace_id none = none
generate_raw workspace_id (some bytes) = some (codes "urlsk_" ++ (take 8 workspace_id ++ hex bytes))

-- SHA-256, and bcrypt with the cost of the program: the hash of a password under a fresh salt, or
-- none, and the comparison.
pub record Hashing : Type 0 where
  pub sha256 : Str → List ℕ
  pub bcrypt_generate : Str → Option Str
  pub bcrypt_matches : Str → Str → Bool

-- What bcrypt promises: the comparison accepts the password that was hashed.
abbrev pub Accepts : Hashing → Type 0
Accepts h =
    (password hash : Str)
    → h.bcrypt_generate password ≡ some hash
    → h.bcrypt_matches hash password ≡ true

unfoldable pub hash : Hashing → Str → Option Str
hash h raw_key = h.bcrypt_generate (hex (h.sha256 raw_key))

unfoldable pub verify : Hashing → Str → Str → Bool
verify h raw_key stored_hash = h.bcrypt_matches stored_hash (hex (h.sha256 raw_key))
