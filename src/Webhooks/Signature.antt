-- ===== src/Webhooks/Signature.antt =====
-- pkg/webhooksig/signer.go. HMAC-SHA256 and the random bytes are arguments; the decoder of
-- `encoding/hex` is written out.
pub mod Laws
use usp_cloud_native.Prelude.{
  ℕ, ◌+◌, ◌-◌, ◌*◌, Str, codes, str_eq, has_prefix, trim_prefix, leb, Bool, true, false, not, ◌&&◌,
  if◌then◌else◌, Option, none, some, List, [], ◌∷◌, ◌++◌,
}
use usp_cloud_native.ApiKeys.Secrets.{hex}

-- The mac of a payload under a secret, as bytes.
abbrev pub Hmac : Type 0
Hmac = Str → Str → List ℕ

abbrev pub signature_prefix : Str
signature_prefix = codes "sha256="

unfoldable pub sign : Hmac → (secret payload : Str) → Str
sign mac secret payload = signature_prefix ++ hex (mac secret payload)

-- The value of a digit, in either case.
abbrev pub hex_value : ℕ → Option ℕ
hex_value c =
    if leb b'0' c && leb c b'9'
    then some (c - b'0')
    else if leb b'a' c && leb c b'f'
    then some (c - 87)
    else if leb b'A' c && leb c b'F'
    then some (c - 55)
    else none

abbrev pub pair_value : Option ℕ → Option ℕ → Option ℕ
pair_value none low = none
pair_value (some high) none = none
pair_value (some high) (some low) = some (high * 16 + low)

abbrev pub and_then : Option ℕ → Option (List ℕ) → Option (List ℕ)
and_then none bytes = none
and_then (some b) none = none
and_then (some b) (some bytes) = some (b ∷ bytes)

-- `hex.DecodeString`, which takes pairs of digits.
abbrev pub decode_hex : Str → Option (List ℕ)
decode_hex [] = some []
decode_hex (c ∷ []) = none
decode_hex (c ∷ d ∷ s) = and_then (pair_value (hex_value c) (hex_value d)) (decode_hex s)

-- `subtle.ConstantTimeCompare`; bytes are compared like texts.
abbrev pub same_bytes : List ℕ → Option (List ℕ) → Bool
same_bytes expected none = false
same_bytes expected (some provided) = str_eq expected provided

unfoldable pub verify : Hmac → (secret payload signature : Str) → Bool
unfolding has_prefix trim_prefix
verify mac secret payload signature =
    if not (has_prefix signature signature_prefix)
    then false
    else same_bytes (mac secret payload) (decode_hex (trim_prefix signature signature_prefix))

-- `rand.Read` of 32 bytes, which may fail.
unfoldable pub generate_secret : Option (List ℕ) → Option Str
generate_secret none = none
generate_secret (some bytes) = some (hex bytes)
