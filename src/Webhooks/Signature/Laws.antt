-- ===== src/Webhooks/Signature/Laws.antt =====
-- Which signatures are accepted.
use usp_cloud_native.Prelude.{
  ℕ, ◌/◌, ◌%◌, ◌<◌, Str, str_eq_iff, str_eq_refl, has_prefix, trim_prefix, true, Option, none, some,
  List, [], ◌∷◌, All, arith, ◌≡◌, ◌↔◌, refl, ap,
}
use usp_cloud_native.ApiKeys.Secrets.{hex_digit, hex}
use usp_cloud_native.Webhooks.Signature.{Hmac, sign, hex_value, decode_hex, same_bytes, verify}

hex_value-hex_digit : (n : ℕ) → n < 16 → hex_value (hex_digit n) ≡ some n
hex_value-hex_digit n h = ground arith

decode_hex-hex : (bytes : List ℕ) → All (λ b. b < 256) bytes → decode_hex (hex bytes) ≡ some bytes
decode_hex-hex [] h = refl
decode_hex-hex (b ∷ bytes) (h, hs) =
    rw
      (
        hex_value-hex_digit (b / 16) (omega arith),
        hex_value-hex_digit (b % 16) (omega arith),
        decode_hex-hex bytes hs,
      )
      (ap (λ (n : ℕ). some (n ∷ bytes)) (omega arith))

-- A signature that was made for a payload under a secret is accepted for them, if the mac is of bytes.
pub verify-sign :
    (mac : Hmac) (secret payload : Str)
    → All (λ b. b < 256) (mac secret payload)
    → verify mac secret payload (sign mac secret payload) ≡ true
unfolding verify sign has_prefix trim_prefix
verify-sign mac secret payload h =
    rw (decode_hex-hex (mac secret payload) h) (str_eq_refl (mac secret payload))

same_bytes_iff :
    (expected : List ℕ) (o : Option (List ℕ)) → (same_bytes expected o ≡ true) ↔ (o ≡ some expected)
same_bytes_iff expected none = ground arith
same_bytes_iff expected (some provided) = ground (arith, str_eq_iff expected provided)

-- A signature, made for any payload under any secret by a mac of bytes, is accepted for a payload under
-- a secret exactly if the two macs are the same.
pub verify-sign_iff :
    (mac : Hmac) (secret other payload other_payload : Str)
    → All (λ b. b < 256) (mac other other_payload)
    → (verify mac secret payload (sign mac other other_payload) ≡ true)
      ↔ (mac other other_payload ≡ mac secret payload)
unfolding verify sign has_prefix trim_prefix
verify-sign_iff mac secret other payload other_payload h =
    rw (decode_hex-hex (mac other other_payload) h)
      (ground (arith, str_eq_iff (mac secret payload) (mac other other_payload)))
