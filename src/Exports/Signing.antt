-- ===== src/Exports/Signing.antt =====
-- pkg/signedurl. HMAC-SHA-256 and the base64 encoding are arguments; times are in nanoseconds.
use usp_cloud_native.Prelude.{
  ℕ, zero, suc, ◌+◌, ◌/◌, ◌%◌, ◌==◌, Str, codes, str_eq, ltb, length, trim_right, Bool, true, false,
  if◌then◌else◌, Option, none, some, List, [], ◌∷◌, ◌++◌,
}

pub record Signer : Type 0 where
  pub secret : Str
  pub hmac : Str → Str → List ℕ
  pub encode : List ℕ → Str

-- `New`: a secret is at least 16 bytes long.
unfoldable pub new : (Str → Str → List ℕ) → (List ℕ → Str) → Str → Option Signer
new hmac encode secret =
    if ltb (length secret) 16
    then none
    else some (record { secret = secret; hmac = hmac; encode = encode })

-- `strconv.FormatInt` for a number of at most `fuel` digits.
abbrev digits : ℕ → ℕ → Str → Str
digits zero n later = later
digits (suc fuel) n later = elim (n / 10 == 0) [
  | true ↦ (b'0' + n % 10) ∷ later
  | false ↦ digits fuel (n / 10) ((b'0' + n % 10) ∷ later)
]

-- An int64 has nineteen digits.
unfoldable pub format_int : ℕ → Str
format_int n = digits 19 n []

abbrev pub unix : ℕ → ℕ
unix at = at / 1000000000

unfoldable pub sign : Signer → Str → ℕ → Str
unfolding format_int
sign s export_id expires_at =
    s.encode (s.hmac s.secret (export_id ++ (codes "|" ++ format_int (unix expires_at))))

unfoldable pub verify : Signer → ℕ → (export_id token : Str) → (expires_at : ℕ) → Bool
unfolding sign
verify s now export_id token expires_at =
    if ltb expires_at now then false else str_eq token (sign s export_id expires_at)

unfoldable pub build_download_url : (base_url export_id token : Str) → Str
unfolding trim_right
build_download_url base_url export_id token =
    trim_right (λ c. c == b'/') base_url
    ++ (codes "/api/v1/exports/" ++ (export_id ++ (codes "/download?token=" ++ token)))
