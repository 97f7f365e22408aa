-- ===== src/Shorten/Validation/Laws.antt =====
-- What the validation helpers accept, as conditions on the input.
use usp_cloud_native.Prelude.{
  ◌≤◌, Str, codes, str_eq, str_eq_iff, to_lower, length, true, false, some, List, [], ◌∷◌, all, any,
  All, ok, arith, ◌≡◌, ◌≢◌, ◌⊎◌, ◌↔◌, refl, inl, inr, Option-cases,
}
use usp_cloud_native.Urls.Entity.{ParsedUrl, Parser}
use usp_cloud_native.Shorten.Validation.{
  is_web_scheme, validate_url, reserved_paths, is_alphanumeric_or_safe, is_reserved,
  validate_custom_code,
}

-- The scheme is http or https, in any case of its letters.
abbrev pub IsWebScheme : Str → Type 0
IsWebScheme scheme = (to_lower scheme ≡ codes "http") ⊎ (to_lower scheme ≡ codes "https")

pub is_web_scheme_iff : (scheme : Str) → (is_web_scheme scheme ≡ true) ↔ IsWebScheme scheme
unfolding is_web_scheme
is_web_scheme_iff scheme = ground (
  arith,
  str_eq_iff (to_lower scheme) (codes "http"),
  str_eq_iff (to_lower scheme) (codes "https"),
)

-- A URL that a visitor may be sent to: not empty, at most 8192 bytes, and parsed with a web scheme
-- and a host.
pub record IsWebUrl (parse_request_uri : Parser) (raw_url : Str) : Type 0 where
  pub present : raw_url ≢ []
  pub short : length raw_url ≤ 8192
  pub parsed : ParsedUrl
  pub parses : parse_request_uri raw_url ≡ some parsed
  pub scheme : IsWebScheme parsed.scheme
  pub host : parsed.host ≢ []

-- The validation of a URL succeeds exactly on URLs that are not empty, are no longer than the
-- limit, and parse to an HTTP or HTTPS URL with a host.
pub validate_url_iff :
    (parse_request_uri : Parser) (raw_url : Str)
    → (validate_url parse_request_uri raw_url ≡ ok tt) ↔ IsWebUrl parse_request_uri raw_url
unfolding validate_url
validate_url_iff parse_request_uri raw_url = (
  (λ h. elim (Option-cases (parse_request_uri raw_url)) [
    | inl failed ↦ absurd (ground arith)
    | inr (p, parses) ↦ record {
      present = ground arith;
      short = ground arith;
      parsed = p;
      parses = parses;
      scheme = (is_web_scheme_iff p.scheme).0 (ground arith);
      host = ground arith;
    }
  ]),
  (λ h. ground (arith, h.parses, (is_web_scheme_iff h.parsed.scheme).1 h.scheme)),
)

-- A code that may be asked for: 3 to 32 letters, digits, hyphens or underscores, and in no case of
-- its letters a path of the system.
pub record IsCustomCode (code : Str) : Type 0 where
  pub long : 3 ≤ length code
  pub short : length code ≤ 32
  pub safe : all is_alphanumeric_or_safe code ≡ true
  pub free : All (λ p. to_lower code ≢ p) reserved_paths

any-str_eq_iff : (s : Str) (xs : List Str) → (any (str_eq s) xs ≡ false) ↔ All (λ p. s ≢ p) xs
any-str_eq_iff s [] = (λ h. tt, λ h. refl)
any-str_eq_iff s (x ∷ xs) = (
  (λ h. (ground (arith, str_eq_iff s x), (any-str_eq_iff s xs).0 (ground arith))),
  (λ h. ground (arith, str_eq_iff s x, (any-str_eq_iff s xs).1 h.1)),
)

is_reserved_iff :
    (code : Str) → (is_reserved code ≡ false) ↔ All (λ p. to_lower code ≢ p) reserved_paths
unfolding is_reserved
is_reserved_iff code = any-str_eq_iff (to_lower code) reserved_paths

-- The validation of a custom code succeeds exactly on texts of 3 to 32 letters, digits, hyphens or
-- underscores that are, in no case of their letters, a path of the system.
pub validate_custom_code_iff :
    (code : Str) → (validate_custom_code code ≡ ok tt) ↔ IsCustomCode code
unfolding validate_custom_code
validate_custom_code_iff code = (
  (λ h. record {
    long = ground arith;
    short = ground arith;
    safe = ground arith;
    free = (is_reserved_iff code).0 (ground arith);
  }),
  (λ h. ground (arith, h.long, h.short, h.safe, (is_reserved_iff code).1 h.free)),
)
