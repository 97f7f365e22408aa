-- ===== src/ApiKeys/Tests.antt =====
-- API keys at concrete inputs.
use usp_cloud_native.Prelude.{codes, str_eq, false, true, none, some, [], ◌∷◌, ok, ◌≡◌, refl}
use usp_cloud_native.ApiKeys.Entity.{ApiKey, validate_scopes, is_active}
use usp_cloud_native.ApiKeys.Secrets.{generate_raw}

abbrev key : ApiKey
key = record {
  id = codes "k1";
  workspace_id = codes "01HW7XYZQK";
  name = codes "ci";
  key_hash = codes "h";
  key_prefix = codes "urlsk_01HW7XYZ";
  scopes = codes "read" ∷ codes "write" ∷ [];
  created_by = codes "user1";
  created_at = 10;
  expires_at = none;
  revoked_at = none;
  last_used_at = none;
}

key_active : is_active key 20 ≡ true
unfolding is_active
key_active = refl

revoked_key_inactive : is_active (record key { revoked_at = some 15 }) 20 ≡ false
unfolding is_active
revoked_key_inactive = refl

key_scopes : validate_scopes key.scopes ≡ ok tt
unfolding validate_scopes str_eq
key_scopes = refl

two_bytes :
    generate_raw (codes "01HW7XYZQK") (some (1 ∷ 255 ∷ [])) ≡ some (codes "urlsk_01HW7XYZ01ff")
unfolding generate_raw
two_bytes = refl
