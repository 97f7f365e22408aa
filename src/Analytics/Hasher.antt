-- ===== src/Analytics/Hasher.antt =====
-- pkg/iphasher. SHA-256 and the day of a time, as a text, are arguments.
use usp_cloud_native.Prelude.{ℕ, Str, is_empty, if◌then◌else◌, List, [], ◌∷◌, ◌++◌}
use usp_cloud_native.ApiKeys.Secrets.{hex}

pub record Hasher : Type 0 where
  pub secret_key : Str
  pub sha256 : Str → List ℕ
  pub day : ℕ → Str

abbrev pub salt : Hasher → Str → Str
salt h day = hex (h.sha256 (h.secret_key ++ b':' ∷ day))

-- `HashWithDate`; `Hash` is that of now.
unfoldable pub hash_with_date : Hasher → Str → ℕ → Str
hash_with_date h ip at = if is_empty ip then [] else hex (h.sha256 (ip ++ b':' ∷ salt h (h.day at)))
