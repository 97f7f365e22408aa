-- ===== src/Access/DenyList.antt =====
-- internal/infrastructure/auth/denylist.go. Redis is a list
-- of keys with the time at which they expire; a lifetime is sent in whole milliseconds.
pub mod Laws
use usp_cloud_native.Prelude.{
  ℕ, ◌+◌, ◌-◌, ◌*◌, ◌/◌, Str, codes, str_eq, leb, ltb, any, take, where_rows, Bool, true, false,
  not, ◌&&◌, if◌then◌else◌, Option, none, some, List, [], ◌∷◌, ◌++◌, map, Result, ok, err,
}
use usp_cloud_native.Access.Claims.{Claims}

abbrev pub Entries : Type 0
Entries = List (Str × ℕ)

abbrev pub key_of : Str → Str
key_of jti = codes "auth:denylist:jti:" ++ jti

-- `EXISTS`
abbrev pub lives : Str → (at : ℕ) → Str × ℕ → Bool
lives key at (k, expires) = str_eq k key && ltb at expires

abbrev pub other_key : Str → Str × ℕ → Bool
other_key key (k, expires) = not (str_eq k key)

abbrev pub millisecond : ℕ
millisecond = 1000000

-- `SET` with a lifetime, which is at least a millisecond.
abbrev pub set_key : Str → (lifetime at : ℕ) → Entries → Entries
set_key key lifetime at entries =
    let whole = lifetime / millisecond * millisecond in
    (key, at + (if ltb lifetime millisecond then millisecond else whole))
    ∷ where_rows (other_key key) entries

-- None where Redis cannot be read.
unfoldable pub is_revoked : Bool → Entries → (jti : Str) → (at : ℕ) → Option Bool
is_revoked lost entries jti at = if lost then none else some (any (lives (key_of jti) at) entries)

-- `now` is the time of the program, `at` that at which the command arrives. Whether it succeeds, and what
-- it leaves.
unfoldable pub revoke : Bool → (jti : Str) → (expires_at now at : ℕ) → Entries → Bool × Entries
revoke lost jti expires_at now at entries =
    if leb expires_at now
    then (true, entries)
    else if lost
    then (false, entries)
    else (true, set_key (key_of jti) (expires_at - now) at entries)

pub record RevokeRequest : Type 0 where
  pub jti : Str
  pub expires_at : ℕ

-- The commands of the pipeline.
abbrev pub live_requests : ℕ → List RevokeRequest → List RevokeRequest
live_requests now tokens = where_rows (λ t. ltb now t.expires_at) tokens

abbrev pub set_all : (now at : ℕ) → List RevokeRequest → Entries → Entries
set_all now at [] entries = entries
set_all now at (t ∷ tokens) entries =
    set_all now at tokens (set_key (key_of t.jti) (t.expires_at - now) at entries)

-- `arrived` is how many commands a pipeline that fails has brought to the server.
unfoldable pub revoke_all : Option ℕ → (now at : ℕ) → List RevokeRequest → Entries → Bool × Entries
revoke_all none now at tokens entries = (true, set_all now at (live_requests now tokens) entries)
revoke_all (some arrived) now at [] entries = (true, entries)
revoke_all (some arrived) now at (t ∷ tokens) entries =
    (false, set_all now at (take arrived (live_requests now (t ∷ tokens))) entries)
