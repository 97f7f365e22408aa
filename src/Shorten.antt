-- ===== src/Shorten.antt =====
-- internal/application/shorten: the use case that creates a short URL. The random source, the
-- parser of URLs, the ULID, the clock and the faults of the servers are arguments.
pub mod Generator
pub mod Validation
pub mod Attempts
pub mod Laws
mod Tests
use usp_cloud_native.Prelude.{
  ℕ, zero, suc, ◌+◌, Str, codes, is_empty, Bool, true, false, not, Option, none, some, [], ◌∷◌,
  ◌++◌, Result, ok, err, ◌>>=◌, ◌>>◌, trim_slashes,
}
use usp_cloud_native.Errors.{
  AppErr, short_code_conflict, validation, wrapped, entity, UrlErr, PgErr, is_conflict,
}
use usp_cloud_native.Urls.Entity.{Url, active, Parser, validate}
use usp_cloud_native.Urls.Repository.{Table, create}
use usp_cloud_native.Urls.Cache.{Redis, set}
use usp_cloud_native.Urls.Store.{Store}
use usp_cloud_native.Shorten.Generator.{generate}
use usp_cloud_native.Shorten.Validation.{validate_url, validate_custom_code}

abbrev pub max_retries : ℕ
max_retries = 3

pub record Command : Type 0 where
  pub original_url : Str
  pub custom_code : Str
  pub workspace_id : Str
  pub created_by : Str
  pub title : Str
  pub expires_at : Option ℕ

-- `CreatedAt` is kept as the time that is formatted.
pub record Created : Type 0 where
  pub short_url : Str
  pub short_code : Str
  pub id : Str
  pub original_url : Str
  pub workspace_id : Str
  pub created_at : ℕ

pub record Config : Type 0 where
  pub base_url : Str
  pub cache_ttl : ℕ
  pub code_length : ℕ

-- What happens outside: by attempt, the indices drawn and the fault of the insert; the new id, the
-- time, and whether the write to the cache is lost.
pub record Outside : Type 0 where
  pub parse_request_uri : Parser
  pub draw : ℕ → ℕ → Option ℕ
  pub insert_fault : ℕ → Option PgErr
  pub id : Str
  pub now : ℕ
  pub set_lost : Bool

unfoldable pub new_handler : Str → ℕ → ℕ → Config
unfolding trim_slashes
new_handler base_url cache_ttl code_length = record {
  base_url = trim_slashes base_url;
  cache_ttl = cache_ttl;
  code_length = code_length;
}

-- The entity before it has a short code.
abbrev pub draft : Outside → Command → Url
draft w cmd = record {
  id = w.id;
  workspace_id = cmd.workspace_id;
  short_code = [];
  original_url = cmd.original_url;
  title = cmd.title;
  status = active;
  expires_at = cmd.expires_at;
  created_by = cmd.created_by;
  created_at = w.now;
  updated_at = w.now;
  deleted_at = none;
  click_count = 0;
}

module _ (config : Config) (w : Outside) (cmd : Command) where
  -- `if code == "" { code, err = h.generator.Generate() }`
  pub pick_code : ℕ → Str → Result AppErr Str
  unfolding generate
  pick_code attempt [] = generate config.code_length (w.draw attempt)
  pick_code attempt (c ∷ code) = ok (c ∷ code)

  abbrev pub validated : Url → Result AppErr Url
  validated u = elim (validate w.parse_request_uri u) [
    | ok _ ↦ ok u
    | err e ↦ err (validation (entity e))
  ]

  -- What the loop does after an insert that failed; `again` is the next round.
  abbrev pub after_failure : UrlErr → Result AppErr (Url × Table) → Result AppErr (Url × Table)
  after_failure e again = elim (is_conflict e) [
    | true ↦ elim (is_empty cmd.custom_code) [ true ↦ again | false ↦ err short_code_conflict ]
    | false ↦ err (wrapped e)
  ]

  -- The loop, by the attempts left; it falls out of the last one with a conflict.
  pub persist : ℕ → ℕ → Str → Table → Result AppErr (Url × Table)
  unfolding validate is_conflict pick_code create
  persist zero attempt code t = err short_code_conflict
  persist (suc left) attempt code t = do
    code' ← pick_code attempt code
    u ← validated (record (draft w cmd) { short_code = code' })
    elim (create (w.insert_fault attempt) t u) [
      | ok t' ↦ ok (u, t')
      | err e ↦ let again = persist left (attempt + 1) [] t in after_failure e again
    ]

  -- The custom code, or "" where one is to be generated.
  pub choose_code : Result AppErr Str
  unfolding validate_custom_code
  choose_code = elim (is_empty cmd.custom_code) [
    | true ↦ ok []
    | false ↦ do validate_custom_code cmd.custom_code; ok cmd.custom_code
  ]

  -- A lost write to the cache is logged and forgotten.
  abbrev pub warm : Option Redis → Url → Option Redis
  warm none u = none
  warm (some s) u = some (set w.set_lost s u config.cache_ttl w.now).1

  abbrev pub created : Url → Created
  created u = record {
    short_url = config.base_url ++ codes "/" ++ u.short_code;
    short_code = u.short_code;
    id = u.id;
    original_url = u.original_url;
    workspace_id = u.workspace_id;
    created_at = u.created_at;
  }

  unfoldable pub handle : Store → Result AppErr (Created × Store)
  unfolding persist choose_code validate_url
  handle s = do
    validate_url w.parse_request_uri cmd.original_url
    code ← choose_code
    r ← persist max_retries 1 code s.primary
    ok (created r.0, record s { primary = r.1; cache = warm s.cache r.0 })
