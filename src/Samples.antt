-- ===== src/Samples.antt =====
-- Data that the tests of several modules share.
use usp_cloud_native.Prelude.{
  codes, has_prefix, drop, false, if◌then◌else◌, none, some, [], ◌∷◌, ok, ◌≡◌, refl, str_eq,
}
use usp_cloud_native.Urls.Entity.{Url, active, Parser}
use usp_cloud_native.Urls.Repository.{Table, row_ok, get_by_id}
use usp_cloud_native.Urls.Repository.Invariant.{IsValid}
use usp_cloud_native.Urls.Store.{Store}
use usp_cloud_native.Shorten
use usp_cloud_native.Manage
use usp_cloud_native.Resolve

-- A parser for URLs of one scheme, with all that follows it for the host.
unfoldable pub parse_https : Parser
unfolding has_prefix
parse_https raw_url =
    if has_prefix raw_url (codes "https://")
    then some (record { scheme = codes "https"; host = drop 8 raw_url })
    else none

abbrev pub link : Url
link = record {
  id = codes "01A";
  workspace_id = codes "ws1";
  short_code = codes "abc";
  original_url = codes "https://a.example";
  title = codes "A";
  status = active;
  expires_at = none;
  created_by = codes "user1";
  created_at = 10;
  updated_at = 10;
  deleted_at = none;
  click_count = 0;
}

abbrev pub other_link : Url
other_link = record link { id = codes "01B"; workspace_id = codes "ws2"; short_code = codes "xyz" }

abbrev pub table : Table
table = link ∷ other_link ∷ []

pub table-IsValid : IsValid table
unfolding row_ok str_eq
table-IsValid = ((refl, (refl, tt)), (refl, (refl, tt)))

pub link_read : get_by_id none table (codes "01A") (codes "ws1") ≡ ok link
unfolding get_by_id str_eq
link_read = refl

abbrev pub store : Store
store = record { primary = table; replica = table; cache = some [] }

abbrev pub uncached_store : Store
uncached_store = record store { cache = none }

abbrev pub config : Shorten.Config
config = record { base_url = codes "https://s.example"; cache_ttl = 3600; code_length = 7 }

abbrev pub creation : Shorten.Command
creation = record {
  original_url = codes "https://b.example";
  custom_code = codes "sale_2026";
  workspace_id = codes "ws1";
  created_by = codes "user1";
  title = codes "B";
  expires_at = none;
}

abbrev pub generated_creation : Shorten.Command
generated_creation = record creation { custom_code = [] }

-- The random source draws the position itself.
abbrev pub calm : Shorten.Outside
calm = record {
  parse_request_uri = parse_https;
  draw = λ attempt i. some i;
  insert_fault = λ attempt. none;
  id = codes "01C";
  now = 20;
  set_lost = false;
}

abbrev pub reading : Resolve.Outside
reading = record {
  get_lost = false;
  del_lost = false;
  exists_lost = false;
  query_fault = none;
  read_at = 30;
  checked_at = 30;
  classified_at = 30;
}

abbrev pub resolving : Resolve.Config
resolving = record { cache_ttl = 3600; negative_ttl = 60 }

abbrev pub changing : Manage.Outside
changing = record {
  parse_request_uri = parse_https;
  read_fault = none;
  write_fault = none;
  now = 25;
  delete_lost = false;
}
