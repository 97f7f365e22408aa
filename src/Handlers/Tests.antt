-- ===== src/Handlers/Tests.antt =====
-- The handlers at concrete inputs.
use usp_cloud_native.Prelude.{
  ◌==◌, ◌+◌, ◌++◌, ltb, length, codes, str_eq, false, if◌then◌else◌, none, some, [], ◌∷◌, ok, ◌≡◌,
  ◌≢◌, refl, has_prefix,
}
use usp_cloud_native.Samples.{link, store, config, calm, changing, parse_https}
use usp_cloud_native.Urls.Entity.{Url}
use usp_cloud_native.Urls.Repository.{Table, get_by_id, update, row_ok, char_length}
use usp_cloud_native.Access.Claims.{Claims}
use usp_cloud_native.Manage.{to_url_result, update_url}
use usp_cloud_native.Shorten
use usp_cloud_native.Webhooks.{Tables}
use usp_cloud_native.Workspaces.Entity.{Workspace}
use usp_cloud_native.ApiKeys.Entity.{extract_prefix, validate_scopes}
use usp_cloud_native.ApiKeys.Secrets.{Hashing, generate_raw, hash}
use usp_cloud_native.ApiKeys.Repository as Keys
use usp_cloud_native.ApiKeys.UseCases as UseCases
use usp_cloud_native.Audit.Service as Service
use usp_cloud_native.Audit.Service.{capture}
use usp_cloud_native.Audit.Middleware as Middleware
use usp_cloud_native.Audit.Middleware.{audit_action}
use usp_cloud_native.Handlers.Response.{json, Context}
use usp_cloud_native.Handlers.Urls.{
  Site, UrlOutside, UrlResponse, to_url_response, UpdateUrlRequest, parse_int_query, patch_url,
  remove_url,
}
use usp_cloud_native.Handlers.Urls.Laws.{foreign_rows, requests_foreign}
use usp_cloud_native.Handlers.Urls.Expiry.{patch_url-keeps_expiry}
use usp_cloud_native.Handlers.Urls.Audited.{deletion_event, audited_delete, audit_action-remove_url}
use usp_cloud_native.Handlers.Shorten.{ShortenRequest, Sender, ShortenResponse, post_url}
use usp_cloud_native.Handlers.Shorten.Laws.{IsAddedFor, post_url-IsAddedFor}
use usp_cloud_native.Handlers.ApiKeys.{CreateApiKeyRequest, post_key}
use usp_cloud_native.Handlers.ApiKeys.Laws.{IsAdded, post_key-IsAdded}

abbrev caller : Claims
caller = record {
  user_id = codes "user1";
  token_id = codes "t1";
  workspace_id = codes "ws1";
  scope = codes "read write";
  issuer = codes "usp";
  audiences = [];
  issued_at = 0;
  expires_at = 100;
}

abbrev no_hooks : Tables
no_hooks = record { hooks = []; deliveries = [] }

abbrev site : Site
site = record { store = store; hooks_replica = no_hooks; hooks = no_hooks }

abbrev outside : UrlOutside
outside = record { manage = changing; dispatcher = none }

abbrev retitled : UpdateUrlRequest
retitled = record { original_url = none; title = some (codes "B"); expires_at = none }

requests_foreign_example :
    (foreign_rows
        (codes "ws1")
        (patch_url
          (codes "https://s.example")
          outside
          (record { claims = some caller; path = codes "/"; pending = none })
          site
          (codes "01A")
          (some retitled)).1
      ≡ foreign_rows (codes "ws1") site)
    × (foreign_rows
          (codes "ws1")
          (remove_url outside
            (record { claims = some caller; path = codes "/"; pending = none })
            site
            (codes "01A")).1
        ≡ foreign_rows (codes "ws1") site)
requests_foreign_example =
    requests_foreign (codes "https://s.example") outside caller (codes "/") none site (codes "01A")
      (some retitled)

-- A link that expires.
abbrev expiring : Url
expiring = record link { expires_at = some 90 }

abbrev expiring_table : Table
expiring_table = expiring ∷ []

abbrev expiring_site : Site
expiring_site = record site {
  store = record { primary = expiring_table; replica = expiring_table; cache = none };
}

abbrev retitled_response : UrlResponse
retitled_response = to_url_response (
    to_url_result (record expiring { title = codes "B"; updated_at = 25 })
      (codes "https://s.example"))

expiring_read : get_by_id none expiring_table (codes "01A") (codes "ws1") ≡ ok expiring
unfolding get_by_id str_eq
expiring_read = refl

retitled_answer :
    (patch_url
      (codes "https://s.example")
      outside
      (record { claims = some caller; path = codes "/"; pending = none })
      expiring_site
      (codes "01A")
      (some retitled)).0
    ≡ json 200 retitled_response
unfolding patch_url update_url get_by_id update row_ok to_url_result char_length str_eq
retitled_answer = refl

abbrev retitled_row : Url
retitled_row = record expiring { title = codes "B"; updated_at = 25 }

retitled_stored :
    get_by_id none
      (patch_url
        (codes "https://s.example")
        outside
        (record { claims = some caller; path = codes "/"; pending = none })
        expiring_site
        (codes "01A")
        (some retitled)).1.store.primary
      (codes "01A")
      (codes "ws1")
    ≡ ok retitled_row
unfolding patch_url update_url get_by_id update row_ok to_url_result char_length str_eq
retitled_stored = refl

patch_url-keeps_expiry_example :
    (retitled_response.expires_at ≢ none) × (retitled_row.expires_at ≡ retitled_response.expires_at)
patch_url-keeps_expiry_example =
    patch_url-keeps_expiry (codes "https://s.example") outside caller (codes "/") none expiring_site
      (codes "01A") retitled expiring retitled_row retitled_response expiring_read (λ h. cc)
      retitled_answer retitled_stored

-- A number that overflows, one above the maximum, and one that is none.
limit_overflows : parse_int_query (codes "18446744073709551621") 20 100 ≡ 5
unfolding parse_int_query
limit_overflows = refl

limit_capped : parse_int_query (codes "250") 20 100 ≡ 100
unfolding parse_int_query
limit_capped = refl

limit_malformed : parse_int_query (codes "1x") 20 100 ≡ 20
unfolding parse_int_query
limit_malformed = refl

abbrev asked : Middleware.Request
asked = record {
  claims = some caller;
  remote_addr = codes "10.0.0.1";
  user_agent = codes "curl/8.0";
  request_id = codes "r1";
}

abbrev auditing : Service.Outside
auditing = record { id = codes "e1"; now = 50 }

abbrev service : Service.State
service = Service.new_service (record { rows = []; partitions = [] })

delete_kept : Middleware.is_auth_failure (codes "url:delete") ≡ false
unfolding str_eq
delete_kept = refl

audit_action-remove_url_example :
    (audit_action auditing
      (codes "url:delete")
      asked
      service
      (audited_delete outside caller (codes "/") site (codes "01A"))).0
    ≡ (if (audit_action auditing
            (codes "url:delete")
            asked
            service
            (audited_delete outside caller (codes "/") site (codes "01A"))).1
          == 204
        then (if ltb (length service.channel) 2048
            then record service {
              channel =
                  service.channel
                  ++ deletion_event auditing (codes "url:delete") asked caller (codes "01A") ∷ [];
            }
            else record service { dropped_events = service.dropped_events + 1 })
        else service)
audit_action-remove_url_example =
    audit_action-remove_url outside caller (codes "/") site (codes "01A") auditing
      (codes "url:delete") asked service refl delete_kept

-- A sender without claims, who names the workspace by the path.
abbrev unknown_sender : Sender
unknown_sender = record {
  path_workspace = codes "ws2";
  x_workspace_id = [];
  x_user_id = codes "anyone";
}

abbrev posted : ShortenRequest
posted = record {
  original_url = codes "https://b.example";
  custom_code = codes "sale_2026";
  title = codes "B";
  expires_at = none;
}

abbrev unknown : Context
unknown = record { claims = none; path = codes "/api/v1/workspaces/ws2/urls"; pending = none }

abbrev posted_response : ShortenResponse
posted_response = record {
  id = codes "01C";
  short_url = codes "https://s.example/sale_2026";
  short_code = codes "sale_2026";
  original_url = codes "https://b.example";
  workspace_id = codes "ws2";
  created_at = 20;
}

posted_answer :
    (post_url config calm none unknown unknown_sender site (some posted)).0
    ≡ json 201 posted_response
unfolding post_url Shorten.handle parse_https
posted_answer = refl

post_url-IsAddedFor_example :
    IsAddedFor none unknown_sender posted site
      (post_url config calm none unknown unknown_sender site (some posted)).1
post_url-IsAddedFor_example =
    post_url-IsAddedFor config calm none unknown unknown_sender site posted posted_response
      posted_answer

abbrev plain : Hashing
plain = record {
  sha256 = λ s. s;
  bcrypt_generate = λ password. some password;
  bcrypt_matches = λ hash password. str_eq hash password;
}

abbrev acme : Workspace
acme = record {
  id = codes "01HW7XYZQK";
  name = codes "Acme";
  slug = codes "acme";
  plan_tier = codes "free";
  owner_id = codes "user9";
  created_at = 5;
  updated_at = 5;
}

abbrev around : UseCases.Outside
around = record {
  hashing = plain;
  random_bytes = some (1 ∷ 255 ∷ []);
  new_id = codes "k1";
  now = 10;
  lost = false;
  check_lost = false;
  member_lost = false;
}

abbrev asked_key : CreateApiKeyRequest
asked_key = record { name = codes "ci"; scopes = codes "read" ∷ []; expires_at = none }

abbrev key_result : UseCases.CreateResult
key_result = record {
  id = codes "k1";
  name = codes "ci";
  key_prefix = codes "urlsk_01HW7XYZ";
  raw_key = codes "urlsk_01HW7XYZ01ff";
  scopes = codes "read" ∷ [];
  workspace_id = codes "01HW7XYZQK";
  created_at = 10;
  expires_at = none;
}

-- The caller's claims name another workspace.
key_answer :
    (post_key around
      (acme ∷ [])
      (record { claims = some caller; path = codes "/"; pending = none })
      []
      (codes "01HW7XYZQK")
      (some asked_key)).0
    ≡ json 201 key_result
unfolding post_key UseCases.create_key UseCases.new_key extract_prefix validate_scopes generate_raw
    hash Keys.create Keys.row_ok char_length str_eq has_prefix
key_answer = refl

post_key-IsAdded_example :
    IsAdded
      (codes "01HW7XYZQK")
      caller
      key_result
      []
      (post_key around
        (acme ∷ [])
        (record { claims = some caller; path = codes "/"; pending = none })
        []
        (codes "01HW7XYZQK")
        (some asked_key)).1
post_key-IsAdded_example =
    post_key-IsAdded around (acme ∷ []) caller (codes "/") none [] (codes "01HW7XYZQK") asked_key
      key_result key_answer
