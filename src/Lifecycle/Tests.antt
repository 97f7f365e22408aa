-- ===== src/Lifecycle/Tests.antt =====
-- The laws of sequences of use cases at concrete inputs.
use usp_cloud_native.Prelude.{codes, false, none, some, [], ◌∷◌, ok, err, ◌≡◌, refl, str_eq}
use usp_cloud_native.Errors.{AppErr}
use usp_cloud_native.Urls.Entity.{Url, is_expired, can_redirect}
use usp_cloud_native.Urls.Repository.{mark_deleted}
use usp_cloud_native.Urls.Cache as Cache
use usp_cloud_native.Urls.Cache.{Redis}
use usp_cloud_native.Urls.Store.{Store}
use usp_cloud_native.Shorten
use usp_cloud_native.Shorten.{Created}
use usp_cloud_native.Manage.{UpdateCommand, to_url_result, update_url, delete_url}
use usp_cloud_native.Resolve
use usp_cloud_native.Resolve.{hit, miss, set_cache, set_not_found, run_task, status_of}
use usp_cloud_native.Lifecycle.Creation.{expected, cached_redirect, stored_redirect}
use usp_cloud_native.Lifecycle.Changes.{delete_url-redirect, update_url-redirect}
use usp_cloud_native.Lifecycle.Races.{late_task_wins}
use usp_cloud_native.Samples.{
  parse_https, link, other_link, table, table-IsValid, link_read, store, uncached_store, config,
  creation, calm, reading, resolving, changing,
}

-- What the creation of `creation` leaves and answers.
abbrev new_link : Url
new_link = record link {
  id = codes "01C";
  short_code = codes "sale_2026";
  original_url = codes "https://b.example";
  title = codes "B";
  created_at = 20;
  updated_at = 20;
}

abbrev answer : Created
answer = record {
  short_url = codes "https://s.example/sale_2026";
  short_code = codes "sale_2026";
  id = codes "01C";
  original_url = codes "https://b.example";
  workspace_id = codes "ws1";
  created_at = 20;
}

abbrev warmed : Redis
warmed = (Cache.set false [] new_link 3600 20).1

abbrev after_creation : Store
after_creation = record {
  primary = link ∷ other_link ∷ new_link ∷ [];
  replica = table;
  cache = some warmed;
}

creation_run : Shorten.handle config calm creation store ≡ ok (answer, after_creation)
unfolding Shorten.handle parse_https
creation_run = refl

cached_redirect_example :
    (Resolve.handle reading (codes "sale_2026") after_creation).result
    ≡ ok (expected creation answer hit)
cached_redirect_example =
    cached_redirect config calm creation store after_creation after_creation answer [] reading
      creation_run refl refl refl refl refl refl

uncached_run :
    Shorten.handle config calm creation uncached_store
    ≡ ok (answer, record after_creation { cache = none })
unfolding Shorten.handle parse_https
uncached_run = refl

stored_redirect_example :
    (Resolve.handle reading
      (codes "sale_2026")
      (record after_creation { replica = link ∷ other_link ∷ new_link ∷ []; cache = none })).result
    ≡ ok (expected creation answer miss)
stored_redirect_example =
    stored_redirect config calm creation uncached_store (record after_creation { cache = none })
      (record after_creation { replica = link ∷ other_link ∷ new_link ∷ []; cache = none }) answer
      reading uncached_run refl refl refl refl

abbrev after_delete : Store
after_delete = record {
  primary = mark_deleted 25 link ∷ other_link ∷ [];
  replica = table;
  cache = some (Cache.delete false [] (codes "abc")).1;
}

delete_run : delete_url changing store (codes "01A") (codes "ws1") ≡ ok after_delete
unfolding delete_url str_eq
delete_run = refl

delete_url-redirect_example :
    (Resolve.handle reading
      (codes "abc")
      (record after_delete { replica = mark_deleted 25 link ∷ other_link ∷ [] })).result
    ≡ err AppErr.not_found
delete_url-redirect_example =
    delete_url-redirect changing store after_delete (codes "01A") (codes "ws1") link reading
      table-IsValid refl link_read refl delete_run refl

-- The command changes the title and removes the expiry.
abbrev retitle : UpdateCommand
retitle = record {
  url_id = codes "01A";
  workspace_id = codes "ws1";
  original_url = some (codes "https://c.example");
  title = some (codes "C");
  expires_at = some none;
}

abbrev updated_link : Url
updated_link = record link {
  original_url = codes "https://c.example";
  title = codes "C";
  expires_at = none;
  updated_at = 25;
}

abbrev after_update : Store
after_update = record {
  primary = updated_link ∷ other_link ∷ [];
  replica = table;
  cache = some (Cache.delete false [] (codes "abc")).1;
}

update_run :
    update_url (codes "https://s.example") changing store retitle
    ≡ ok (to_url_result updated_link (codes "https://s.example"), after_update)
unfolding update_url str_eq parse_https to_url_result
update_run = refl

update_url-redirect_example :
    (Resolve.handle reading
      (codes "abc")
      (record after_update { replica = updated_link ∷ other_link ∷ [] })).result
    ≡ ok (record {
      original_url = codes "https://c.example";
      short_code = codes "abc";
      workspace_id = codes "ws1";
      cache_status = miss;
    })
update_url-redirect_example =
    update_url-redirect (codes "https://s.example") changing store after_update retitle
      (to_url_result updated_link (codes "https://s.example")) link reading table-IsValid refl
      link_read refl update_run refl (unfold can_redirect is_expired in refl)

-- The delete has succeeded, and a goroutine that read the row before it writes at 26.
late_task_wins_example :
    (Resolve.handle reading (codes "abc") (record after_delete {
      cache = run_task resolving false after_delete.cache 26 (set_cache link);
    })).result
    ≡ ok (Resolve.resolved reading (codes "abc") hit link)
late_task_wins_example =
    late_task_wins after_delete (Cache.delete false [] (codes "abc")).1 link resolving 26 reading
      refl refl refl (unfold can_redirect is_expired in refl)
