-- ===== src/Lifecycle/Changes.antt =====
-- A redirect after an update or a delete, once the write has reached the replica.
use usp_cloud_native.Prelude.{Str, str_eq_refl, true, false, none, ok, err, arith, ◌≡◌, ◌∙◌, refl}
use usp_cloud_native.Errors.{AppErr, deleted}
use usp_cloud_native.Urls.Entity.{Url, can_redirect}
use usp_cloud_native.Urls.Repository.{set_columns, update, get_by_id, get_by_short_code}
use usp_cloud_native.Urls.Repository.Invariant.{IsValid}
use usp_cloud_native.Urls.Repository.Reads.{
  get_by_id-eq-ok, get_by_id-of-fault, get_by_short_code-soft_delete, get_by_short_code-update,
}
use usp_cloud_native.Urls.Store.{Store}
use usp_cloud_native.Manage
use usp_cloud_native.Manage.{UpdateCommand, UrlResult, given, changed, update_url, delete_url}
use usp_cloud_native.Manage.Laws.{update_url-IsUpdated, delete_url-IsDeleted}
use usp_cloud_native.Resolve
use usp_cloud_native.Resolve.{resolved, miss}
use usp_cloud_native.Resolve.Paths.{handle-row, handle-no_row, handle-invalidated, judge-usable}

-- After a successful delete whose invalidation arrived, of a table with valid rows and from an
-- up-to-date replica, the short code of the deleted row is not found by a redirect whose query
-- goes through, at any time and whichever of the cache's commands are lost.
pub delete_url-redirect :
    (w : Manage.Outside) (s s' : Store) (id workspace_id : Str) (u : Url) (v : Resolve.Outside)
    → IsValid s.primary
    → s.replica ≡ s.primary
    → get_by_id w.read_fault s.replica id workspace_id ≡ ok u
    → w.delete_lost ≡ false
    → delete_url w s id workspace_id ≡ ok s'
    → v.query_fault ≡ none
    → (Resolve.handle v u.short_code (record s' { replica = s'.primary })).result
      ≡ err AppErr.not_found
delete_url-redirect w s s' id workspace_id u v valid fresh read arrived h no_fault =
    let done = delete_url-IsDeleted w s id workspace_id s' h in
    let s'' : Store = record s' { replica = s'.primary } in
    let gone : get_by_short_code none s'.primary u.short_code ≡ err deleted =
      get_by_short_code-soft_delete w.write_fault s.primary s'.primary id workspace_id w.now u
        u.short_code valid
        (get_by_id-of-fault w.read_fault s.primary id workspace_id u (rw (← fresh) read))
        done.written
      ∙ rw (str_eq_refl u.short_code) refl in
    handle-invalidated v u.short_code s'' s.cache (ground (arith, done.invalidated, done.read))
    ∙ handle-no_row v u.short_code (record s'' { cache = none }) deleted refl no_fault gone

-- After a successful update whose invalidation arrived, of a table with valid rows and from an
-- up-to-date replica, a redirect whose query goes through sends the row's short code to the URL
-- that the command gives, or else to the one before, if the row with the new expiry redirects.
pub update_url-redirect :
    (base_url : Str) (w : Manage.Outside) (s s' : Store) (cmd : UpdateCommand) (r : UrlResult)
    (u : Url) (v : Resolve.Outside)
    → IsValid s.primary
    → s.replica ≡ s.primary
    → get_by_id w.read_fault s.replica cmd.url_id cmd.workspace_id ≡ ok u
    → w.delete_lost ≡ false
    → update_url base_url w s cmd ≡ ok (r, s')
    → v.query_fault ≡ none
    → can_redirect (changed cmd u w.now) v.checked_at ≡ true
    → (Resolve.handle v u.short_code (record s' { replica = s'.primary })).result
      ≡ ok (record {
        original_url = given cmd.original_url u.original_url;
        short_code = u.short_code;
        workspace_id = u.workspace_id;
        cache_status = miss;
      })
unfolding can_redirect
update_url-redirect base_url w s s' cmd r u v valid fresh read arrived h no_fault can =
    let done = update_url-IsUpdated base_url w s cmd r s' h in
    let s'' : Store = record s' { replica = s'.primary } in
    let u' = changed cmd u w.now in
    let same : done.u ≡ u = ground (arith, done.read) in
    let written : update w.write_fault s.primary u' w.now ≡ ok s'.primary =
      rw (← same) done.written in
    let before : get_by_id none s.primary cmd.url_id cmd.workspace_id ≡ ok u =
      get_by_id-of-fault w.read_fault s.primary cmd.url_id cmd.workspace_id u (rw (← fresh) read) in
    let keys = get_by_id-eq-ok s.primary cmd.url_id cmd.workspace_id u before in
    let before' : get_by_id none s.primary u'.id u'.workspace_id ≡ ok u =
      cc (keys.2, keys.3, before) in
    let row : get_by_short_code none s'.primary u.short_code ≡ ok (set_columns u' w.now u) =
      get_by_short_code-update w.write_fault s.primary s'.primary u' w.now u u.short_code valid
        before' written
      ∙ rw (str_eq_refl u.short_code) refl in
    handle-invalidated v u.short_code s'' s.cache (ground (arith, done.invalidated, done.read))
    ∙ handle-row v u.short_code (record s'' { cache = none }) (set_columns u' w.now u) refl no_fault
        row
    ∙ judge-usable v u.short_code miss (set_columns u' w.now u) (ground arith)
