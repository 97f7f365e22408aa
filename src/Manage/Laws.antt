-- ===== src/Manage/Laws.antt =====
-- What the use cases on an existing URL read, write and answer.
use usp_cloud_native.Prelude.{
  Str, Option, none, some, [], Result, ok, err, >>=-eq-ok, Option-cases, arith, ◌≡◌, ◌≢◌, ◌↔◌, inl,
  inr,
}
use usp_cloud_native.Errors.{UrlErr}
use usp_cloud_native.Urls.Entity.{Url, ParsedUrl, Parser}
use usp_cloud_native.Urls.Repository.{get_by_id, update, soft_delete}
use usp_cloud_native.Urls.Store.{Store, invalidate}
use usp_cloud_native.Shorten.Validation.{validate_url}
use usp_cloud_native.Manage.{
  UrlResult, to_url_result, or_app, validate_given, validate_update_url, UpdateCommand, Outside,
  changed, update_url, delete_url,
}

or_app-eq-ok {ℓ} : {A : Type ℓ} (r : Result UrlErr A) {a : A} → or_app r ≡ ok a → r ≡ ok a
or_app-eq-ok (ok b) h = ground arith
or_app-eq-ok (err e) h = absurd (ground arith)

-- What a successful update has done: `u` is the row that it read from the replica.
pub record IsUpdated (base_url : Str) (w : Outside) (s : Store) (cmd : UpdateCommand)
    (r : UrlResult) (s' : Store) : Type 0 where
  pub u : Url
  pub read : get_by_id w.read_fault s.replica cmd.url_id cmd.workspace_id ≡ ok u
  pub valid : validate_given w.parse_request_uri cmd.original_url ≡ ok tt
  pub written : update w.write_fault s.primary (changed cmd u w.now) w.now ≡ ok s'.primary
  pub answer : r ≡ to_url_result (changed cmd u w.now) base_url
  pub invalidated : s'.cache ≡ invalidate w.delete_lost s.cache u.short_code
  pub unreplicated : s'.replica ≡ s.replica

pub update_url-IsUpdated :
    (base_url : Str) (w : Outside) (s : Store) (cmd : UpdateCommand) (r : UrlResult) (s' : Store)
    → update_url base_url w s cmd ≡ ok (r, s')
    → IsUpdated base_url w s cmd r s'
unfolding update_url
update_url-IsUpdated base_url w s cmd r s' h =
    let (u, read, h₁) =
      >>=-eq-ok (or_app (get_by_id w.read_fault s.replica cmd.url_id cmd.workspace_id)) _ h in
    let (_, valid, h₂) = >>=-eq-ok (validate_given w.parse_request_uri cmd.original_url) _ h₁ in
    let (t, written, h₃) =
      >>=-eq-ok (or_app (update w.write_fault s.primary (changed cmd u w.now) w.now)) _ h₂ in
    record {
      u = u;
      read = or_app-eq-ok _ read;
      valid = valid;
      written = ground (arith, or_app-eq-ok _ written);
      answer = ground arith;
      invalidated = ground arith;
      unreplicated = ground arith;
    }

-- What a successful delete has done: `u` is the row that it read from the replica.
pub record IsDeleted (w : Outside) (s : Store) (id workspace_id : Str) (s' : Store) : Type 0 where
  pub u : Url
  pub read : get_by_id w.read_fault s.replica id workspace_id ≡ ok u
  pub written : soft_delete w.write_fault s.primary id workspace_id w.now ≡ ok s'.primary
  pub invalidated : s'.cache ≡ invalidate w.delete_lost s.cache u.short_code
  pub unreplicated : s'.replica ≡ s.replica

pub delete_url-IsDeleted :
    (w : Outside) (s : Store) (id workspace_id : Str) (s' : Store)
    → delete_url w s id workspace_id ≡ ok s'
    → IsDeleted w s id workspace_id s'
unfolding delete_url
delete_url-IsDeleted w s id workspace_id s' h =
    let (u, read, h₁) = >>=-eq-ok (or_app (get_by_id w.read_fault s.replica id workspace_id)) _ h in
    let (t, written, h₂) =
      >>=-eq-ok (or_app (soft_delete w.write_fault s.primary id workspace_id w.now)) _ h₁ in
    record {
      u = u;
      read = or_app-eq-ok _ read;
      written = ground (arith, or_app-eq-ok _ written);
      invalidated = ground arith;
      unreplicated = ground arith;
    }

abbrev pub HasHost : Option ParsedUrl → Type 0
HasHost none = ⊥
HasHost (some p) = p.host ≢ []

-- An update accepts what the creation of a URL accepts, and the URLs without a host besides.
pub validate_url_iff_update :
    (parse_request_uri : Parser) (raw_url : Str)
    → (validate_url parse_request_uri raw_url ≡ ok tt) ↔ (
        (validate_update_url parse_request_uri raw_url ≡ ok tt)
        × HasHost (parse_request_uri raw_url))
unfolding validate_url validate_update_url
validate_url_iff_update parse_request_uri raw_url =
    elim (Option-cases (parse_request_uri raw_url)) [
      | inl e ↦ rw e ((λ h. absurd (ground arith)), (λ h. absurd h.1))
      | inr (p, e) ↦ rw e ((λ h. (ground arith, ground arith)), (λ h. ground arith))
    ]
