-- ===== src/Handlers/Shorten/Laws.antt =====
-- For whom a URL is made.
use usp_cloud_native.Prelude.{
  Str, codes, is_empty, not, first, Option, none, some, List, [], ◌∷◌, ◌++◌, arith, sym, subst,
  Result, ok, err, ◌≡◌, ◌≢◌, refl, ap, ◌∙◌,
}
use usp_cloud_native.Errors.{AppErr, short_code_conflict, url_blocked, validation}
use usp_cloud_native.Urls.Entity.{Url}
use usp_cloud_native.Urls.Store.{Store}
use usp_cloud_native.Access.Claims.{Claims}
use usp_cloud_native.Shorten.{Created, Config, Outside, handle}
use usp_cloud_native.Shorten.Laws.{handle-IsStored}
use usp_cloud_native.Webhooks.Registration.{DispatchOutside}
use usp_cloud_native.Handlers.Response.{json, Context}
use usp_cloud_native.Handlers.Urls.{Site}
use usp_cloud_native.Handlers.Urls.Laws.{dispatched-store}
use usp_cloud_native.Handlers.Shorten.{
  ShortenRequest, Sender, ShortenResponse, shorten_error, created_event, resolve_identity,
  shorten_command, shortened, post_url,
}

module _ (path : Str) (r : ShortenResponse) where
  shorten_error-ne-json : (e : AppErr) → shorten_error path e ≢ json 201 r
  shorten_error-ne-json AppErr.not_found h = cc
  shorten_error-ne-json AppErr.url_expired h = cc
  shorten_error-ne-json AppErr.url_disabled h = cc
  shorten_error-ne-json url_blocked h = cc
  shorten_error-ne-json short_code_conflict h = cc
  shorten_error-ne-json AppErr.unauthorized h = cc
  shorten_error-ne-json AppErr.unauthenticated h = cc
  shorten_error-ne-json (validation why) h = cc
  shorten_error-ne-json (AppErr.wrapped e) h = cc
  shorten_error-ne-json AppErr.random h = cc

-- The first text that is not empty.
abbrev pub first_given : List Str → Option Str
first_given = first (λ s. not (is_empty s))

-- For whom a request is served: with claims in the claims' workspace and under their user; without
-- claims in the workspace of the path, else in that of the header, else in `ws_default`, and under the
-- user of the other header, else `usr_default`.
abbrev pub IsServedFor : Option Claims → Sender → (workspace_id user_id : Str) → Type 0
IsServedFor (some claims) from workspace_id user_id =
    (workspace_id ≡ claims.workspace_id) × (user_id ≡ claims.user_id)
IsServedFor none from workspace_id user_id =
    (first_given (from.path_workspace ∷ from.x_workspace_id ∷ codes "ws_default" ∷ [])
      ≡ some workspace_id)
    × (first_given (from.x_user_id ∷ codes "usr_default" ∷ []) ≡ some user_id)

resolve_identity-IsServedFor :
    (claims : Option Claims) (from : Sender)
    → IsServedFor claims from (resolve_identity claims from).0 (resolve_identity claims from).1
resolve_identity-IsServedFor (some claims) from = (refl, refl)
resolve_identity-IsServedFor none from = (ground arith, ground arith)

-- What a POST that is answered with 201 has added.
pub record IsAddedFor (claims : Option Claims) (from : Sender) (req : ShortenRequest) (s s' : Site)
    : Type 0 where
  pub u : Url
  pub appended : s'.store.primary ≡ s.store.primary ++ u ∷ []
  pub served : IsServedFor claims from u.workspace_id u.created_by
  pub target : u.original_url ≡ req.original_url

shortened-IsAddedFor :
    (config : Config) (w : Outside) (d : Option DispatchOutside) (c : Context) (s : Site)
    (from : Sender) (req : ShortenRequest) (r : ShortenResponse)
    (res : Result AppErr (Created × Store))
    → handle config w (shorten_command (resolve_identity c.claims from) req) s.store ≡ res
    → (shortened d c s res).0 ≡ json 201 r
    → IsAddedFor c.claims from req s (shortened d c s res).1
shortened-IsAddedFor config w d c s from req r (err e) h k =
    absurd (shorten_error-ne-json c.path r e k)
shortened-IsAddedFor config w d c s from req r (ok (v, store)) h k =
    let identity = resolve_identity c.claims from in
    let (u, done) = handle-IsStored config w (shorten_command identity req) s.store store v h in
    record {
      u = u;
      appended =
          ap (λ (t : Store). t.primary)
            (dispatched-store d (created_event v) (record s { store = store }))
          ∙ done.appended;
      served =
          subst (λ (x : Url). IsServedFor c.claims from x.workspace_id x.created_by) (sym done.made)
            (resolve_identity-IsServedFor c.claims from);
      target = ap (λ (x : Url). x.original_url) done.made;
    }

-- A POST of a URL that is answered with 201 has added one row with the request's target: for a caller
-- with claims in their workspace and under their user; without claims in the workspace that the path,
-- else a header, else a default names, and under the user of another header or a default.
pub post_url-IsAddedFor :
    (config : Config) (w : Outside) (d : Option DispatchOutside) (c : Context) (from : Sender)
    (s : Site) (req : ShortenRequest) (r : ShortenResponse)
    → (post_url config w d c from s (some req)).0 ≡ json 201 r
    → IsAddedFor c.claims from req s (post_url config w d c from s (some req)).1
unfolding post_url
post_url-IsAddedFor config w d c from s req r h =
    shortened-IsAddedFor config w d c s from req r _ refl h
