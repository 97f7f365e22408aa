-- ===== src/Shorten/Laws.antt =====
-- What the use case promises, on success and where it gives up.
use usp_cloud_native.Prelude.{
  ℕ, Str, is_empty, Bool, true, false, Option, none, some, [], ◌∷◌, ◌++◌, any, ok, err, >>=-eq-ok,
  Result-cases, arith, ◌≡◌, ◌↔◌, refl, ◌∙◌, Bool-cases, ◌⊎◌, inl, inr,
}
use usp_cloud_native.Errors.{short_code_conflict}
use usp_cloud_native.Urls.Entity.{Url, validate}
use usp_cloud_native.Urls.Repository.{collides, row_ok}
use usp_cloud_native.Urls.Repository.Invariant.{IsValid, IsValid-append, create-eq-ok}
use usp_cloud_native.Urls.Cache.{Redis, json, to_cache_entry, expiry, positive_key, redis_set, set}
use usp_cloud_native.Urls.Store.{Store}
use usp_cloud_native.Shorten.{
  Command, Created, Config, Outside, max_retries, draft, persist, choose_code, warm, created,
  handle,
}
use usp_cloud_native.Shorten.Validation.{validate_url, validate_custom_code}
use usp_cloud_native.Shorten.Validation.Laws.{validate_custom_code_iff}
use usp_cloud_native.Shorten.Generator.Laws.{IsSafe}
use usp_cloud_native.Shorten.Attempts.{
  AllCollided, persist-IsInserted, persist-custom, persist-gives_up,
}

-- The cache after a write of a URL: where there is a cache and the command is not lost, the URL's key is
-- bound to its document until the lifetime ends.
abbrev pub written_to : (lost : Bool) → Option Redis → Url → (ttl_seconds now : ℕ) → Option Redis
written_to lost none u ttl_seconds now = none
written_to true (some c) u ttl_seconds now = some c
written_to false (some c) u ttl_seconds now =
    some (
      redis_set c (positive_key u.short_code) (json (to_cache_entry u now))
        (expiry ttl_seconds now))

warm-written_to :
    (config : Config) (w : Outside) (cmd : Command) (cache : Option Redis) (lost : Bool) (u : Url)
    → w.set_lost ≡ lost
    → warm config w cmd cache u ≡ written_to lost cache u config.cache_ttl w.now
unfolding set
warm-written_to config w cmd none lost u h = refl
warm-written_to config w cmd (some c) true u h = rw h refl
warm-written_to config w cmd (some c) false u h = rw h refl

module _ (config : Config) (w : Outside) (cmd : Command) where
  choose_code-eq-ok :
      (code : Str)
      → choose_code config w cmd ≡ ok code
      → (is_empty cmd.custom_code ≡ true) × (code ≡ [])
        ⊎ (validate_custom_code cmd.custom_code ≡ ok tt) × (code ≡ cmd.custom_code)
  unfolding choose_code
  choose_code-eq-ok code h = elim (Bool-cases (is_empty cmd.custom_code)) [
    | inl e ↦ inl (e, ground arith)
    | inr e ↦ elim (Result-cases (validate_custom_code cmd.custom_code)) [
      | inl (_, valid) ↦ inr (valid, ground arith)
      | inr (_, invalid) ↦ absurd (ground arith)
    ]
  ]

  choose_code-IsSafe : (code : Str) → choose_code config w cmd ≡ ok code → IsSafe code
  choose_code-IsSafe code h = elim (choose_code-eq-ok code h) [
    | inl (_, empty) ↦ rw empty refl
    | inr (valid, same) ↦ rw same ((validate_custom_code_iff cmd.custom_code).0 valid).safe
  ]

  -- What a successful call leaves behind: the row `u`, which is the command's, and the answer.
  pub record IsStored (s s' : Store) (r : Created) (u : Url) : Type 0 where
    pub appended : s'.primary ≡ s.primary ++ u ∷ []
    pub fits : row_ok u ≡ true
    pub fresh : any (collides u) s.primary ≡ false
    pub made : u ≡ record (draft w cmd) { short_code = u.short_code }
    pub valid : validate w.parse_request_uri u ≡ ok tt
    pub web : validate_url w.parse_request_uri cmd.original_url ≡ ok tt
    pub safe : IsSafe u.short_code
    pub custom : is_empty cmd.custom_code ≡ false → u.short_code ≡ cmd.custom_code
    pub answer : r ≡ created config w cmd u
    pub unreplicated : s'.replica ≡ s.replica
    pub warmed : s'.cache ≡ written_to w.set_lost s.cache u config.cache_ttl w.now

  -- A successful call has checked the command, appended exactly one row, which is the command's
  -- under a new and safe short code (the custom one if there is one), answered with that row, and, where
  -- there is a cache and the command is not lost, bound the row's key in the cache to its document.
  pub handle-IsStored :
      (s s' : Store) (r : Created)
      → handle config w cmd s ≡ ok (r, s')
      → (u : Url) × IsStored s s' r u
  unfolding handle
  handle-IsStored s s' r h =
      let (_, web, h₁) = >>=-eq-ok (validate_url w.parse_request_uri cmd.original_url) _ h in
      let (code, chosen, h₂) = >>=-eq-ok (choose_code config w cmd) _ h₁ in
      let (p, kept, h₃) = >>=-eq-ok (persist config w cmd max_retries 1 code s.primary) _ h₂ in
      let stored =
        persist-IsInserted config w cmd max_retries 1 code s.primary p.1 p.0
          (choose_code-IsSafe code chosen) kept in
      let (same, fits, fresh) = create-eq-ok _ s.primary p.0 stored.inserted in
      (
        p.0,
        record {
          appended = ground arith;
          fits = fits;
          fresh = fresh;
          made = stored.made;
          valid = stored.valid;
          web = web;
          safe = stored.safe;
          custom = λ given. elim (choose_code-eq-ok code chosen) [
            | inl (empty, _) ↦ absurd (ground arith)
            | inr (_, same_code) ↦
                persist-custom config w cmd max_retries 1 code s.primary p.1 p.0 given
                  (ground arith) kept
                ∙ same_code
          ];
          answer = ground arith;
          unreplicated = ground arith;
          warmed = ground arith ∙ warm-written_to config w cmd s.cache w.set_lost p.0 refl;
        },
      )

  -- A successful call keeps the constraints of the table.
  pub handle-IsValid :
      (s s' : Store) (r : Created)
      → IsValid s.primary
      → handle config w cmd s ≡ ok (r, s')
      → IsValid s'.primary
  handle-IsValid s s' r v h =
      let (u, stored) = handle-IsStored s s' r h in
      rw stored.appended (IsValid-append s.primary u v stored.fits stored.fresh)

  -- Without a custom code, and with a URL that is accepted, the call ends in a conflict exactly when
  -- each of the three generated codes was taken.
  pub handle_gives_up_iff :
      (s : Store)
      → is_empty cmd.custom_code ≡ true
      → validate_url w.parse_request_uri cmd.original_url ≡ ok tt
      → (handle config w cmd s ≡ err short_code_conflict) ↔ AllCollided config w cmd s.primary 3 1
  unfolding handle choose_code
  handle_gives_up_iff s custom web =
      let (to, from) = persist-gives_up config w cmd 3 1 s.primary custom in
      (
        (λ h. to (elim (Result-cases (persist config w cmd 3 1 [] s.primary)) [
          | inl (r, e) ↦ absurd (ground arith)
          | inr (x, e) ↦ ground arith
        ])),
        (λ c. ground (arith, from c)),
      )
