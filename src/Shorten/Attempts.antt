-- ===== src/Shorten/Attempts.antt =====
-- The loop over the attempts to insert.
use usp_cloud_native.Prelude.{
  ℕ, zero, suc, ◌+◌, Str, is_empty, true, false, [], ◌∷◌, ok, err, >>=-eq-ok, Result-cases, arith,
  ◌≡◌, refl, inl, inr, sym, ◌∙◌, ◌↔◌,
}
use usp_cloud_native.Errors.{UrlErr, short_code_conflict, is_conflict}
use usp_cloud_native.Urls.Entity.{Url, validate}
use usp_cloud_native.Urls.Repository.{Table, create}
use usp_cloud_native.Shorten.{Command, Config, Outside, draft, pick_code, validated, persist}
use usp_cloud_native.Shorten.Generator.{generate}
use usp_cloud_native.Shorten.Generator.Laws.{IsSafe, generate-eq-ok, generate-eq-err}

module _ (config : Config) (w : Outside) (cmd : Command) where
  pick_code-IsSafe :
      (attempt : ℕ) (code code' : Str)
      → IsSafe code
      → pick_code config w cmd attempt code ≡ ok code'
      → IsSafe code'
  unfolding pick_code
  pick_code-IsSafe attempt [] code' safe h =
      (generate-eq-ok config.code_length (w.draw attempt) code' h).1
  pick_code-IsSafe attempt (c ∷ code) code' safe h = ground arith

  -- The row that an attempt has inserted into `t`.
  pub record IsInserted (t t' : Table) (u : Url) : Type 0 where
    pub attempt : ℕ
    pub inserted : create (w.insert_fault attempt) t u ≡ ok t'
    pub valid : validate w.parse_request_uri u ≡ ok tt
    pub made : u ≡ record (draft w cmd) { short_code = u.short_code }
    pub safe : IsSafe u.short_code

  validated-eq-ok :
      (u u' : Url)
      → validated config w cmd u ≡ ok u'
      → (u ≡ u') × (validate w.parse_request_uri u ≡ ok tt)
  validated-eq-ok u u' h = elim (Result-cases (validate w.parse_request_uri u)) [
    | inl (tt', e) ↦ (ground arith, ground arith)
    | inr (e, bad) ↦ absurd (ground arith)
  ]

  -- A loop that succeeds has inserted its row.
  pub persist-IsInserted :
      (left attempt : ℕ) (code : Str) (t t' : Table) (u : Url)
      → IsSafe code
      → persist config w cmd left attempt code t ≡ ok (u, t')
      → IsInserted t t' u
  unfolding persist
  persist-IsInserted zero attempt code t t' u safe h = absurd (ground arith)
  persist-IsInserted (suc left) attempt code t t' u safe h =
      let (code', picked, h₁) = >>=-eq-ok (pick_code config w cmd attempt code) _ h in
      let u₁ = record (draft w cmd) { short_code = code' } in
      let (u', valid, h₂) = >>=-eq-ok (validated config w cmd u₁) _ h₁ in
      let (same, fits) = validated-eq-ok u₁ u' valid in
      elim (Result-cases (create (w.insert_fault attempt) t u')) [
        | inl (t'', inserted) ↦ record {
          attempt = attempt;
          inserted = ground arith;
          valid = ground arith;
          made = ground arith;
          safe = ground (arith, pick_code-IsSafe attempt code code' safe picked);
        }
        | inr (e, failed) ↦ persist-IsInserted left (attempt + 1) [] t t' u refl (ground arith)
      ]

  -- A custom code is the one that is inserted.
  pub persist-custom :
      (left attempt : ℕ) (code : Str) (t t' : Table) (u : Url)
      → is_empty cmd.custom_code ≡ false
      → is_empty code ≡ false
      → persist config w cmd left attempt code t ≡ ok (u, t')
      → u.short_code ≡ code
  unfolding persist pick_code
  persist-custom zero attempt code t t' u custom given h = absurd (ground arith)
  persist-custom (suc left) attempt [] t t' u custom given h = absurd (ground arith)
  persist-custom (suc left) attempt (c ∷ code) t t' u custom given h =
      let u₁ = record (draft w cmd) { short_code = c ∷ code } in
      let (u', valid, h₂) = >>=-eq-ok (validated config w cmd u₁) _ h in
      let (same, fits) = validated-eq-ok u₁ u' valid in ground arith

  -- An attempt whose generated code the table refuses as taken.
  pub record Collided (t : Table) (attempt : ℕ) : Type 0 where
    pub code : Str
    pub generated : generate config.code_length (w.draw attempt) ≡ ok code
    pub valid : validate w.parse_request_uri (record (draft w cmd) { short_code = code }) ≡ ok tt
    pub refused :
        create (w.insert_fault attempt) t (record (draft w cmd) { short_code = code })
        ≡ err UrlErr.conflict

  abbrev pub AllCollided : Table → ℕ → ℕ → Type 0
  AllCollided t zero attempt = Unit
  AllCollided t (suc left) attempt = Collided t attempt × AllCollided t left (attempt + 1)

  persist_of_Collided :
      (left attempt : ℕ) (t : Table)
      → is_empty cmd.custom_code ≡ true
      → Collided t attempt
      → persist config w cmd (suc left) attempt [] t ≡ persist config w cmd left (attempt + 1) [] t
  unfolding persist pick_code is_conflict
  persist_of_Collided left attempt t custom c = ground (arith, c.generated, c.valid, c.refused)

  Collided-of_persist :
      (left attempt : ℕ) (t : Table)
      → is_empty cmd.custom_code ≡ true
      → persist config w cmd (suc left) attempt [] t ≡ err short_code_conflict
      → Collided t attempt
  unfolding persist pick_code is_conflict
  Collided-of_persist left attempt t custom h =
      elim (Result-cases (generate config.code_length (w.draw attempt))) [
        | inl (code, generated) ↦
            let u = record (draft w cmd) { short_code = code } in
            elim (Result-cases (validate w.parse_request_uri u)) [
              | inl (_, valid) ↦ elim (Result-cases (create (w.insert_fault attempt) t u)) [
                | inl (t', inserted) ↦ absurd (ground arith)
                | inr (e, refused) ↦ record {
                  code = code;
                  generated = generated;
                  valid = ground arith;
                  refused = ground arith;
                }
              ]
              | inr (e, invalid) ↦ absurd (ground arith)
            ]
        | inr (e, failed) ↦
            absurd (ground (arith, generate-eq-err config.code_length (w.draw attempt) e failed))
      ]

  -- Without a custom code the loop gives up exactly when every attempt left has collided.
  pub persist-gives_up :
      (left attempt : ℕ) (t : Table)
      → is_empty cmd.custom_code ≡ true
      → (persist config w cmd left attempt [] t ≡ err short_code_conflict)
        ↔ AllCollided t left attempt
  unfolding persist
  persist-gives_up zero attempt t custom = (λ h. tt, λ h. refl)
  persist-gives_up (suc left) attempt t custom =
      let (to, from) = persist-gives_up left (attempt + 1) t custom in
      (
        (λ h.
            let c = Collided-of_persist left attempt t custom h in
            (c, to (sym (persist_of_Collided left attempt t custom c) ∙ h))),
        (λ c. persist_of_Collided left attempt t custom c.0 ∙ from c.1),
      )
