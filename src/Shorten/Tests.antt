-- ===== src/Shorten/Tests.antt =====
-- The laws of the creation of a URL at concrete inputs.
use usp_cloud_native.Prelude.{
  false, length, ltb, if◌then◌else◌, none, ℕ, Str, codes, true, Option, none, some, [], ◌∷◌, ok,
  arith, ◌≡◌, refl, get_elem?, ◌==◌, if◌then◌else◌,
}
use usp_cloud_native.Errors.{PgErr, unique_violation}
use usp_cloud_native.Urls.Entity.{Url}
use usp_cloud_native.Urls.Store.{Store}
use usp_cloud_native.Shorten.{Created, Outside, handle}
use usp_cloud_native.Shorten.Generator.{generate}
use usp_cloud_native.Urls.Cache as Cache
use usp_cloud_native.Shorten.Generator.Laws.{letter, generate_total}
use usp_cloud_native.Shorten.Validation.{is_reserved}
use usp_cloud_native.Shorten.Laws.{IsStored, handle-IsStored}
use usp_cloud_native.Samples.{
  parse_https, link, other_link, store, config, generated_creation, calm,
}

abbrev first_seven : Str
first_seven = codes "abcdefg"

generate_run : generate 7 (λ i. some i) ≡ ok first_seven
unfolding generate
generate_run = refl

generate_total_example :
    (code : Str) × (generate 7 (λ i. some 61) ≡ ok code)
    × (length code ≡ 7)
    × ((j : ℕ) → get_elem? code j ≡ (if ltb j 7 then letter (some 61) else none))
generate_total_example = generate_total 7 (λ i. some 61) (λ j. (61, refl, omega arith))

-- The letters of a path of the system, drawn by chance.
abbrev or_zero : Option ℕ → ℕ
or_zero none = 0
or_zero (some n) = n

abbrev index : ℕ → ℕ
index i = or_zero (get_elem? (12 ∷ 4 ∷ 19 ∷ 17 ∷ 8 ∷ 2 ∷ 18 ∷ []) i)

metrics_drawn :
    (generate 7 (λ i. some (index i)) ≡ ok (codes "metrics"))
    × (is_reserved (codes "metrics") ≡ true)
unfolding generate is_reserved
metrics_drawn = (refl, refl)

-- A row for the code that the second attempt generates.
abbrev new_link : Url
new_link = record link {
  id = codes "01C";
  short_code = first_seven;
  original_url = codes "https://b.example";
  title = codes "B";
  created_at = 20;
  updated_at = 20;
}

abbrev answer : Created
answer = record {
  short_url = codes "https://s.example/abcdefg";
  short_code = first_seven;
  id = codes "01C";
  original_url = codes "https://b.example";
  workspace_id = codes "ws1";
  created_at = 20;
}

abbrev fault_at_first : ℕ → Option PgErr
fault_at_first attempt = if attempt == 1 then some unique_violation else none

-- The first insert collides, and the second succeeds.
abbrev retried : Outside
retried = record calm { insert_fault = fault_at_first }

abbrev stored : Store
stored = record store {
  primary = link ∷ other_link ∷ new_link ∷ [];
  cache = some (Cache.set false [] new_link 3600 20).1;
}

retried_run : handle config retried generated_creation store ≡ ok (answer, stored)
unfolding handle parse_https
retried_run = refl

handle-IsStored_example :
    (u : Url) × IsStored config retried generated_creation store stored answer u
handle-IsStored_example =
    handle-IsStored config retried generated_creation store stored answer retried_run
