-- ===== src/Handlers/Response.antt =====
-- internal/interfaces/http/response/response.go, and what the handlers share. Of a problem the type,
-- the status and the instance are kept; titles and details are left out.
use usp_cloud_native.Prelude.{ℕ, Str, Option, none, some, []}
use usp_cloud_native.Access.Claims.{Claims}
use usp_cloud_native.Audit.Event.{Event}

pub data ProblemType : Type 0 where
  validation_error not_found gone conflict unauthorized unauthenticated internal url_blocked :
      ProblemType

pub record Problem : Type 0 where
  pub problem_type : ProblemType
  pub status : ℕ
  pub instance_path : Str

-- What is written: a status with a value, a problem, or 204.
pub data Response {ℓ} (A : Type ℓ) : Type ℓ where
  json : ℕ → A → Response A
  problem : Problem → Response A
  no_content : Response A

abbrev pub status_of {ℓ} : {A : Type ℓ} → Response A → ℕ
status_of (json status a) = status
status_of (problem p) = p.status
status_of no_content = 204

module _ {ℓ} {A : Type ℓ} (path : Str) where
  abbrev pub write_problem : ProblemType → ℕ → Response A
  write_problem problem_type status =
      problem (record { problem_type = problem_type; status = status; instance_path = path })

  abbrev pub not_found_problem : Response A
  not_found_problem = write_problem not_found 404

  abbrev pub gone_problem : Response A
  gone_problem = write_problem gone 410

  abbrev pub conflict_problem : Response A
  conflict_problem = write_problem conflict 409

  abbrev pub internal_error : Response A
  internal_error = write_problem internal 500

  abbrev pub bad_request : Response A
  bad_request = write_problem validation_error 400

  abbrev pub unprocessable_entity : Response A
  unprocessable_entity = write_problem validation_error 422

-- Without claims; this one and that of a caller without permission name no instance.
abbrev pub unauthenticated_problem {ℓ} : {A : Type ℓ} → Response A
unauthenticated_problem = write_problem [] unauthenticated 401

abbrev pub forbidden_problem {ℓ} : {A : Type ℓ} → Response A
forbidden_problem = write_problem [] unauthorized 403

-- A request's context, its path and the pending event of its audit.
pub record Context : Type 0 where
  pub claims : Option Claims
  pub path : Str
  pub pending : Option Event

-- A handler for a caller with claims.
abbrev pub with_claims {ℓ κ} :
    {A : Type ℓ} {S : Type κ}
    → Context
    → S
    → (Claims → Response A × S × Option Event)
    → Response A × S × Option Event
with_claims c s handler = elim c.claims [
  | none ↦ (unauthenticated_problem, s, c.pending)
  | some claims ↦ handler claims
]

-- The body of a request, if it could be decoded.
abbrev pub with_body {ℓ κ} :
    {A : Type ℓ} {B : Type 0} {S : Type κ}
    → Context
    → S
    → Option B
    → (B → Response A × S × Option Event)
    → Response A × S × Option Event
with_body c s none handler = (bad_request c.path, s, c.pending)
with_body c s (some body) handler = handler body
