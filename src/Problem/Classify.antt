-- ===== src/Problem/Classify.antt =====
-- internal/httpx/problem.go: which problem an error is.
pub mod Sealed
use golang_postgres_starter.Base.{
  Text, codes, Bool, true, false, not, ◌&&◌, ◌||◌, leb, ◌==◌, nat_eq, text_eq, List, [], ◌∷◌, ◌++◌,
  trim_space, if◌then◌else◌, Option, none, some,
}
use golang_postgres_starter.Problem.{
  details, internal_definition, ProblemKindId, bad_request, not_found, conflict,
  unprocessable_entity, internal, problem_definition, ProblemDetails, new, errors, ValidationError,
}
use golang_postgres_starter.Problem.Errors.{
  FieldError, no_rows, GoError, as_problem, as_validation, as_pg_error, is_error,
}

unfoldable pub is_blank : Text → Bool
is_blank s = trim_space s == []

unfoldable pub valid_problem_details : ProblemDetails → Bool
unfolding is_blank
valid_problem_details p =
    leb 400 p.status && leb p.status 599 && not (is_blank p.type_uri) && not (is_blank p.title)

-- Internal().New("internal error")
abbrev pub internal_error : ProblemDetails
internal_error = details internal_definition (codes "internal error") internal

-- pgerrcode's constants.
abbrev pub unique_violation : Text
unique_violation = codes "23505"

abbrev pub foreign_key_violation : Text
foreign_key_violation = codes "23503"

-- The switch over the PostgreSQL codes: the kind and the detail of each.
unfoldable pub describe_code : Text → ProblemKindId × Text
describe_code code =
    if code == unique_violation
    then (conflict, codes "A resource with this information already exists")
    else if code == foreign_key_violation
    then (bad_request, codes "Invalid reference to another resource")
    else if code == codes "23514" || code == codes "23502"
    then (bad_request, codes "The request violates data constraints")
    else if code == codes "22P02" || code == codes "22001" || code == codes "22003"
    then (bad_request, codes "A value in the request is invalid or out of range")
    else (internal, codes "A database error occurred")

unfoldable pub classify_code : Text → ProblemDetails
unfolding describe_code
classify_code code = let (kind, detail) = describe_code code in new kind detail

unfoldable pub classify_database_error : GoError → Option ProblemDetails
unfolding classify_code
classify_database_error err =
    if is_error no_rows err
    then some (new not_found (codes "The requested resource was not found"))
    else elim (as_pg_error err) [ none ↦ none | some code ↦ some (classify_code code) ]

unfoldable pub format_validation_message : FieldError → Text
format_validation_message e =
    if e.tag == codes "required"
    then e.field ++ codes " is required"
    else if e.tag == codes "email"
    then e.field ++ codes " must be a valid email address"
    else if e.tag == codes "min"
    then e.field ++ codes " must be at least " ++ e.param ++ codes " characters"
    else if e.tag == codes "max"
    then e.field ++ codes " must not exceed " ++ e.param ++ codes " characters"
    else e.field ++ codes " is invalid"

unfoldable pub format_validation_errors : List FieldError → List ValidationError
unfolding format_validation_message
format_validation_errors [] = []
format_validation_errors (e ∷ es) =
    record { field = e.field; message = format_validation_message e } ∷ format_validation_errors es

-- The result of `errorToProblemDetails`.
pub record Classified : Type 0 where
  pub details : ProblemDetails
  pub typed : Bool
  pub kind : ProblemKindId

-- A problem of a known kind gets the kind's own type, title and status.
unfoldable pub seal : ProblemDetails → ProblemDetails
seal p = elim (problem_definition p.kind) [
  | none ↦ p
  | some d ↦ record p { type_uri = d.type_uri; title = d.title; status = d.status }
]

unfoldable pub classify_problem : ProblemDetails → Classified
unfolding seal
classify_problem p =
    if valid_problem_details (seal p)
    then record { details = seal p; typed = true; kind = p.kind }
    else record { details = internal_error; typed = true; kind = internal }

unfoldable pub validation_problem : List FieldError → Classified
unfolding format_validation_errors
validation_problem fields =
    let p = new unprocessable_entity (codes "One or more fields are invalid") in
    record {
      details = record p {
        extensions = (codes "errors", errors (format_validation_errors fields)) ∷ [];
      };
      typed = false;
      kind = unprocessable_entity;
    }

-- The database error, if there is one, or else the generic problem.
unfoldable pub classify_found : Option ProblemDetails → Classified
classify_found (some p) = record { details = p; typed = true; kind = p.kind }
classify_found none = record {
  details = new internal (codes "An unexpected error occurred");
  typed = false;
  kind = internal;
}

unfoldable pub classify_untyped : GoError → Classified
unfolding classify_found
classify_untyped err = classify_found (classify_database_error err)

unfoldable pub classify_rest : GoError → Bool → Classified
unfolding classify_untyped validation_problem
classify_rest err false = classify_untyped err
classify_rest err true = elim (as_validation err) [
  | some fields ↦ validation_problem fields
  | none ↦ classify_untyped err
]

-- By what errors.As finds: nothing, a nil pointer, or a problem.
unfoldable pub classify_as : Option (Option ProblemDetails) → GoError → Bool → Classified
classify_as (some (some p)) err classify_validation = classify_problem p
classify_as (some none) err classify_validation = classify_rest err classify_validation
classify_as none err classify_validation = classify_rest err classify_validation

unfoldable pub error_to_problem_details : GoError → Bool → Classified
unfolding classify_as classify_rest classify_problem
error_to_problem_details err classify_validation =
    classify_as (as_problem err) err classify_validation
