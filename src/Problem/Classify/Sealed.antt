-- ===== src/Problem/Classify/Sealed.antt =====
-- Every problem that an error is classified as has the status of its kind.
use golang_postgres_starter.Base.{
  Text, codes, true, false, nat_eq, text_eq, Option, none, some, ◌≡◌, inl, inr, arith, if-both,
  Bool-cases,
}
use golang_postgres_starter.Problem.{
  ProblemKindId, ProblemKindDefinition, problem_definition, ProblemDetails,
}
use golang_postgres_starter.Problem.Errors.{GoError, as_problem, as_pg_error, is_error, no_rows}
use golang_postgres_starter.Problem.Classify.{
  valid_problem_details, describe_code, classify_code, classify_database_error, seal,
  classify_problem, classify_untyped, classify_found, classify_as, error_to_problem_details,
}
use golang_postgres_starter.Problem.Dispatch.Sealed.{
  new-sealed, problem_definition-internal, new-internal,
}

-- The status is that of the kind, where the kind is known.
abbrev pub HasStatusOf : ProblemDetails → ProblemKindId → Type 0
HasStatusOf p kind =
    (d : ProblemKindDefinition) → problem_definition kind ≡ some d → p.status ≡ d.status

classify_problem-sealed :
    (p : ProblemDetails) → HasStatusOf (classify_problem p).details (classify_problem p).kind
unfolding classify_problem
classify_problem-sealed p d e = elim (Bool-cases (valid_problem_details (seal p))) [
  | inl ok ↦ seal_lem ok
  | inr bad ↦ ground (arith, problem_definition-internal)
]
  where
    seal_lem :
        valid_problem_details (seal p) ≡ true → (classify_problem p).details.status ≡ d.status
    seal_lem ok = rw ok (ground arith)

abbrev IsSealed : ProblemDetails → Type 0
IsSealed p = HasStatusOf p p.kind

classify_code-IsSealed : (code : Text) → IsSealed (classify_code code)
unfolding classify_code
classify_code-IsSealed code = new-sealed (describe_code code).0 (describe_code code).1

abbrev EachIsSealed : Option ProblemDetails → Type 0
EachIsSealed none = Unit
EachIsSealed (some p) = IsSealed p

classify_database_error-IsSealed : (err : GoError) → EachIsSealed (classify_database_error err)
unfolding classify_database_error
classify_database_error-IsSealed err =
    if-both EachIsSealed (is_error no_rows err) _ _ (new-sealed _ _) (by_code (as_pg_error err))
  where
    by_code :
        (found : Option Text)
        → EachIsSealed (elim found [ none ↦ none | some code ↦ some (classify_code code) ])
    by_code none = tt
    by_code (some code) = classify_code-IsSealed code

classify_found-sealed :
    (found : Option ProblemDetails)
    → EachIsSealed found
    → HasStatusOf (classify_found found).details (classify_found found).kind
unfolding classify_found
classify_found-sealed none h d e =
    ground (arith, problem_definition-internal, new-internal (codes "An unexpected error occurred"))
classify_found-sealed (some p) h d e = h d e

pub error_to_problem_details-sealed :
    (err : GoError)
    → HasStatusOf
        (error_to_problem_details err false).details
        (error_to_problem_details err false).kind
unfolding error_to_problem_details classify_untyped
error_to_problem_details-sealed err = by_found (as_problem err)
  where
    by_found :
        (found : Option (Option ProblemDetails))
        → HasStatusOf (classify_as found err false).details (classify_as found err false).kind
    by_found (some (some p)) = classify_problem-sealed p
    by_found (some none) = classify_found-sealed _ (classify_database_error-IsSealed err)
    by_found none = classify_found-sealed _ (classify_database_error-IsSealed err)
