-- ===== src/Problem/Dispatch/Tests.antt =====
-- Runs of the error dispatch, and its theorems at errors.
use golang_postgres_starter.Base.{
  Option, ℕ, codes, Bool, true, false, List, [], ◌∷◌, none, ◌≡◌, refl, trim_space, trim, trim_left,
  lookup,
}
use golang_postgres_starter.Problem.{
  ProblemKind, kind_of, not_found, internal, ProblemDetails, new, problem_definition,
  new_too_many_requests, is_valid,
}
use golang_postgres_starter.Problem.Errors.{
  GoError, problem, wrap, wrap_two, challenge, validation, sentinel, no_rows, pg_error, plain,
  nil_problem, as_problem, as_challenge, as_validation, as_pg_error, is_error,
}
use golang_postgres_starter.Problem.Dispatch.{
  ProblemPlan, new_problem_plan, plan_for, allow_all, allow, Body, challenged, code_of,
  dispatch_error, dispatch_adapter_error, dispatch_resolved_error, answer, write_for,
  write_problem_details, write_valid, choose, permits, permits_challenge, retry_after_header,
}
use golang_postgres_starter.Problem.Classify.{
  internal_error, error_to_problem_details, classify_database_error, seal, valid_problem_details,
  is_blank, classify_untyped,
}
use golang_postgres_starter.Problem.Dispatch.Sealed.{IsErrorStatus, dispatch-IsErrorStatus}
use golang_postgres_starter.Problem.Dispatch.Declared.{IsDeclared, dispatch_error-IsDeclared}
use golang_postgres_starter.Problem.Dispatch.Retry.{
  IsHeader, IsLimitReply, dispatch-wrap, dispatch-new_too_many_requests,
}

dispatching : Unit {0}
unfolding trim_space trim trim_left lookup new problem_definition as_problem as_challenge
    as_validation as_pg_error is_error new_too_many_requests allow_all allow dispatch_error
    dispatch_adapter_error dispatch_resolved_error answer write_for write_problem_details
    write_valid choose permits permits_challenge error_to_problem_details classify_database_error
    seal valid_problem_details is_blank retry_after_header classify_untyped is_valid
dispatching = tt

abbrev always : ProblemDetails → Bool
always _ = true

abbrev declared : List ProblemKind
declared = kind_of not_found ∷ []

abbrev missing : GoError
missing = wrap (codes "load") (sentinel no_rows)

-- A problem that was written by hand to lie about its status.
abbrev lying : ProblemDetails
lying = record (new not_found (codes "gone")) { status = 200; title = [] }

dispatch_tests :
    (new internal (codes "internal error") ≡ internal_error)
    × (code_of (dispatch_error always none missing (plan_for [] declared false)) ≡ 404)
    × (code_of (dispatch_error always none missing (plan_for [] [] false)) ≡ 500)
    × (code_of (dispatch_adapter_error always none (problem lying)) ≡ 404)
    × (code_of (dispatch_adapter_error always none (validation [])) ≡ 422)
    × (code_of (dispatch_error always none (validation []) (plan_for [] declared false)) ≡ 500)
    × (code_of (dispatch_adapter_error always none (pg_error (codes "23505"))) ≡ 409)
    × (code_of (dispatch_adapter_error always none (wrap_two (plain []) (problem lying))) ≡ 404)
    × (code_of (dispatch_adapter_error always none nil_problem) ≡ 500)
    × (dispatch_error always none (challenge (codes "Basic")) (plan_for [] [] true)
        ≡ challenged (codes "Basic"))
    × (code_of (dispatch_error always none (challenge (codes "Basic")) (plan_for [] [] false))
        ≡ 500)
unfolding dispatching
dispatch_tests = (refl, refl, refl, refl, refl, refl, refl, refl, refl, refl, refl)

dispatch-IsErrorStatus_example :
    IsErrorStatus (code_of (dispatch_resolved_error always none missing none false true))
dispatch-IsErrorStatus_example = dispatch-IsErrorStatus always none missing none false true

dispatch_error-IsDeclared_example :
    IsDeclared declared false missing
      (dispatch_error always none missing (plan_for (codes "GET /me") declared false))
dispatch_error-IsDeclared_example =
    dispatch_error-IsDeclared always none missing (codes "GET /me") declared false

dispatch-wrap_example :
    dispatch_resolved_error always none missing none true false
    ≡ dispatch_resolved_error always none (sentinel no_rows) none true false
dispatch-wrap_example = dispatch-wrap always none (codes "load") (sentinel no_rows) none true false

abbrev unlimited : ProblemPlan
unlimited = new_problem_plan (codes "load")

dispatch-new_too_many_requests_example :
    (header : Option ℕ) × (body : Body) × IsHeader 1_500_000_000 header
    × IsLimitReply always none unlimited
        (new_too_many_requests (codes "slow down") 1_500_000_000)
        header
        body
dispatch-new_too_many_requests_example =
    dispatch-new_too_many_requests always none unlimited (codes "slow down") 1_500_000_000
      (λ _. refl)
