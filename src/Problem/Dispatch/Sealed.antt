-- ===== src/Problem/Dispatch/Sealed.antt =====
-- Every response that reports an error has an error status, and a known kind fixes the status.
use golang_postgres_starter.Base.{
  ℕ, zero, suc, ◌≤◌, Text, Bool, true, false, ◌||◌, leb, nat_eq, text_eq, else-eq-some, length,
  trim_space, Option, none, some, All, All-get_elem?, ◌≡◌, refl, ◌⊎◌, inl, inr, arith, Option-cases,
  if-both, Bool-cases,
}
use golang_postgres_starter.Base.{trim, trim_left}
use golang_postgres_starter.Problem.{
  ProblemKindId, internal, internal_definition, declared_definitions, definitions,
  ProblemKindDefinition, problem_definition, ProblemDetails, details, new,
}
use golang_postgres_starter.Problem.Errors.{GoError, as_challenge}
use golang_postgres_starter.Problem.Dispatch.{
  ProblemPlan, RequestLine, code_of, challenged, write_valid, write_problem_details, write_for,
  answer, dispatch_resolved_error, permits_challenge,
}
use golang_postgres_starter.Problem.Classify.{is_blank, valid_problem_details, internal_error}

abbrev IsSound : ProblemKindDefinition → Type 0
IsSound d =
    (400 ≤ d.status) × (d.status ≤ 599) × (is_blank d.type_uri ≡ false) × (is_blank d.title ≡ false)

declared_definitions-IsSound : All IsSound declared_definitions
unfolding is_blank trim_space trim trim_left
declared_definitions-IsSound = (
  (omega arith, omega arith, refl, refl),
  (
    (omega arith, omega arith, refl, refl),
    (
      (omega arith, omega arith, refl, refl),
      (
        (omega arith, omega arith, refl, refl),
        (
          (omega arith, omega arith, refl, refl),
          (
            (omega arith, omega arith, refl, refl),
            (
              (omega arith, omega arith, refl, refl),
              (
                (omega arith, omega arith, refl, refl),
                (
                  (omega arith, omega arith, refl, refl),
                  ((omega arith, omega arith, refl, refl), tt),
                ),
              ),
            ),
          ),
        ),
      ),
    ),
  ),
)

pub problem_definition-IsSound :
    (id : ProblemKindId) (d : ProblemKindDefinition) → problem_definition id ≡ some d → IsSound d
unfolding problem_definition
problem_definition-IsSound zero d e = cc
problem_definition-IsSound (suc i) d e =
    All-get_elem? IsSound declared_definitions i d declared_definitions-IsSound
      (else-eq-some (leb (suc i) 0 || leb (length definitions) (suc i)) _ d e)

abbrev pub IsErrorStatus : ℕ → Type 0
IsErrorStatus code = (400 ≤ code) × (code ≤ 599)

valid-IsErrorStatus : (p : ProblemDetails) → valid_problem_details p ≡ true → IsErrorStatus p.status
unfolding valid_problem_details
valid-IsErrorStatus p h = ground arith

module _ (encodes : ProblemDetails → Bool) where
  -- What is written has the problem's status, if that is an error status, or else 500.
  pub code-write :
      (p : ProblemDetails)
      → ((code_of (write_problem_details encodes p) ≡ p.status) × IsErrorStatus p.status)
        ⊎ (code_of (write_problem_details encodes p) ≡ 500)
  unfolding write_problem_details write_valid
  code-write p = elim (Bool-cases (valid_problem_details p)) [
    | inl ok ↦ elim (Bool-cases (encodes p)) [
      | inl e ↦ rw (ok, e) (inl (refl, valid-IsErrorStatus p ok))
      | inr e ↦ rw (ok, e) (inr refl)
    ]
    | inr bad ↦ elim (Bool-cases (encodes internal_error)) [
      | inl e ↦ rw (bad, e) (inr refl)
      | inr e ↦ rw (bad, e) (inr refl)
    ]
  ]

  write-IsErrorStatus :
      (p : ProblemDetails) → IsErrorStatus (code_of (write_problem_details encodes p))
  write-IsErrorStatus p = elim (code-write p) [
    | inl (same, h) ↦ rw same h
    | inr e ↦ rw e (omega arith, omega arith)
  ]

  write_for-IsErrorStatus :
      (r : Option RequestLine) (p : ProblemDetails)
      → IsErrorStatus (code_of (write_for encodes r p))
  unfolding write_for
  write_for-IsErrorStatus none p = write-IsErrorStatus p
  write_for-IsErrorStatus (some line) p = write-IsErrorStatus _

-- Whatever error is dispatched, under whatever plan, and whether or not JSON encoding succeeds, the
-- response has a status from 400 to 599.
pub dispatch-IsErrorStatus :
    (encodes : ProblemDetails → Bool) (r : Option RequestLine) (err : GoError)
    (plan : Option ProblemPlan) (typed fields : Bool)
    → IsErrorStatus (code_of (dispatch_resolved_error encodes r err plan typed fields))
unfolding dispatch_resolved_error
dispatch-IsErrorStatus encodes r err plan typed fields = by_challenge (as_challenge err)
  where
    by_challenge :
        (found : Option Text)
        → IsErrorStatus (code_of (answer encodes found r err plan typed fields))
    by_challenge none = write_for-IsErrorStatus encodes r _
    by_challenge (some c) =
        if-both (λ resp. IsErrorStatus (code_of resp)) (permits_challenge plan) (challenged c) _
          (omega arith, omega arith) (write_for-IsErrorStatus encodes r _)

pub problem_definition-internal : problem_definition internal ≡ some internal_definition
unfolding problem_definition
problem_definition-internal = refl

pub new-internal :
    (detail : Text) → new internal detail ≡ details internal_definition detail internal
unfolding new problem_definition
new-internal detail = refl

pub new-sealed :
    (id : ProblemKindId) (detail : Text) (d : ProblemKindDefinition)
    → problem_definition (new id detail).kind ≡ some d
    → (new id detail).status ≡ d.status
unfolding new
new-sealed id detail d h = elim (Option-cases (problem_definition id)) [
  | inl unknown ↦ ground (arith, problem_definition-internal)
  | inr (d', known) ↦ ground arith
]
