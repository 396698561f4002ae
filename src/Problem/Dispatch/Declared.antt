-- ===== src/Problem/Dispatch/Declared.antt =====
-- The error contract is closed: a handler or a guard answers with what it declared, or with 500.
use golang_postgres_starter.Base.{
  ℕ, Text, codes, Bool, true, false, nat_eq, text_eq, List, [], ◌∷◌, contains, Option, none, some,
  ◌≡◌, refl, sym, ap, ◌∙◌, ◌⊎◌, inl, inr, arith, Option-cases, if-cases, Bool-cases, Any,
}
use golang_postgres_starter.Problem.{
  ProblemKindId, ProblemKindDefinition, problem_definition, ProblemKind, is_valid, status,
  ProblemDetails,
}
use golang_postgres_starter.Problem.Errors.{GoError, problem, as_problem, as_challenge}
use golang_postgres_starter.Problem.Dispatch.{
  ProblemPlan, new_problem_plan, allow, allow_all, plan_for, RequestLine, Response, challenged,
  reported, write_valid, write_problem_details, choose, write_for, answer, dispatch_error, permits,
  permits_challenge,
}
use golang_postgres_starter.Problem.Classify.{
  valid_problem_details, internal_error, classify_database_error, classify_untyped, classify_found,
  classify_as, error_to_problem_details,
}
use golang_postgres_starter.Problem.Dispatch.Sealed.{new-internal}
use golang_postgres_starter.Problem.Classify.Sealed.{HasStatusOf, error_to_problem_details-sealed}

-- A permitted kind is a declared one, and known.
contains-allow_all :
    (p : ProblemPlan) (kinds : List ProblemKind) (id : ProblemKindId)
    → contains (allow_all p kinds).allowed id ≡ true
    → (contains p.allowed id ≡ true) ⊎ Any (λ k. (k.id ≡ id) × (is_valid k ≡ true)) kinds
unfolding allow_all allow
contains-allow_all p [] id h = inl h
contains-allow_all p (k ∷ kinds) id h = elim (Bool-cases (is_valid k)) [
  | inl ok ↦
      let later =
        contains-allow_all (record p { allowed = k.id ∷ p.allowed }) kinds id
          (rw (ok, contains) at h) in
      ground arith
  | inr unknown ↦
      let later = contains-allow_all p kinds id (rw (unknown, contains) at h) in ground arith
]

-- A declared kind, and the status that the kind has.
abbrev pub IsStatusOf : ℕ → ProblemKind → Type 0
IsStatusOf code k = (is_valid k ≡ true) × (status k ≡ code)

-- What a response may be under a plan: the challenge of the error where challenges are declared,
-- the status of a declared kind, or 500.
abbrev pub IsDeclared : List ProblemKind → Bool → GoError → Response → Type 0
IsDeclared kinds challenge err (challenged c) = (challenge ≡ true) × (as_challenge err ≡ some c)
IsDeclared kinds challenge err (reported code retry body) =
    (code ≡ 500) ⊎ Any (IsStatusOf code) kinds

status_of_valid :
    (k : ProblemKind)
    → is_valid k ≡ true
    → (d : ProblemKindDefinition) × (problem_definition k.id ≡ some d) × (status k ≡ d.status)
unfolding is_valid status
status_of_valid k ok = elim (Option-cases (problem_definition k.id)) [
  | inl unknown ↦ absurd (ground arith)
  | inr (d, known) ↦ (d, known, ground arith)
]

Any-IsStatusOf :
    (kinds : List ProblemKind) (id : ProblemKindId) (p : ProblemDetails)
    → HasStatusOf p id
    → Any (λ k. (k.id ≡ id) × (is_valid k ≡ true)) kinds
    → Any (IsStatusOf p.status) kinds
Any-IsStatusOf [] id p h a = a
Any-IsStatusOf (k ∷ kinds) id p h (inl (same, ok)) =
    let (d, known, same_status) = status_of_valid k ok in
    inl (ok, same_status ∙ sym (h d (ap problem_definition (sym same) ∙ known)))
Any-IsStatusOf (k ∷ kinds) id p h (inr a) = inr (Any-IsStatusOf kinds id p h a)

IsDeclared-write :
    (encodes : ProblemDetails → Bool) (kinds : List ProblemKind) (challenge : Bool) (err : GoError)
    (p : ProblemDetails)
    → (p.status ≡ 500) ⊎ Any (IsStatusOf p.status) kinds
    → IsDeclared kinds challenge err (write_problem_details encodes p)
unfolding write_problem_details write_valid
IsDeclared-write encodes kinds challenge err p h = elim (Bool-cases (valid_problem_details p)) [
  | inl ok ↦ elim (Bool-cases (encodes p)) [ inl e ↦ rw (ok, e) h | inr e ↦ rw (ok, e) (inl refl) ]
  | inr bad ↦ elim (Bool-cases (encodes internal_error)) [
    | inl e ↦ rw (bad, e) (inl refl)
    | inr e ↦ rw (bad, e) (inl refl)
  ]
]

-- What nothing classified is an internal error.
error_to_problem_details-untyped :
    (err : GoError)
    → (error_to_problem_details err false).typed ≡ false
    → (error_to_problem_details err false).details.status ≡ 500
unfolding error_to_problem_details classify_untyped
error_to_problem_details-untyped err = by_found (as_problem err)
  where
    by_database :
        (found : Option ProblemDetails)
        → (classify_found found).typed ≡ false
        → (classify_found found).details.status ≡ 500
    by_database none h = ground (arith, new-internal (codes "An unexpected error occurred"))
    by_database (some p) h = cc

    by_found :
        (found : Option (Option ProblemDetails))
        → (classify_as found err false).typed ≡ false
        → (classify_as found err false).details.status ≡ 500
    by_found (some (some p)) h = ground arith
    by_found (some none) h = by_database (classify_database_error err) h
    by_found none h = by_database (classify_database_error err) h

module _ (label : Text) (kinds : List ProblemKind) (challenge : Bool) where
  choose-declared :
      (err : GoError)
      → let p =
          choose
            (some (plan_for label kinds challenge))
            true
            (error_to_problem_details err false) in
        (p.status ≡ 500) ⊎ Any (IsStatusOf p.status) kinds
  unfolding choose permits
  choose-declared err =
      let c = error_to_problem_details err false in
      let plan = plan_for label kinds challenge in
      elim (Bool-cases c.typed) [
        | inl typed ↦ elim (Bool-cases (contains plan.allowed c.kind)) [
          | inl ok ↦
              rw (typed, ok)
                (elim (contains-allow_all (new_problem_plan label) kinds c.kind ok) [
                  | inl h ↦ absurd (ground arith)
                  | inr a ↦ inr (
                      Any-IsStatusOf kinds c.kind c.details (error_to_problem_details-sealed err) a)
                ])
          | inr bad ↦ rw (typed, bad) (inl refl)
        ]
        | inr untyped ↦ rw untyped (inl (error_to_problem_details-untyped err untyped))
      ]

  write_for-IsDeclared :
      (encodes : ProblemDetails → Bool) (r : Option RequestLine) (err shown : GoError)
      → IsDeclared kinds challenge shown (
          write_for encodes r (
            choose
              (some (plan_for label kinds challenge))
              true
              (error_to_problem_details err false)))
  unfolding write_for
  write_for-IsDeclared encodes none err shown =
      IsDeclared-write encodes kinds challenge shown _ (choose-declared err)
  write_for-IsDeclared encodes (some line) err shown =
      IsDeclared-write encodes kinds challenge shown _ (choose-declared err)

-- A handler or a guard with declared kinds answers an error with the status of a declared kind or
-- with 500, and with a challenge only where it declares challenges, and then the error's own.
pub dispatch_error-IsDeclared :
    (encodes : ProblemDetails → Bool) (r : Option RequestLine) (err : GoError) (label : Text)
    (kinds : List ProblemKind) (challenge : Bool)
    → IsDeclared kinds challenge err (dispatch_error encodes r err (plan_for label kinds challenge))
unfolding dispatch_error permits_challenge
dispatch_error-IsDeclared encodes r err label kinds challenge = by_challenge (as_challenge err) refl
  where
    by_challenge :
        (found : Option Text)
        → as_challenge err ≡ found
        → IsDeclared kinds challenge err
            (answer encodes found r err (some (plan_for label kinds challenge)) true false)
    by_challenge none e = write_for-IsDeclared label kinds challenge encodes r err err
    by_challenge (some c) e =
        if-cases (IsDeclared kinds challenge err) challenge (challenged c) _ (λ ok. (ok, e))
          (λ _. write_for-IsDeclared label kinds challenge encodes r (problem internal_error) err)
