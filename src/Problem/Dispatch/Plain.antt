-- ===== src/Problem/Dispatch/Plain.antt =====
-- A problem of a declared kind reaches the client as it is.
use golang_postgres_starter.Base.{
  Text, Bool, true, nat_eq, text_eq, contains, lookup, [], ◌∷◌, ◌++◌, none, some, ◌≡◌, refl, ◌∙◌,
  inl, inr, arith,
}
use golang_postgres_starter.Problem.{
  ProblemKindId, ProblemKindDefinition, problem_definition, ProblemDetails, details, new,
}
use golang_postgres_starter.Problem.Errors.{problem, as_problem, as_challenge}
use golang_postgres_starter.Problem.Dispatch.{
  ProblemPlan, permits, choose, RequestLine, reported, encoded, code_of, retry_after_header,
  write_valid, write_problem_details, write_for, dispatch_error,
}
use golang_postgres_starter.Problem.Classify.{
  valid_problem_details, seal, classify_problem, error_to_problem_details, internal_error,
}
use golang_postgres_starter.Problem.Dispatch.Sealed.{problem_definition-IsSound, code-write}

-- A problem as it is shown for a request.
abbrev pub shown_at : ProblemKindDefinition → ProblemKindId → Text → Text → ProblemDetails
shown_at d kind detail line = record (details d detail kind) { instance_of = line }

pub code_of-write :
    (encodes : ProblemDetails → Bool) (p : ProblemDetails)
    → p.status ≡ 500
    → code_of (write_problem_details encodes p) ≡ 500
code_of-write encodes p h = elim (code-write encodes p) [
  | inl (same, _) ↦ same ∙ h
  | inr internal_error ↦ internal_error
]

module _ (encodes : ProblemDetails → Bool) (kind : ProblemKindId) (d : ProblemKindDefinition)
    (known : problem_definition kind ≡ some d) (detail : Text) where
  shown_at-valid : (line : Text) → valid_problem_details (shown_at d kind detail line) ≡ true
  unfolding valid_problem_details
  shown_at-valid line = ground (arith, problem_definition-IsSound kind d known)

  written-details :
      (line : Text)
      → encodes (shown_at d kind detail line) ≡ true
      → write_problem_details encodes (shown_at d kind detail line)
        ≡ reported d.status none (encoded (shown_at d kind detail line))
  unfolding write_problem_details write_valid retry_after_header lookup
  written-details line ok = rw (shown_at-valid line, ok)

  unwritten-details :
      (line : Text)
      → encodes (shown_at d kind detail line) ≡ Bool.false
      → code_of (write_problem_details encodes (shown_at d kind detail line)) ≡ 500
  unfolding write_problem_details write_valid
  unwritten-details line bad = rw (shown_at-valid line, bad) refl

  seal-details : seal (details d detail kind) ≡ details d detail kind
  unfolding seal
  seal-details = rw (known, seal)

  classify-details :
      error_to_problem_details (problem (details d detail kind)) Bool.false
      ≡ record { details = details d detail kind; typed = true; kind = kind }
  unfolding error_to_problem_details as_problem classify_problem
  classify-details = rw (seal-details, shown_at-valid [])

  new-details : new kind detail ≡ details d detail kind
  unfolding new
  new-details = ground (arith, known)

  -- A new problem of a known kind that the plan allows is answered with the kind's status and
  -- carries its detail, if it can be encoded.
  pub dispatch_error-new :
      (line : RequestLine) (plan : ProblemPlan)
      → contains plan.allowed kind ≡ true
      → encodes (shown_at d kind detail (line.method ++ 0x20 ∷ line.path)) ≡ true
      → dispatch_error encodes (some line) (problem (new kind detail)) plan
        ≡ reported d.status none
            (encoded (shown_at d kind detail (line.method ++ 0x20 ∷ line.path)))
  unfolding dispatch_error as_challenge choose permits write_for
  dispatch_error-new line plan allowed ok =
      rw (new-details, classify-details, allowed)
        (written-details (line.method ++ 0x20 ∷ line.path) ok)

  -- If it cannot, the status is 500.
  pub dispatch_error-unencoded :
      (line : RequestLine) (plan : ProblemPlan)
      → contains plan.allowed kind ≡ true
      → encodes (shown_at d kind detail (line.method ++ 0x20 ∷ line.path)) ≡ Bool.false
      → code_of (dispatch_error encodes (some line) (problem (new kind detail)) plan) ≡ 500
  unfolding dispatch_error as_challenge choose permits write_for
  dispatch_error-unencoded line plan allowed bad =
      rw (new-details, classify-details, allowed)
        (unwritten-details (line.method ++ 0x20 ∷ line.path) bad)

  -- If the plan does not allow the kind, an internal error stands in for it.
  pub dispatch_error-undeclared :
      (line : RequestLine) (plan : ProblemPlan)
      → contains plan.allowed kind ≡ Bool.false
      → code_of (dispatch_error encodes (some line) (problem (new kind detail)) plan) ≡ 500
  unfolding dispatch_error as_challenge choose permits write_for
  dispatch_error-undeclared line plan undeclared =
      rw (new-details, classify-details, undeclared)
        (code_of-write encodes
          (record internal_error { instance_of = line.method ++ 0x20 ∷ line.path }) refl)
