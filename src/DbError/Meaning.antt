-- ===== src/DbError/Meaning.antt =====
-- What the wrapping of database errors keeps for the client, and what it adds for the callers.
use golang_postgres_starter.Base.{
  Text, codes, Bool, true, false, if◌then◌else◌, if-both, ◌==◌, text_eq, Option, none, some, ◌≡◌,
  refl, ap, inl, inr, Bool-cases,
}
use golang_postgres_starter.Problem.{ProblemDetails}
use golang_postgres_starter.Problem.Errors.{
  GoError, Sentinel, sentinel, wrap_two, no_rows, not_found_row, already_exists,
  foreign_key_violation, database_error, is_error, as_pg_error, as_problem, as_challenge,
  as_validation,
}
use golang_postgres_starter.Problem.Dispatch.{
  answer, write_for, choose, RequestLine, ProblemPlan, dispatch_resolved_error,
}
use golang_postgres_starter.Problem.Classify.{
  unique_violation, error_to_problem_details, classify_as, classify_rest, classify_untyped,
  classify_found, validation_problem, classify_database_error,
}
use golang_postgres_starter.Problem.Classify
use golang_postgres_starter.Problem.Dispatch.Retry.{dispatch-wrap}
use golang_postgres_starter.DbError.{
  wrap_found, wrap_db_error, is_not_found_error, is_already_exists_error,
  is_foreign_key_violation_error, is_database_error,
}

database-wrap_two :
    (s : Sentinel) (err : GoError)
    → is_error no_rows (sentinel s) ≡ false
    → classify_database_error (wrap_two (sentinel s) err) ≡ classify_database_error err
unfolding classify_database_error is_error as_pg_error
database-wrap_two s err h = rw h refl

untyped-wrap_two :
    (s : Sentinel) (err : GoError)
    → is_error no_rows (sentinel s) ≡ false
    → classify_untyped (wrap_two (sentinel s) err) ≡ classify_untyped err
unfolding classify_untyped
untyped-wrap_two s err h = ap classify_found (database-wrap_two s err h)

classify-wrap_two :
    (s : Sentinel) (err : GoError) (fields : Bool)
    → is_error no_rows (sentinel s) ≡ false
    → error_to_problem_details (wrap_two (sentinel s) err) fields
      ≡ error_to_problem_details err fields
unfolding error_to_problem_details as_problem
classify-wrap_two s err fields h = by_found (as_problem err)
  where
    rest :
        (fields : Bool)
        → classify_rest (wrap_two (sentinel s) err) fields ≡ classify_rest err fields
    rest true =
        unfold as_validation classify_rest in
        (ap (λ c. elim (as_validation err) [ some fields ↦ validation_problem fields | none ↦ c ])
          (untyped-wrap_two s err h))
    rest false = untyped-wrap_two s err h

    by_found :
        (found : Option (Option ProblemDetails))
        → classify_as found (wrap_two (sentinel s) err) fields ≡ classify_as found err fields
    by_found (some (some p)) = refl
    by_found (some none) = rest fields
    by_found none = rest fields

module _ (encodes : ProblemDetails → Bool) (r : Option RequestLine) (err : GoError)
    (plan : Option ProblemPlan) (typed fields : Bool) where
  abbrev SameResponse : GoError → Type 0
  SameResponse e =
      dispatch_resolved_error encodes r e plan typed fields
      ≡ dispatch_resolved_error encodes r err plan typed fields

  -- A sentinel of the domain in front leaves the response.
  dispatch-wrap_two :
      (s : Sentinel)
      → is_error no_rows (sentinel s) ≡ false
      → SameResponse (wrap_two (sentinel s) err)
  unfolding dispatch_resolved_error as_challenge
  dispatch-wrap_two s h = by_challenge (as_challenge err)
    where
      by_challenge :
          (found : Option Text)
          → answer encodes found r (wrap_two (sentinel s) err) plan typed fields
            ≡ answer encodes found r err plan typed fields
      by_challenge none =
          ap (λ c. write_for encodes r (choose plan typed c)) (classify-wrap_two s err fields h)
      by_challenge (some c) = refl

  wrap_found-SameResponse : (code : Option Text) → SameResponse (wrap_found err code)
  unfolding wrap_found is_error
  wrap_found-SameResponse none =
      dispatch-wrap encodes r (codes "unhandled error: ") err plan typed fields
  wrap_found-SameResponse (some code) =
      if-both SameResponse _ _ _ (dispatch-wrap_two already_exists refl) (
        if-both SameResponse _ _ _ (dispatch-wrap_two foreign_key_violation refl)
          (dispatch-wrap_two database_error refl))

  -- Wrapping a database error does not change what the client gets: the response to the wrapped
  -- error is that to the error itself, under every plan.
  pub wrap_db_error-response :
      dispatch_resolved_error encodes r (wrap_db_error err) plan typed fields
      ≡ dispatch_resolved_error encodes r err plan typed fields
  unfolding wrap_db_error is_error
  wrap_db_error-response =
      if-both SameResponse (is_error no_rows err) _ _ (dispatch-wrap_two not_found_row refl)
        (wrap_found-SameResponse (as_pg_error err))

-- An error that has not been wrapped yet.
abbrev pub IsFresh : GoError → Type 0
IsFresh err =
    (is_error not_found_row err ≡ false)
    × (is_error already_exists err ≡ false)
    × (is_error foreign_key_violation err ≡ false)
    × (is_error database_error err ≡ false)

-- What the callers' tests say.
abbrev pub verdicts : GoError → Bool × (Bool × (Bool × Bool))
verdicts err = (
  is_not_found_error err,
  (is_already_exists_error err, (is_foreign_key_violation_error err, is_database_error err)),
)

-- What they should say of an error with these findings.
abbrev pub expected : Bool → Option Text → Bool × (Bool × (Bool × Bool))
expected true code = (true, (false, (false, false)))
expected false none = (false, (false, (false, false)))
expected false (some code) =
    if code == unique_violation
    then (false, (true, (false, false)))
    else if code == Classify.foreign_key_violation
    then (false, (false, (true, false)))
    else (false, (false, (false, true)))

verdicts-wrap_found :
    (err : GoError) (code : Option Text)
    → IsFresh err
    → is_error no_rows err ≡ false
    → verdicts (wrap_found err code) ≡ expected false code
unfolding wrap_found is_not_found_error is_already_exists_error is_foreign_key_violation_error
    is_database_error is_error
verdicts-wrap_found err none (f0, f1, f2, f3) h = rw (f0, f1, f2, f3, h) refl
verdicts-wrap_found err (some code) (f0, f1, f2, f3) h =
    elim (Bool-cases (code == unique_violation)) [
      | inl unique ↦ rw (unique, f0, f2, f3, h) refl
      | inr other ↦ elim (Bool-cases (code == Classify.foreign_key_violation)) [
        | inl foreign ↦ rw (other, foreign, f0, f1, f3, h) refl
        | inr neither ↦ rw (other, neither, f0, f1, f2, h) refl
      ]
    ]

-- After wrapping, a fresh error is of one domain class at most: not found where it was
-- pgx.ErrNoRows, or else as the code of a PostgreSQL error says, and of none where it was neither.
pub wrap_db_error-verdicts :
    (err : GoError)
    → IsFresh err
    → verdicts (wrap_db_error err) ≡ expected (is_error no_rows err) (as_pg_error err)
wrap_db_error-verdicts err fresh = by_rows (is_error no_rows err) refl
  where
    by_rows :
        (rows : Bool)
        → is_error no_rows err ≡ rows
        → verdicts (wrap_db_error err) ≡ expected rows (as_pg_error err)
    by_rows true h =
        let (f0, f1, f2, f3) = fresh in
        unfold wrap_db_error is_not_found_error is_already_exists_error
          is_foreign_key_violation_error is_database_error is_error in
        (rw (h, f1, f2, f3) refl)
    by_rows false h =
        unfold wrap_db_error in (rw h (verdicts-wrap_found err (as_pg_error err) fresh h))
