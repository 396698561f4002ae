-- ===== src/DbError/Tests.antt =====
-- Wrapped errors, and the theorems at them.
use golang_postgres_starter.Base.{codes, Bool, true, false, ◌≡◌, refl}
use golang_postgres_starter.Problem.{ProblemDetails}
use golang_postgres_starter.Problem.Errors.{
  GoError, sentinel, wrap, wrap_two, pg_error, plain, no_rows, not_found_row, already_exists,
  is_error, as_pg_error,
}
use golang_postgres_starter.DbError.{wrap_db_error, is_already_exists_error}
use golang_postgres_starter.DbError.Meaning.{wrap_db_error-verdicts, verdicts}

abbrev always : ProblemDetails → Bool
always _ = true

abbrev repeated : GoError
repeated = wrap (codes "insert") (pg_error (codes "23505"))

wrap_db_error_tests :
    (wrap_db_error (sentinel no_rows) ≡ wrap_two (sentinel not_found_row) (sentinel no_rows))
    × (wrap_db_error repeated ≡ wrap_two (sentinel already_exists) repeated)
    × (is_already_exists_error (wrap_db_error repeated) ≡ true)
    × (wrap_db_error (plain (codes "x")) ≡ wrap (codes "unhandled error: ") (plain (codes "x")))
unfolding wrap_db_error is_already_exists_error is_error as_pg_error
wrap_db_error_tests = (refl, refl, refl, refl)

wrap_db_error-verdicts_example : verdicts (wrap_db_error repeated) ≡ (false, (true, (false, false)))
unfolding is_error as_pg_error
wrap_db_error-verdicts_example = wrap_db_error-verdicts repeated (refl, refl, refl, refl)
