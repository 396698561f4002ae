-- ===== src/DbError.antt =====
-- internal/db/error.go: database errors as errors of the domain.
pub mod Meaning
mod Tests
use golang_postgres_starter.Base.{
  Text, codes, Bool, ◌||◌, if◌then◌else◌, ◌==◌, text_eq, Option, none, some,
}
use golang_postgres_starter.Problem.Errors.{
  GoError, sentinel, wrap, wrap_two, no_rows, not_found_row, already_exists, foreign_key_violation,
  database_error, is_error, as_pg_error,
}
use golang_postgres_starter.Problem.Classify.{unique_violation}
use golang_postgres_starter.Problem.Classify

-- The switch over the code.
unfoldable pub wrap_code : GoError → Text → GoError
wrap_code err code =
    if code == unique_violation
    then wrap_two (sentinel already_exists) err
    else if code == Classify.foreign_key_violation
    then wrap_two (sentinel foreign_key_violation) err
    else wrap_two (sentinel database_error) err

unfoldable pub wrap_found : GoError → Option Text → GoError
unfolding wrap_code
wrap_found err none = wrap (codes "unhandled error: ") err
wrap_found err (some code) = wrap_code err code

-- `WrapDBError` of an error that is not nil.
unfoldable pub wrap_db_error : GoError → GoError
unfolding wrap_found
wrap_db_error err =
    if is_error no_rows err
    then wrap_two (sentinel not_found_row) err
    else wrap_found err (as_pg_error err)

-- `IsNotFoundError`
unfoldable pub is_not_found_error : GoError → Bool
is_not_found_error err = is_error not_found_row err || is_error no_rows err

-- `IsAlreadyExistsError`
unfoldable pub is_already_exists_error : GoError → Bool
is_already_exists_error err = is_error already_exists err

-- `IsForeignKeyViolationError`
unfoldable pub is_foreign_key_violation_error : GoError → Bool
is_foreign_key_violation_error err = is_error foreign_key_violation err

-- `IsDatabaseError`
unfoldable pub is_database_error : GoError → Bool
is_database_error err = is_error database_error err
