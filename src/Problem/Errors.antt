-- ===== src/Problem/Errors.antt =====
-- internal/httpx/problem.go and the packages it reads: the errors of Go, what errors.Is and errors.As
-- find in them, and the results that carry them.
use golang_postgres_starter.Base.{
  or_else, ◌≢◌, ℕ, Text, Bool, false, ◌||◌, ◌==◌, nat_eq, text_eq, List, Option, none, some, ◌≡◌,
  refl, ◌⊎◌, inl, inr,
}
use golang_postgres_starter.Problem.{ProblemDetails}

-- What the validator package reports of one field.
pub record FieldError : Type 0 where
  pub field : Text
  pub tag : Text
  pub param : Text

-- The errors that are compared by identity: pgx.ErrNoRows and those of internal/db and
-- internal/jwt.
pub data Sentinel : Type 0 where
  no_rows not_found_row already_exists foreign_key_violation database_error : Sentinel
  invalid_token invalid_claims token_not_found : Sentinel

-- A Go error with what it wraps: a problem with a nil or another `Err`, a nil *ProblemDetails, a
-- challenge, the validator's errors, a sentinel, a PostgreSQL error by its code, an error of
-- another type, and fmt.Errorf with one and with two `%w`.
pub data GoError : Type 0 where
  problem : ProblemDetails → GoError
  problem_over : ProblemDetails → GoError → GoError
  nil_problem : GoError
  challenge : Text → GoError
  validation : List FieldError → GoError
  sentinel : Sentinel → GoError
  pg_error : Text → GoError
  plain : Text → GoError
  wrap : Text → GoError → GoError
  wrap_two : GoError → GoError → GoError

-- errors.As for a *ProblemDetails: the first one met in the wrapping tree, `some none` for a nil
-- pointer.
unfoldable pub as_problem : GoError → Option (Option ProblemDetails)
as_problem (problem p) = some (some p)
as_problem (problem_over p e) = some (some p)
as_problem nil_problem = some none
as_problem (wrap m e) = as_problem e
as_problem (wrap_two a b) = or_else (as_problem a) (as_problem b)
as_problem (challenge c) = none
as_problem (validation fs) = none
as_problem (sentinel s) = none
as_problem (pg_error c) = none
as_problem (plain m) = none

unfoldable pub as_challenge : GoError → Option Text
as_challenge (challenge c) = some c
as_challenge (problem_over p e) = as_challenge e
as_challenge (wrap m e) = as_challenge e
as_challenge (wrap_two a b) = or_else (as_challenge a) (as_challenge b)
as_challenge _ = none

unfoldable pub as_validation : GoError → Option (List FieldError)
as_validation (validation fs) = some fs
as_validation (problem_over p e) = as_validation e
as_validation (wrap m e) = as_validation e
as_validation (wrap_two a b) = or_else (as_validation a) (as_validation b)
as_validation _ = none

unfoldable pub as_pg_error : GoError → Option Text
as_pg_error (pg_error c) = some c
as_pg_error (problem_over p e) = as_pg_error e
as_pg_error (wrap m e) = as_pg_error e
as_pg_error (wrap_two a b) = or_else (as_pg_error a) (as_pg_error b)
as_pg_error _ = none

abbrev pub sentinel_index : Sentinel → ℕ
sentinel_index no_rows = 0
sentinel_index not_found_row = 1
sentinel_index already_exists = 2
sentinel_index foreign_key_violation = 3
sentinel_index database_error = 4
sentinel_index invalid_token = 5
sentinel_index invalid_claims = 6
sentinel_index token_not_found = 7

-- errors.Is for a sentinel.
unfoldable pub is_error : Sentinel → GoError → Bool
is_error s (sentinel t) = sentinel_index s == sentinel_index t
is_error s (problem_over p e) = is_error s e
is_error s (wrap m e) = is_error s e
is_error s (wrap_two a b) = is_error s a || is_error s b
is_error s _ = false

-- A value, or the error that a function returns in its place.
pub data Result {ℓ} (A : Type ℓ) : Type ℓ where
  ok : A → Result A
  failed : GoError → Result A

-- `if err != nil { return nil, f(err) }`
abbrev pub or_fail {ℓ κ} :
    {A : Type ℓ} {B : Type κ} → Result A → (GoError → GoError) → (A → Result B) → Result B
or_fail (ok a) f next = next a
or_fail (failed err) f next = failed (f err)

pub Result-cases {ℓ} :
    {A : Type ℓ} (m : Result A) → ((a : A) × (m ≡ ok a)) ⊎ ((err : GoError) × (m ≡ failed err))
Result-cases (ok a) = inl (a, refl)
Result-cases (failed err) = inr (err, refl)

-- Where an error comes from.
pub or_fail-failed {ℓ κ} :
    {A : Type ℓ} {B : Type κ} (m : Result A) (f : GoError → GoError) (next : A → Result B)
    {err : GoError}
    → or_fail m f next ≡ failed err
    → ((e : GoError) × (f e ≡ err)) ⊎ ((a : A) × (m ≡ ok a) × (next a ≡ failed err))
or_fail-failed (ok a) f next h = inr (a, refl, h)
or_fail-failed (failed e) f next h = inl (e, cc)

pub failed-injective {ℓ} :
    {A : Type ℓ} {e err : GoError} → ◌≡◌ {A = Result A} (failed e) (failed err) → e ≡ err
failed-injective h = cc

pub ok-injective {ℓ} : {A : Type ℓ} {a b : A} → ◌≡◌ {A = Result A} (ok a) (ok b) → a ≡ b
ok-injective h = cc

pub failed-ne-ok {ℓ} : {A : Type ℓ} {e : GoError} {a : A} → failed e ≢ ok a
failed-ne-ok h = cc
