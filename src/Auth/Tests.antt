-- ===== src/Auth/Tests.antt =====
-- Runs of the sessions' operations, and their theorems there.
use golang_postgres_starter.Base.{
  ℕ, ◌*◌, Text, codes, Bool, true, false, ◌==◌, text_eq, List, [], ◌∷◌, map, Option, none, some,
  ◌≡◌, refl, arith, ◌⊎◌, ◌↔◌, Any, to_lower,
}
use golang_postgres_starter.Strconv.{pos}
use golang_postgres_starter.Problem.{ProblemDetails, new, unauthorized, second}
use golang_postgres_starter.Problem.Errors.{
  GoError, sentinel, no_rows, problem, Result, ok, failed, pg_error, is_error, as_pg_error,
}
use golang_postgres_starter.Problem.Dispatch.{RequestLine, code_of, dispatch_error}
use golang_postgres_starter.Problem.Classify.{unique_violation}
use golang_postgres_starter.DbError.{wrap_db_error, is_already_exists_error, is_not_found_error}
use golang_postgres_starter.Guard.{Guard}
use golang_postgres_starter.Password.Toy.{toy}
use golang_postgres_starter.Token.{JwtService}
use golang_postgres_starter.Token.Guards.{Request, parse_claims_ctx}
use golang_postgres_starter.Token.Written.{written}
use golang_postgres_starter.Auth.Users.{
  admin_columns, missing_column, AuthUser, Database, first_row, get_user, find_user, new_admin,
  create_admin, create_admin_user, update_verification_status,
}
use golang_postgres_starter.Auth.Users.Integrity.{
  IsIntact, verified, update_verification_status-rows,
}
use golang_postgres_starter.Auth.{
  RegisterRequest, LoginRequest, register_outcome, register_admin, identity_of, handle_me, login,
  handle_register, handle_login, handle_refresh, register_problems, login_problems,
  refresh_problems, me_problems,
}
use golang_postgres_starter.Auth.Outcome.{LoginOutcome, login-LoginOutcome}
use golang_postgres_starter.Auth.Shown.{operation_plan, IsShown}
use golang_postgres_starter.Auth.Denial.{handlers-IsShown, handle_me-masked}

abbrev service : JwtService (Unit {0}) (Unit {0})
service = record {
  private_key = tt;
  public_key = tt;
  access_time = 900 * second;
  refresh_time = 36000 * second;
  clock_skew = 10 * second;
}

abbrev salt : List ℕ
salt = 1 ∷ 2 ∷ 3 ∷ 4 ∷ 5 ∷ 6 ∷ 7 ∷ 8 ∷ 9 ∷ 10 ∷ 11 ∷ 12 ∷ 13 ∷ 14 ∷ 15 ∷ 16 ∷ []

abbrev draw : ℕ → Result (List ℕ)
draw n = ok salt

abbrev alice : AuthUser
alice = record {
  id = pos 1;
  email = codes "alice@x";
  email_verified = false;
  phone = [];
  phone_verified = false;
  password = codes "not a hash";
  role = codes "admin";
  created_at = 5;
  updated_at = 5;
}

-- A verdict that refuses an email that is taken.
abbrev is_taken : List AuthUser → AuthUser → Option GoError
is_taken [] u = none
is_taken (v ∷ users) u = elim (v.email == u.email) [
  | true ↦ some (pg_error unique_violation)
  | false ↦ is_taken users u
]

abbrev database : Database
database = record {
  columns = codes "id" ∷ admin_columns;
  users = alice ∷ [];
  next_id = 2;
  now = 9;
  fault = none;
  no_column = λ column. pg_error (codes "42703");
  verdict = is_taken;
}

abbrev bob : RegisterRequest
bob = record { email = codes "Bob@x"; password = codes "secret12" }

auth_runs : Unit {0}
unfolding missing_column register_admin create_admin create_admin_user new_admin to_lower login
    find_user get_user first_row handle_me identity_of register_outcome wrap_db_error
    is_already_exists_error is_not_found_error is_error as_pg_error handle_login handle_refresh
auth_runs = tt

unknown_identity :
    login toy written service 9 database
      (record { identity = codes "eve@x"; password = codes "secret12" })
    ≡ some (failed (problem (new unauthorized (codes "invalid credentials"))))
unfolding auth_runs
unknown_identity = refl

login-LoginOutcome_example :
    LoginOutcome toy written service 9 database
      (record { identity = codes "eve@x"; password = codes "secret12" })
      (login toy written service 9 database
        (record { identity = codes "eve@x"; password = codes "secret12" }))
login-LoginOutcome_example =
    login-LoginOutcome toy written service 9 database
      (record { identity = codes "eve@x"; password = codes "secret12" })

handlers-IsShown_example :
    ((user : RegisterRequest) (after : Database) (err : GoError)
      → handle_register toy draw database user ≡ some (after, failed err)
      → IsShown (codes "auth") register_problems err)
    × ((credentials : LoginRequest) (err : GoError)
        → handle_login toy written service 9 database credentials ≡ some (failed err)
        → IsShown (codes "auth") login_problems err)
    × ((r : Request) (err : GoError)
        → handle_refresh written service 9 database r ≡ failed err
        → IsShown (codes "auth") refresh_problems err)
    × ((r : Request) (identity : Text) (err : GoError)
        → identity_of r ≡ ok identity
        → handle_me database r ≡ failed err
        → IsShown (codes "auth") me_problems err)
handlers-IsShown_example = handlers-IsShown toy draw written service 9 database (codes "auth")

abbrev always : ProblemDetails → Bool
always p = true

always_total : (p : ProblemDetails) → always p ≡ true
always_total p = refl

abbrev line : RequestLine
line = record { method = codes "GET"; path = codes "/me" }

abbrev request : Request
request = record { line = line; authorization = []; claims = none }

lost : identity_of request ≡ failed (problem (new unauthorized (codes "authentication required")))
unfolding identity_of parse_claims_ctx
lost = refl

handle_me-masked_example :
    (err : GoError) × (handle_me database request ≡ failed err)
    × (err ≡ problem (new unauthorized (codes "authentication required")))
    × (code_of
          (dispatch_error always (some line) err (operation_plan (codes "GET /me") me_problems))
        ≡ 500)
handle_me-masked_example =
    handle_me-masked written service 9 database (codes "GET /me") always request line
      (problem (new unauthorized (codes "authentication required"))) lost

alice-IsIntact : IsIntact database
unfolding to_lower
alice-IsIntact = record {
  lower_emails = (refl, tt);
  given_ids = (omega arith, tt);
  distinct_ids = (tt, tt);
  next_pos = omega arith;
}

update_verification_status-rows_example :
    let (after, err) = update_verification_status database (pos 1) true false in
    (after.users ≡ map (verified 9 true false (pos 1)) database.users)
    × ((err ≡ none) ↔ Any (λ u. u.id ≡ pos 1) database.users)
    × ((err ≡ none) ⊎ (err ≡ some (sentinel no_rows)))
    × IsIntact after
update_verification_status-rows_example =
    update_verification_status-rows database (pos 1) true false alice-IsIntact refl
