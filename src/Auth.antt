-- ===== src/Auth.antt =====
-- internal/api/auth and internal/db/sqlc/users.sql.go: the users, and registration, login and
-- refresh over them.
pub mod Registered
pub mod Outcome
pub mod Shown
pub mod Denial
pub mod Session
pub mod Users
mod Tests
use golang_postgres_starter.Base.{
  ℕ, Text, codes, Bool, true, false, if◌then◌else◌, List, [], ◌∷◌, Option, none, some,
}
use golang_postgres_starter.Strconv.{ℤ}
use golang_postgres_starter.Problem.{
  ProblemKind, kind_of, described, new, unauthorized, conflict, not_found, internal,
}
use golang_postgres_starter.Problem.Errors.{GoError, problem, Result, ok, failed, or_fail}
use golang_postgres_starter.DbError.{wrap_db_error, is_already_exists_error, is_not_found_error}
use golang_postgres_starter.Password.{
  Argon2, default_config, hash_password, compare_password_and_hash,
}
use golang_postgres_starter.Response.{Reply, reply_with, done}
use golang_postgres_starter.Token.{Tokens, Jwt, JwtService, issue_token_pair}
use golang_postgres_starter.Token.Guards.{Request, parse_claims_ctx}
use golang_postgres_starter.Auth.Users.{
  AuthUser, Database, find_user, repository_get_user_details, create_admin,
}

pub record RegisterRequest : Type 0 where
  pub email : Text
  pub password : Text

pub record LoginRequest : Type 0 where
  pub identity : Text
  pub password : Text

-- The response's view of a user has no password.
pub record UserResponse : Type 0 where
  pub id : ℤ
  pub email : Text
  pub email_verified : Bool
  pub phone : Text
  pub phone_verified : Bool
  pub role : Text
  pub created_at : ℕ
  pub updated_at : ℕ

unfoldable pub user_response : AuthUser → UserResponse
user_response user = record {
  id = user.id;
  email = user.email;
  email_verified = user.email_verified;
  phone = user.phone;
  phone_verified = user.phone_verified;
  role = user.role;
  created_at = user.created_at;
  updated_at = user.updated_at;
}

abbrev pub refuse : {A : Type 0} → ℕ → Text → Result A
refuse kind message = failed (problem (new kind message))

abbrev pub invalid_credentials : {A : Type 0} → Result A
invalid_credentials = refuse unauthorized (codes "invalid credentials")

-- What becomes of an error of the insertion.
unfoldable pub register_outcome : Option GoError → Option GoError
register_outcome none = none
register_outcome (some err) =
    if is_already_exists_error (wrap_db_error err)
    then some (problem (new conflict (codes "a user with this identity already exists")))
    else some (problem (new internal (codes "could not register user")))

-- Behind the hash of the password; `none` is the panic of the key derivation.
unfoldable pub register_hashed :
    Database → RegisterRequest → Option (Result Text) → Option (Database × Option GoError)
unfolding register_outcome
register_hashed db user none = none
register_hashed db user (some (failed err)) =
    some (db, some (problem (new internal (codes "could not register user"))))
register_hashed db user (some (ok hashed)) =
    let (after, err) = create_admin db user.email hashed in some (after, register_outcome err)

-- The error of `Me`.
unfoldable pub me_error : GoError → GoError
me_error err =
    if is_not_found_error (wrap_db_error err)
    then problem (new not_found (codes "user does not exist"))
    else problem (new internal (codes "could not load user"))

-- `service.RegisterAdmin`; `random` draws the salt.
unfoldable pub register_admin :
    Argon2 → (ℕ → Result (List ℕ)) → Database → RegisterRequest → Option (Database × Option GoError)
unfolding register_hashed
register_admin argon random db user =
    register_hashed db user (hash_password argon random default_config user.password)

-- `service.Me`
unfoldable pub me : Database → Text → Result AuthUser
unfolding me_error
me db identity = or_fail (repository_get_user_details db identity) me_error ok

abbrev pub reply_of : {A B : Type 0} → Text → (A → B) → Result A → Result (Reply B)
reply_of message f (failed err) = failed err
reply_of message f (ok a) = ok (reply_with message (f a))

-- The identity that the claims of the context name.
unfoldable pub identity_of : Request → Result Text
identity_of r =
    or_fail (parse_claims_ctx r)
      (λ err. problem (new unauthorized (codes "authentication required")))
      λ (claims, uid). ok claims.subject

-- `Handler.Me`
unfoldable pub handle_me : Database → Request → Result (Reply UserResponse)
handle_me db r =
    or_fail (identity_of r) (λ err. err)
      λ identity.
        reply_of (codes "User details fetched successfully") user_response (me db identity)

abbrev pub registered : Option GoError → Result (Reply (Unit {0}))
registered (some err) = failed err
registered none = ok (done (codes "User registered successfully"))

-- What the handler does with what the service returns.
unfoldable pub reply_to_register :
    Option (Database × Option GoError) → Option (Database × Result (Reply (Unit {0})))
reply_to_register none = none
reply_to_register (some (db, err)) = some (db, registered err)

-- `Handler.RegisterAdmin`
unfoldable pub handle_register :
    Argon2
    → (ℕ → Result (List ℕ))
    → Database
    → RegisterRequest
    → Option (Database × Result (Reply (Unit {0})))
unfolding register_admin reply_to_register
handle_register argon random db user = reply_to_register (register_admin argon random db user)

module _ {S V : Type 0} (lib : Jwt S V) (j : JwtService S V) where
  -- `service.issueTokens` at a time.
  unfoldable pub issue_tokens : ℕ → AuthUser → Result Tokens
  issue_tokens now user =
      or_fail (issue_token_pair lib j user.id user.email user.role now)
        (λ err. problem (new internal (codes "could not issue tokens"))) ok

  -- `service.Refresh` at a time.
  unfoldable pub refresh : ℕ → Database → Text → Result Tokens
  unfolding issue_tokens
  refresh now db identity =
      or_fail (find_user db identity)
        (λ err. problem (new unauthorized (codes "refresh token is no longer valid")))
        (issue_tokens now)

  -- `Handler.Refresh`
  unfoldable pub handle_refresh : ℕ → Database → Request → Result (Reply Tokens)
  handle_refresh now db r =
      or_fail (identity_of r) (λ err. err)
        λ identity.
          reply_of (codes "Token refreshed successfully") (λ tokens. tokens)
            (refresh now db identity)

module _ {S V : Type 0} (argon : Argon2) (lib : Jwt S V) (j : JwtService S V) where
  -- Behind the comparison of the password.
  unfoldable pub login_compared : ℕ → AuthUser → Option (Result Bool) → Option (Result Tokens)
  unfolding issue_tokens
  login_compared now user none = none
  login_compared now user (some (failed err)) =
      some (refuse internal (codes "could not authenticate"))
  login_compared now user (some (ok false)) = some invalid_credentials
  login_compared now user (some (ok true)) = some (issue_tokens lib j now user)

  -- Behind the lookup of the identity.
  unfoldable pub login_found : ℕ → Text → Result AuthUser → Option (Result Tokens)
  unfolding login_compared
  login_found now password (failed err) = some invalid_credentials
  login_found now password (ok user) =
      login_compared now user (compare_password_and_hash argon password user.password)

  -- `service.Login` at a time; `none` is the panic of the key derivation.
  unfoldable pub login : ℕ → Database → LoginRequest → Option (Result Tokens)
  unfolding login_found
  login now db credentials =
      login_found now credentials.password (find_user db credentials.identity)

  -- `Handler.Login`
  unfoldable pub handle_login : ℕ → Database → LoginRequest → Option (Result (Reply Tokens))
  unfolding login
  handle_login now db credentials = elim (login now db credentials) [
    | none ↦ none
    | some r ↦ some (reply_of (codes "Login successful") (λ tokens. tokens) r)
  ]

-- The problems that `Routes` declares for its operations, with their descriptions.
abbrev pub login_problems : List ProblemKind
login_problems = described (kind_of unauthorized) (codes "The credentials are invalid") ∷ []

abbrev pub register_problems : List ProblemKind
register_problems =
    described (kind_of conflict) (codes "A user with this identity already exists") ∷ []

abbrev pub me_problems : List ProblemKind
me_problems = described (kind_of not_found) (codes "The authenticated user no longer exists") ∷ []

abbrev pub refresh_problems : List ProblemKind
refresh_problems = described (kind_of unauthorized) (codes "The refresh identity is invalid") ∷ []
