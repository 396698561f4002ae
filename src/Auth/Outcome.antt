-- ===== src/Auth/Outcome.antt =====
-- The outcomes of a login.
use golang_postgres_starter.Base.{
  ℕ, codes, Bool, true, false, nat_eq, text_eq, Option, none, some, ◌≡◌, refl, ◌⊎◌, inl, inr,
}
use golang_postgres_starter.Problem.{internal}
use golang_postgres_starter.Problem.Errors.{GoError, Result, Result-cases, ok, failed}
use golang_postgres_starter.Password.{Argon2, compare_password_and_hash}
use golang_postgres_starter.Token.{Tokens, Jwt, JwtService, issue_token_pair}
use golang_postgres_starter.Auth.Users.{AuthUser, Database, find_user}
use golang_postgres_starter.Auth.{
  LoginRequest, invalid_credentials, refuse, issue_tokens, login_compared, login_found, login,
}

module _ {S V : Type 0} (argon : Argon2) (lib : Jwt S V) (j : JwtService S V) (now : ℕ)
    (db : Database) (credentials : LoginRequest) where
  -- The identity is not found, or the password is not that of the user.
  abbrev pub IsUnknown : Type 0
  IsUnknown =
      ((err : GoError) × (find_user db credentials.identity ≡ failed err))
      ⊎ ((user : AuthUser) × (find_user db credentials.identity ≡ ok user)
          × (compare_password_and_hash argon credentials.password user.password ≡ some (ok false)))

  -- The outcomes of a login.
  pub data LoginOutcome : Option (Result Tokens) → Type 0 where
    granted :
        (user : AuthUser) (tokens : Tokens)
        → find_user db credentials.identity ≡ ok user
        → compare_password_and_hash argon credentials.password user.password ≡ some (ok true)
        → issue_token_pair lib j user.id user.email user.role now ≡ ok tokens
        → LoginOutcome (some (ok tokens))
    denied : IsUnknown → LoginOutcome (some invalid_credentials)
    unreadable :
        (user : AuthUser) (err : GoError)
        → find_user db credentials.identity ≡ ok user
        → compare_password_and_hash argon credentials.password user.password ≡ some (failed err)
        → LoginOutcome (some (refuse internal (codes "could not authenticate")))
    unsigned :
        (user : AuthUser) (err : GoError)
        → find_user db credentials.identity ≡ ok user
        → compare_password_and_hash argon credentials.password user.password ≡ some (ok true)
        → issue_token_pair lib j user.id user.email user.role now ≡ failed err
        → LoginOutcome (some (refuse internal (codes "could not issue tokens")))
    panicked :
        (user : AuthUser)
        → find_user db credentials.identity ≡ ok user
        → compare_password_and_hash argon credentials.password user.password ≡ none
        → LoginOutcome none

  compared_outcome :
      (user : AuthUser)
      → find_user db credentials.identity ≡ ok user
      → (compared : Option (Result Bool))
      → compare_password_and_hash argon credentials.password user.password ≡ compared
      → LoginOutcome (login_compared argon lib j now user compared)
  unfolding login_compared issue_tokens
  compared_outcome user found none e = panicked user found e
  compared_outcome user found (some (failed err)) e = unreadable user err found e
  compared_outcome user found (some (ok false)) e = denied (inr (user, found, e))
  compared_outcome user found (some (ok true)) e =
      elim (Result-cases (issue_token_pair lib j user.id user.email user.role now)) [
        | inl (tokens, issued) ↦ rw issued (granted user tokens found e issued)
        | inr (err, failing) ↦ rw failing (unsigned user err found e failing)
      ]

  -- A login has one of these outcomes: tokens for the user of the identity, whose stored hash the
  -- password matches; the one error of invalid credentials, the same whether the identity is
  -- unknown or the password wrong; an internal error, where the stored hash cannot be read or the
  -- tokens not be signed; or the panic of the key derivation on a stored hash.
  pub login-LoginOutcome : LoginOutcome (login argon lib j now db credentials)
  unfolding login login_found
  login-LoginOutcome = elim (Result-cases (find_user db credentials.identity)) [
    | inl (user, found) ↦ rw found (compared_outcome user found _ refl)
    | inr (err, lost) ↦ rw lost (denied (inl (err, lost)))
  ]
