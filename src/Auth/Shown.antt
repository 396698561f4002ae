-- ===== src/Auth/Shown.antt =====
-- The errors of the service, as the routes show them.
use golang_postgres_starter.Base.{
  some-injective, ℕ, Text, codes, Bool, true, nat_eq, text_eq, contains, List, ◌∷◌, ◌++◌, Option,
  none, some, subst, ◌≡◌, refl, inl, inr, Bool-cases,
}
use golang_postgres_starter.Problem.{
  ProblemKind, ProblemKindId, ProblemKindDefinition, problem_definition, kind_of, described,
  is_valid, ProblemDetails, new, unauthorized, conflict, not_found, internal,
}
use golang_postgres_starter.Problem.Errors.{
  GoError, problem, Result, or_fail-failed, failed-injective, ok, failed,
}
use golang_postgres_starter.Problem.Dispatch.{
  RequestLine, reported, encoded, ProblemPlan, new_problem_plan, allow, allow_all, dispatch_error,
}
use golang_postgres_starter.Problem.Dispatch.Plain.{shown_at, dispatch_error-new}
use golang_postgres_starter.DbError.{wrap_db_error, is_already_exists_error, is_not_found_error}
use golang_postgres_starter.Password.{Argon2}
use golang_postgres_starter.Token.{Tokens, Jwt, JwtService, issue_token_pair}
use golang_postgres_starter.Response.{Reply}
use golang_postgres_starter.Auth.Users.{
  AuthUser, Database, find_user, repository_get_user_details, create_admin,
}
use golang_postgres_starter.Auth.{
  RegisterRequest, LoginRequest, me, me_error, register_outcome, register_hashed, reply_of,
  registered, reply_to_register, issue_tokens, refresh, login_problems, register_problems,
  me_problems, refresh_problems,
}
use golang_postgres_starter.Auth.Outcome.{
  LoginOutcome, granted, denied, unreadable, unsigned, panicked,
}

-- The plan of an operation with such problems: `compileProblemPlan`.
abbrev pub operation_plan : Text → List ProblemKind → ProblemPlan
operation_plan label problems =
    allow_all (allow (new_problem_plan label) (kind_of internal)) problems

-- The error is a problem of a kind with a message, and the response shows this kind and this
-- message, under the status of the kind.
pub record IsShown (label : Text) (problems : List ProblemKind) (err : GoError) : Type 0 where
  pub kind : ProblemKindId
  pub message : Text
  pub itself : err ≡ problem (new kind message)
  pub definition : ProblemKindDefinition
  pub known : problem_definition kind ≡ some definition
  pub shown :
      (encodes : ProblemDetails → Bool) (total : (q : ProblemDetails) → encodes q ≡ true)
      (line : RequestLine)
      → dispatch_error encodes (some line) err (operation_plan label problems)
        ≡ reported definition.status none
            (encoded (shown_at definition kind message (line.method ++ 0x20 ∷ line.path)))

pub IsShown-new :
    (label : Text) (problems : List ProblemKind) (kind : ProblemKindId) (message : Text)
    (d : ProblemKindDefinition)
    → problem_definition kind ≡ some d
    → contains (operation_plan label problems).allowed kind ≡ true
    → IsShown label problems (problem (new kind message))
IsShown-new label problems kind message d known allowed = record {
  kind = kind;
  message = message;
  itself = refl;
  definition = d;
  known = known;
  shown = λ encodes total line.
      dispatch_error-new encodes kind d known message line (operation_plan label problems) allowed
        (total (shown_at d kind message (line.method ++ 0x20 ∷ line.path)));
}

unfoldable pub plan_runs : Unit {0}
unfolding allow_all allow is_valid problem_definition described
plan_runs = tt

-- The problems of an operation, and always the internal one.
pub IsShown-internal :
    (label : Text) (problems : List ProblemKind) (message : Text)
    → contains (operation_plan label problems).allowed internal ≡ true
    → IsShown label problems (problem (new internal message))
unfolding problem_definition
IsShown-internal label problems message allowed =
    IsShown-new label problems internal message _ refl allowed

pub some-result :
    {A : Type 0} {a b : Result A} → ◌≡◌ {A = Option (Result A)} (some a) (some b) → a ≡ b
some-result h = cc

pub some_failed :
    {A : Type 0} {e err : GoError}
    → ◌≡◌ {A = Option (Result A)} (some (failed e)) (some (failed err))
    → e ≡ err
some_failed h = cc

pub pair_registered :
    {db after : Database} {a b : Result (Reply (Unit {0}))}
    → ◌≡◌ {A = Option (Database × Result (Reply (Unit {0})))} (some (db, a)) (some (after, b))
    → a ≡ b
pair_registered h = cc

pub registered-failed :
    (found : Option GoError) {err : GoError} → registered found ≡ failed err → found ≡ some err
registered-failed none h = cc
registered-failed (some e) h = cc

pub reply_of-failed :
    {A B : Type 0} (message : Text) (f : A → B) (m : Result A) {err : GoError}
    → reply_of message f m ≡ failed err
    → m ≡ failed err
reply_of-failed message f (failed e) h = cc
reply_of-failed message f (ok a) h = cc

module _ {S V : Type 0} (lib : Jwt S V) (j : JwtService S V) (now : ℕ) (db : Database)
    (label : Text) where
  pub issue_tokens-IsShown :
      (problems : List ProblemKind) (user : AuthUser) (err : GoError)
      → contains (operation_plan label problems).allowed internal ≡ true
      → issue_tokens lib j now user ≡ failed err
      → IsShown label problems err
  unfolding issue_tokens
  issue_tokens-IsShown problems user err allowed h =
      elim (or_fail-failed (issue_token_pair lib j user.id user.email user.role now)
        (λ e. problem (new internal (codes "could not issue tokens"))) ok h) [
          | inl (e, same) ↦
              subst (IsShown label problems) same (IsShown-internal label problems _ allowed)
          | inr (tokens, issued, bad) ↦ absurd (cc)
        ]

  -- The errors of a registration.
  pub register_outcome-IsShown :
      (found : Option GoError) (err : GoError)
      → register_outcome found ≡ some err
      → IsShown label register_problems err
  unfolding plan_runs register_outcome
  register_outcome-IsShown none err h = cc
  register_outcome-IsShown (some e) err h =
      elim (Bool-cases (is_already_exists_error (wrap_db_error e))) [
        | inl exists ↦
            subst (IsShown label register_problems)
              (some-injective _ _ (rw (exists, register_outcome) at h))
              (IsShown-new label register_problems conflict
                (codes "a user with this identity already exists") _ refl refl)
        | inr other ↦
            subst (IsShown label register_problems)
              (some-injective _ _ (rw (other, register_outcome) at h))
              (IsShown-internal label register_problems (codes "could not register user") refl)
      ]

  pub register-IsShown :
      (user : RegisterRequest) (hashed : Option (Result Text)) (after : Database) (err : GoError)
      → reply_to_register (register_hashed db user hashed) ≡ some (after, failed err)
      → IsShown label register_problems err
  unfolding reply_to_register register_hashed plan_runs
  register-IsShown user none after err h = cc
  register-IsShown user (some (failed e)) after err h =
      subst (IsShown label register_problems) (failed-injective (pair_registered h))
        (IsShown-internal label register_problems (codes "could not register user") refl)
  register-IsShown user (some (ok hash)) after err h =
      let (after', outcome) = create_admin db user.email hash in
      register_outcome-IsShown outcome err
        (registered-failed (register_outcome outcome) (pair_registered h))

  pub login-IsShown :
      (argon : Argon2) (credentials : LoginRequest) (r : Option (Result Tokens)) (err : GoError)
      → LoginOutcome argon lib j now db credentials r
      → r ≡ some (failed err)
      → IsShown label login_problems err
  unfolding plan_runs
  login-IsShown argon credentials _ err (granted user tokens _ _ _) h = cc
  login-IsShown argon credentials _ err (denied _) h =
      subst (IsShown label login_problems) (some_failed h)
        (IsShown-new label login_problems unauthorized (codes "invalid credentials") _ refl refl)
  login-IsShown argon credentials _ err (unreadable _ _ _ _) h =
      subst (IsShown label login_problems) (some_failed h)
        (IsShown-internal label login_problems (codes "could not authenticate") refl)
  login-IsShown argon credentials _ err (unsigned _ _ _ _ _) h =
      subst (IsShown label login_problems) (some_failed h)
        (IsShown-internal label login_problems (codes "could not issue tokens") refl)
  login-IsShown argon credentials _ err (panicked _ _ _) h = cc

  pub me-IsShown :
      (identity : Text) (err : GoError)
      → me db identity ≡ failed err
      → IsShown label me_problems err
  unfolding me me_error plan_runs
  me-IsShown identity err h =
      elim (or_fail-failed (repository_get_user_details db identity) me_error ok h) [
        | inr (user, found, bad) ↦ absurd (cc)
        | inl (e, same) ↦ subst (IsShown label me_problems) same (me_error-IsShown e)
      ]
    where
      me_error-IsShown : (e : GoError) → IsShown label me_problems (me_error e)
      me_error-IsShown e = elim (Bool-cases (is_not_found_error (wrap_db_error e))) [
        | inl missing ↦
            rw missing
              (IsShown-new label me_problems not_found (codes "user does not exist") _ refl refl)
        | inr other ↦
            rw other (IsShown-internal label me_problems (codes "could not load user") refl)
      ]

  pub refresh-IsShown :
      (identity : Text) (err : GoError)
      → refresh lib j now db identity ≡ failed err
      → IsShown label refresh_problems err
  unfolding refresh plan_runs
  refresh-IsShown identity err h =
      elim (or_fail-failed (find_user db identity)
        (λ e. problem (new unauthorized (codes "refresh token is no longer valid")))
        (issue_tokens lib j now) h) [
          | inl (e, same) ↦ subst (IsShown label refresh_problems) same (
              IsShown-new label refresh_problems unauthorized
                (codes "refresh token is no longer valid") _ refl refl)
          | inr (user, found, failing) ↦ issue_tokens-IsShown refresh_problems user err refl failing
        ]
