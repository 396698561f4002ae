-- ===== src/Auth/Denial.antt =====
-- What the operations on sessions answer when they fail.
use golang_postgres_starter.Base.{
  ℕ, Text, codes, Bool, nat_eq, text_eq, List, Option, none, some, subst, ◌≡◌, refl, sym, ◌∙◌, ap,
  inl, inr,
}
use golang_postgres_starter.Problem.{ProblemDetails, new, unauthorized}
use golang_postgres_starter.Problem.Errors.{
  GoError, problem, Result, Result-cases, or_fail-failed, failed-injective, ok, failed,
}
use golang_postgres_starter.Problem.Dispatch.{RequestLine, code_of, dispatch_error}
use golang_postgres_starter.Problem.Dispatch.Plain.{dispatch_error-undeclared}
use golang_postgres_starter.Password.{Argon2}
use golang_postgres_starter.Token.{Tokens, Jwt, JwtService}
use golang_postgres_starter.Token.Guards.{Request, parse_claims_ctx}
use golang_postgres_starter.Auth.Users.{Database}
use golang_postgres_starter.Auth.{
  RegisterRequest, LoginRequest, me, register_admin, user_response, reply_of, identity_of,
  handle_me, handle_register, refresh, handle_refresh, handle_login, login_problems,
  register_problems, me_problems, refresh_problems,
}
use golang_postgres_starter.Auth.Outcome.{login-LoginOutcome}
use golang_postgres_starter.Auth.Shown.{
  plan_runs, operation_plan, IsShown, IsShown-new, some-result, reply_of-failed, register-IsShown,
  login-IsShown, me-IsShown, refresh-IsShown,
}

-- The error of an identity that the context does not give.
identity_of-failed :
    (r : Request) (err : GoError)
    → identity_of r ≡ failed err
    → err ≡ problem (new unauthorized (codes "authentication required"))
unfolding identity_of
identity_of-failed r err h =
    elim (or_fail-failed (parse_claims_ctx r)
      (λ e. problem (new unauthorized (codes "authentication required")))
      (λ (claims, uid). ok claims.subject) h) [
        | inl (e, same) ↦ sym same
        | inr (found, read, bad) ↦ absurd (cc)
      ]

module _ {S V : Type 0} (lib : Jwt S V) (j : JwtService S V) (now : ℕ) (db : Database)
    (label : Text) where
  handle_refresh-IsShown :
      (r : Request) (err : GoError)
      → handle_refresh lib j now db r ≡ failed err
      → IsShown label refresh_problems err
  unfolding handle_refresh plan_runs
  handle_refresh-IsShown r err h = elim (Result-cases (identity_of r)) [
    | inl (identity, found) ↦ refresh-IsShown lib j now db label identity err (
        reply_of-failed (codes "Token refreshed successfully") (λ (tokens : Tokens). tokens)
          (refresh lib j now db identity) (rw (found, handle_refresh) at h))
    | inr (e, lost) ↦
        subst (IsShown label refresh_problems)
          (sym (identity_of-failed r e lost) ∙ failed-injective (rw (lost, handle_refresh) at h))
          (IsShown-new label refresh_problems unauthorized (codes "authentication required") _ refl
            refl)
  ]

  handle_me-IsShown :
      (r : Request) (identity : Text) (err : GoError)
      → identity_of r ≡ ok identity
      → handle_me db r ≡ failed err
      → IsShown label me_problems err
  unfolding handle_me
  handle_me-IsShown r identity err known h = me-IsShown lib j now db label identity err (
      reply_of-failed (codes "User details fetched successfully") user_response (me db identity)
        (rw (known, handle_me) at h))

  -- Where the context of a request has no usable claims, the handler of the current user returns an
  -- unauthorized problem, and the client gets status 500, since the route does not declare the
  -- kind.
  pub handle_me-masked :
      (encodes : ProblemDetails → Bool) (r : Request) (line : RequestLine) (e : GoError)
      → identity_of r ≡ failed e
      → (err : GoError) × (handle_me db r ≡ failed err)
        × (err ≡ problem (new unauthorized (codes "authentication required")))
        × (code_of (dispatch_error encodes (some line) err (operation_plan label me_problems))
            ≡ 500)
  unfolding handle_me plan_runs
  handle_me-masked encodes r line e lost = (
    e,
    rw lost refl,
    identity_of-failed r e lost,
    rw (identity_of-failed r e lost) (
        dispatch_error-undeclared encodes unauthorized _ refl (codes "authentication required") line
          (operation_plan label me_problems) refl),
  )

module _ {S V : Type 0} (argon : Argon2) (random : ℕ → Result (List ℕ)) (lib : Jwt S V)
    (j : JwtService S V) (now : ℕ) (db : Database) (label : Text) where
  login-reply_failed :
      (credentials : LoginRequest) (r : Option (Result Tokens)) (err : GoError)
      → (elim r [
        | none ↦ none
        | some s ↦ some (reply_of (codes "Login successful") (λ (tokens : Tokens). tokens) s)
      ])
        ≡ some (failed err)
      → r ≡ some (failed err)
  login-reply_failed credentials none err h = cc
  login-reply_failed credentials (some s) err h = ap some (reply_of-failed _ _ s (some-result h))

  -- Every error that the handlers of registration, login and refresh return, and every one that the
  -- lookup of the current user returns, is a problem with a kind and a message, and is shown to the
  -- client as it is: the response has the status of this kind and carries this message, since the
  -- route declares the kind. JSON encoding is taken to succeed.
  pub handlers-IsShown :
      ((user : RegisterRequest) (after : Database) (err : GoError)
        → handle_register argon random db user ≡ some (after, failed err)
        → IsShown label register_problems err)
      × ((credentials : LoginRequest) (err : GoError)
          → handle_login argon lib j now db credentials ≡ some (failed err)
          → IsShown label login_problems err)
      × ((r : Request) (err : GoError)
          → handle_refresh lib j now db r ≡ failed err
          → IsShown label refresh_problems err)
      × ((r : Request) (identity : Text) (err : GoError)
          → identity_of r ≡ ok identity
          → handle_me db r ≡ failed err
          → IsShown label me_problems err)
  unfolding handle_register register_admin handle_login
  handlers-IsShown = (
    (λ user after err h. register-IsShown lib j now db label user _ after err h),
    (λ credentials err h.
        login-IsShown lib j now db label argon credentials _ err
          (login-LoginOutcome argon lib j now db credentials)
          (login-reply_failed credentials _ err h)),
    handle_refresh-IsShown lib j now db label,
    handle_me-IsShown lib j now db label,
  )
