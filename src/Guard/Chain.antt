-- ===== src/Guard/Chain.antt =====
-- Guards in front of a handler: a request reaches the handler only through every check, and any
-- other request is answered by the guard that stopped it.
use golang_postgres_starter.Base.{Bool, List, [], ◌∷◌, none, some, ◌≡◌}
use golang_postgres_starter.Problem.{ProblemDetails}
use golang_postgres_starter.Problem.Errors.{GoError, problem}
use golang_postgres_starter.Problem.Dispatch.{RequestLine, Response, dispatch_error}
use golang_postgres_starter.Problem.Classify.{internal_error}
use golang_postgres_starter.Problem.Dispatch.Declared.{IsDeclared}
use golang_postgres_starter.Guard.{
  Guard, Checked, Served, panicked, rejected, guard_plan, wrap_route_guards,
}

module _ {R : Type 0} where
  -- The checks of the guards succeed one after the other, each on the request before it, and the
  -- last one is handed on.
  pub data Passes : List (Guard R) → R → R → Type 0 where
    through : {r : R} → Passes [] r r
    past :
        {g : Guard R} {gs : List (Guard R)} {r s t : R} {check : R → Checked R}
        → g.check ≡ some check
        → (check r).request ≡ some s
        → (check r).err ≡ none
        → Passes gs s t
        → Passes (g ∷ gs) r t

module _ {R : Type 0} where
  -- The error that a guard answers with: the one of its check, or an internal one where the check
  -- returns neither an error nor a request.
  pub data Refuses (checked : Checked R) : GoError → Type 0 where
    by_error : {err : GoError} → checked.err ≡ some err → Refuses checked err
    by_nothing :
        checked.err ≡ none → checked.request ≡ none → Refuses checked (problem internal_error)

module _ {R : Type 0} (A : Type 0) (encodes : ProblemDetails → Bool) (line : R → RequestLine) where
  -- The guards before the one that stops the request let it pass, and this one panics on its nil
  -- check, or answers the error of its own check on the request that it was given, within what it
  -- declares itself.
  pub data IsStopped : List (Guard R) → R → Served A → Type 0 where
    at_nil :
        {g : Guard R} {gs : List (Guard R)} {r : R} → g.check ≡ none → IsStopped (g ∷ gs) r panicked
    at_refusal :
        {g : Guard R} {gs : List (Guard R)} {r : R} {check : R → Checked R} {err : GoError}
        (response : Response)
        → g.check ≡ some check
        → Refuses (check r) err
        → IsDeclared g.problems g.challenge err response
        → IsStopped (g ∷ gs) r (rejected response)
    behind :
        {g : Guard R} {gs : List (Guard R)} {r s : R} {check : R → Checked R} {answer : Served A}
        → g.check ≡ some check
        → (check r).request ≡ some s
        → (check r).err ≡ none
        → IsStopped gs s answer
        → IsStopped (g ∷ gs) r answer

  abbrev response_to : Guard R → R → GoError → Response
  response_to g r err = dispatch_error encodes (some (line r)) err (guard_plan g)

  -- Whether the handler is asked depends on the guards alone.
  pub data Outcome (gs : List (Guard R)) (r : R) : Type 0 where
    reaches :
        (s : R)
        → Passes gs r s
        → ((h : R → Served A) → wrap_route_guards encodes line h gs r ≡ h s)
        → Outcome gs r
    stops :
        (answer : Served A)
        → IsStopped gs r answer
        → ((h : R → Served A) → wrap_route_guards encodes line h gs r ≡ answer)
        → Outcome gs r
