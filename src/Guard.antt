-- ===== src/Guard.antt =====
-- internal/httpx/guard.go: guards, their construction and their middleware; the wrapping of a
-- handler by its route guards stands in internal/httpx/declaration.go.
pub mod Construction
pub mod Chain
mod Tests
use golang_postgres_starter.Base.{
  or_else, ℕ, zero, suc, Text, codes, Bool, false, not, ◌&&◌, ◌||◌, ltb, ◌==◌, nat_eq, text_eq,
  List, [], ◌∷◌, ◌++◌, length, contains, if◌then◌else◌, Option, none, some,
}
use golang_postgres_starter.Acl
use golang_postgres_starter.Acl.{SlugError}
use golang_postgres_starter.Credential.{RequirementSet, RequirementError, validate_requirement_set}
use golang_postgres_starter.Problem.{
  ProblemKindId, ProblemKind, is_valid, status, is_same, kind_of, unauthorized, ProblemDetails,
}
use golang_postgres_starter.Problem.Errors.{GoError, problem}
use golang_postgres_starter.Problem.Dispatch.{
  ProblemPlan, plan_for, RequestLine, Response, dispatch_error,
}
use golang_postgres_starter.Problem.Classify.{internal_error}

-- A PermissionMode is a string; these are the declared ones.
abbrev pub mode_single : Text
mode_single = codes "single"

abbrev pub mode_any : Text
mode_any = codes "any"

abbrev pub mode_all : Text
mode_all = codes "all"

-- What a check returns: a request and an error, either of which may be nil.
pub record Checked (R : Type 0) : Type 0 where
  pub request : Option R
  pub err : Option GoError

-- A Guard; its `check` is nil in the zero value. `R` is the type of requests.
pub record Guard (R : Type 0) : Type 0 where
  pub id : Text
  pub check : Option (R → Checked R)
  pub credentials : RequirementSet
  pub problems : List ProblemKind
  pub permissions : List Text
  pub permission_mode : Text
  pub note : Text
  pub fallback_note : Text
  pub challenge : Bool

-- A GuardConfig has the fields of a Guard.
abbrev pub GuardConfig : Type 0 → Type 0
GuardConfig = Guard

pub data GuardError : Type 0 where
  empty_id nil_check unknown_problem : GuardError
  not_a_client_error repeated_problem : ProblemKindId → GuardError
  challenge_with_unauthorized : GuardError
  bad_credentials : RequirementError → GuardError
  bad_permission : SlugError → GuardError
  mode_without_permissions unknown_mode missing_mode : Text → GuardError

-- One round of the loop over the problems.
unfoldable pub check_problem : Bool → List ProblemKindId → ProblemKind → Option GuardError
check_problem challenge seen p =
    if not (is_valid p)
    then some unknown_problem
    else if ltb (status p) 400 || ltb 499 (status p)
    then some (not_a_client_error p.id)
    else if contains seen p.id
    then some (repeated_problem p.id)
    else if challenge && is_same p (kind_of unauthorized)
    then some challenge_with_unauthorized
    else none

unfoldable pub check_problems : Bool → List ProblemKindId → List ProblemKind → Option GuardError
unfolding check_problem
check_problems challenge seen [] = none
check_problems challenge seen (p ∷ ps) = elim (check_problem challenge seen p) [
  | some e ↦ some e
  | none ↦ check_problems challenge (p.id ∷ seen) ps
]

unfoldable pub check_permissions : List Text → Option GuardError
check_permissions [] = none
check_permissions (permission ∷ permissions) = elim (Acl.validate permission) [
  | some e ↦ some (bad_permission e)
  | none ↦ check_permissions permissions
]

-- The switch over the number of permissions, up to its errors.
unfoldable pub check_mode : ℕ → Text → Option GuardError
check_mode zero mode = if mode == [] then none else some (mode_without_permissions mode)
check_mode (suc zero) mode = none
check_mode (suc (suc n)) mode =
    if mode == mode_any || mode == mode_all then none else some (missing_mode mode)

-- A single permission needs no mode.
unfoldable pub settle_mode : ℕ → Text → Text
settle_mode count mode = if count == 1 && mode == [] then mode_single else mode

unfoldable pub check_known_mode : Text → Option GuardError
check_known_mode mode =
    if mode == [] || mode == mode_single || mode == mode_any || mode == mode_all
    then none
    else some (unknown_mode mode)

-- The result of `NewGuard`.
pub data NewGuard (R : Type 0) : Type 0 where
  built : Guard R → NewGuard R
  refused : GuardError → NewGuard R

abbrev pub check_credentials : RequirementSet → Option GuardError
check_credentials r = elim (validate_requirement_set r) [
  | some e ↦ some (bad_credentials e)
  | none ↦ none
]

module _ {R : Type 0} where
  abbrev pub check_presence : Option (R → Checked R) → Option GuardError
  check_presence none = some nil_check
  check_presence (some _) = none

  -- The errors of `NewGuard` in their order.
  unfoldable pub check_config : GuardConfig R → Option GuardError
  check_config cfg = or_else (if cfg.id == [] then some empty_id else none) (
      or_else (check_presence cfg.check) (
        or_else (check_credentials cfg.credentials) (
          or_else (check_problems cfg.challenge [] cfg.problems) (
            or_else (check_permissions cfg.permissions) (
              or_else (check_mode (length cfg.permissions) cfg.permission_mode)
                (check_known_mode (settle_mode (length cfg.permissions) cfg.permission_mode)))))))

  unfoldable pub new_guard : GuardConfig R → NewGuard R
  unfolding check_config
  new_guard cfg = elim (check_config cfg) [
    | some e ↦ refused e
    | none ↦
        built (record cfg {
          permission_mode = settle_mode (length cfg.permissions) cfg.permission_mode;
        })
  ]

  -- `Guard.valid`: the value came from `NewGuard`.
  unfoldable pub is_guard : Guard R → Bool
  is_guard g = elim g.check [ none ↦ false | some _ ↦ not (g.id == []) ]

-- What serving a request ends in: a panic, an error response, or the handler's own reply.
pub data Served (A : Type 0) : Type 0 where
  panicked : Served A
  rejected : Response → Served A
  replied : A → Served A

abbrev pub guard_prefix : Text
guard_prefix = codes "guard "

abbrev pub guard_plan : {R : Type 0} → Guard R → ProblemPlan
guard_plan g = plan_for (guard_prefix ++ g.id) g.problems g.challenge

module _ {R A : Type 0} (encodes : ProblemDetails → Bool) (line : R → RequestLine) where
  -- What the middleware does with what the check returns.
  unfoldable pub proceed : Guard R → (R → Served A) → R → Option R → Option GoError → Served A
  proceed g next r checked (some err) =
      rejected (dispatch_error encodes (some (line r)) err (guard_plan g))
  proceed g next r none none =
      rejected (dispatch_error encodes (some (line r)) (problem internal_error) (guard_plan g))
  proceed g next r (some checked) none = next checked

  -- Calling a nil check panics.
  unfoldable pub run_check : Option (R → Checked R) → Guard R → (R → Served A) → R → Served A
  unfolding proceed
  run_check none g next r = panicked
  run_check (some check) g next r = proceed g next r (check r).request (check r).err

  unfoldable pub guard_middleware : Guard R → (R → Served A) → R → Served A
  unfolding run_check
  guard_middleware g next r = run_check g.check g next r

  -- The first guard of the list is the outermost.
  unfoldable pub wrap_route_guards : (R → Served A) → List (Guard R) → R → Served A
  wrap_route_guards h [] = h
  wrap_route_guards h (g ∷ gs) = guard_middleware g (wrap_route_guards h gs)
