-- ===== src/Compile/Checks.antt =====
-- internal/httpx/compile.go: what is checked of one endpoint before it is compiled, and of one
-- infrastructure route.
use golang_postgres_starter.Base.{
  Text, codes, not, ◌||◌, if◌then◌else◌, ltb, nat_eq, text_eq, List, [], ◌∷◌, ◌++◌, Option, none,
  some, contains,
}
use golang_postgres_starter.Credential.{RequirementSet, validate_requirement_set}
use golang_postgres_starter.Problem.{ProblemKind, ProblemKindId, is_valid, status}
use golang_postgres_starter.Guard.{Guard, is_guard}
use golang_postgres_starter.Declaration.{
  Violation, unsupported_method, relative_pattern, invalid_pattern, unknown_problem, problem_status,
  repeated_problem, bad_security, invalid_cookie, repeated_cookie,
}
use golang_postgres_starter.Compile.Topology.{rooted}

abbrev pub http_methods : List Text
http_methods =
    codes "GET"
    ∷ codes "POST"
    ∷ codes "PUT"
    ∷ codes "PATCH"
    ∷ codes "DELETE"
    ∷ codes "HEAD"
    ∷ codes "OPTIONS"
    ∷ []

unfoldable pub check_method : Text → Text → List Violation
check_method label method =
    if contains http_methods method then [] else unsupported_method label method ∷ []

-- The guards that NewGuard built, and a violation for each other one.
unfoldable pub valid_guards : {R : Type 0} → List (Guard R) → List (Guard R)
valid_guards [] = []
valid_guards (g ∷ gs) = if is_guard g then g ∷ valid_guards gs else valid_guards gs

unfoldable pub check_guards : {R : Type 0} → Violation → List (Guard R) → List Violation
check_guards found [] = []
check_guards found (g ∷ gs) =
    if is_guard g then check_guards found gs else found ∷ check_guards found gs

-- The loop over the declared problems; `seen` is `seenProblems`.
unfoldable pub check_problem_status : Text → ProblemKind → List Violation
check_problem_status label p =
    if ltb (status p) 400 || ltb 599 (status p)
    then problem_status label p.id (status p) ∷ []
    else []

unfoldable pub check_declared_problems :
    Text → List ProblemKindId → List ProblemKind → List Violation
unfolding check_problem_status
check_declared_problems label seen [] = []
check_declared_problems label seen (p ∷ ps) =
    let repeated = repeated_problem label p.id ∷ check_declared_problems label seen ps in
    let fresh = check_declared_problems label (p.id ∷ seen) ps in
    let skipped = unknown_problem label ∷ check_declared_problems label seen ps in
    if not (is_valid p)
    then skipped
    else check_problem_status label p ++ (if contains seen p.id then repeated else fresh)

unfoldable pub check_security : Text → RequirementSet → List Violation
check_security label security = elim (validate_requirement_set security) [
  | none ↦ []
  | some err ↦ bad_security label err ∷ []
]

-- What chi and net/http say of a pattern and of a cookie name: `none` where they accept it.
module _ (endpoint_fault : Text → Option Text) where
  unfoldable pub check_pattern : Text → Text → Text → List Violation
  check_pattern label path full_path =
      if not (rooted path)
      then relative_pattern label path ∷ []
      else elim (endpoint_fault full_path) [
        | none ↦ []
        | some fault ↦ invalid_pattern label fault ∷ []
      ]

module _ (cookie_fault : Text → Option Text) where
  unfoldable pub check_cookies : Text → List Text → List Text → List Violation
  check_cookies label seen [] = []
  check_cookies label seen (name ∷ names) =
      let rest = check_cookies label seen names in
      let fresh = check_cookies label (name ∷ seen) names in
      elim (cookie_fault name) [
        | some fault ↦ invalid_cookie label name fault ∷ rest
        | none ↦ if contains seen name then repeated_cookie label name ∷ rest else fresh
      ]
