-- ===== src/Guard/Tests.antt =====
-- Runs of guards and of their construction, and their theorems at guards.
use golang_postgres_starter.Base.{
  ℕ, zero, suc, codes, Bool, true, false, [], ◌∷◌, none, some, ◌≡◌, refl, split, sort,
}
use golang_postgres_starter.Acl
use golang_postgres_starter.Credential.{no_credential, validate_requirement_set, check_schemes}
use golang_postgres_starter.Problem.{
  kind_of, unauthorized, forbidden, internal, ProblemDetails, problem_definition, is_valid, is_same,
  status,
}
use golang_postgres_starter.Problem.Errors.{plain}
use golang_postgres_starter.Problem.Dispatch.{RequestLine}
use golang_postgres_starter.Guard.{
  GuardConfig, Checked, new_guard, check_config, check_problems, check_permissions, check_mode,
  settle_mode, check_known_mode, built, refused, repeated_problem, not_a_client_error, missing_mode,
  challenge_with_unauthorized, wrap_route_guards, guard_middleware, replied, Served,
}
use golang_postgres_starter.Guard.Construction.{settled}

-- Requests are numbers; the check lets the positive ones pass.
abbrev positive : ℕ → Checked ℕ
positive zero = record { request = none; err = some (plain (codes "zero")) }
positive (suc n) = record { request = some n; err = none }

abbrev base : GuardConfig ℕ
base = record {
  id = codes "positive";
  check = some positive;
  credentials = no_credential;
  problems = kind_of forbidden ∷ [];
  permissions = codes "user.read" ∷ [];
  permission_mode = [];
  note = [];
  fallback_note = [];
  challenge = false;
}

construction : Unit {0}
unfolding new_guard check_config check_problems check_permissions check_mode settle_mode
    check_known_mode validate_requirement_set check_schemes sort Acl.validate split
    problem_definition is_valid is_same status
construction = tt

construction_tests :
    (new_guard base ≡ built (settled base))
    × (new_guard (record base { problems = kind_of forbidden ∷ kind_of forbidden ∷ [] })
        ≡ refused (repeated_problem forbidden))
    × (new_guard (record base { problems = kind_of internal ∷ [] })
        ≡ refused (not_a_client_error internal))
    × (new_guard (record base { permissions = codes "a.b" ∷ codes "a.c" ∷ [] })
        ≡ refused (missing_mode []))
    × (new_guard (record base { problems = kind_of unauthorized ∷ []; challenge = true })
        ≡ refused challenge_with_unauthorized)
unfolding construction
construction_tests = (refl, refl, refl, refl, refl)

abbrev always : ProblemDetails → Bool
always _ = true

abbrev line : ℕ → RequestLine
line _ = record { method = codes "GET"; path = codes "/" }

reply : ℕ → Served ℕ
reply n = replied n

chain_tests : wrap_route_guards always line reply (base ∷ base ∷ []) 5 ≡ replied 3
unfolding wrap_route_guards guard_middleware reply
chain_tests = refl
