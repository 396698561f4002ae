-- ===== src/Compile/Tests.antt =====
-- The compilation of a small tree of groups, and the theorems at it.
use golang_postgres_starter.Base.{
  Any, Memᴰ, arith, ℕ, Text, codes, Bool, true, false, List, [], ◌∷◌, Option, none, some, length,
  ◌≡◌, refl, All, split, join, has_prefix, has_suffix, trim, trim_suffix, lookup, insert, sort,
}
use golang_postgres_starter.Credential.{no_credential, validate_requirement_set, check_schemes}
use golang_postgres_starter.Problem.{ProblemDetails, kind_of, is_valid, status, problem_definition}
use golang_postgres_starter.Problem.Dispatch.{RequestLine}
use golang_postgres_starter.Guard.{Guard, replied, is_guard, wrap_route_guards}
use golang_postgres_starter.Route.{
  join_pattern, normalize_path, is_templated, is_dynamic, mount_contains_route_pattern,
  mount_patterns_overlap, routing_segments, generate_operation_id,
}
use golang_postgres_starter.Declaration.{typed, EndpointDecl, Group, bound, prepare, duplicate_id}
use golang_postgres_starter.Compile.Fuel.{compile-fuel}
use golang_postgres_starter.Compile.Complete.{IsBuilt}
use golang_postgres_starter.Compile.Reached.{Declares, here, below, compile-Declares}
use golang_postgres_starter.Compile.{node, new_compiler, compile, check_child_pattern}
use golang_postgres_starter.Compile.Topology.{
  collect_topology_claims, check_mounts, all_found, materializable,
}
use golang_postgres_starter.Compile.Checks.{valid_guards, check_guards}
use golang_postgres_starter.Compile.Operation.{claim_route, endpoint, infrastructure}
use golang_postgres_starter.Compile.Unique.{AllApart, compile-AllApart}
use golang_postgres_starter.Compile.Serving.{Serves}
use golang_postgres_starter.Compile.Documented.{compile-Serves}

abbrev session : Guard ℕ
session = record {
  id = codes "session";
  check = some (λ r. record { request = some r; err = none });
  credentials = no_credential;
  problems = [];
  permissions = [];
  permission_mode = [];
  note = [];
  fallback_note = [];
  challenge = false;
}

abbrev read_user : EndpointDecl ℕ ℕ ℕ ℕ
read_user = record {
  method = codes "GET";
  path = codes "/{id}";
  raw = false;
  id = codes "readUser";
  summary = [];
  description = [];
  tags = [];
  body_description = [];
  success_description = [];
  problems = kind_of 1 ∷ [];
  guards = session ∷ [];
  security = no_credential;
  response_cookies = [];
  contract =
      typed (λ _ _. []) (λ _ _. []) (λ r. bound r)
        (some (λ r. record { reply = some r; err = none })) (λ reply r. reply);
}

abbrev users : Group ℕ ℕ ℕ ℕ
users = record {
  default_tags = [];
  guards = session ∷ [];
  children = [];
  endpoints = read_user ∷ [];
  infra = [];
}

abbrev root : Group ℕ ℕ ℕ ℕ
root = record {
  default_tags = [];
  guards = [];
  children = record { pattern = codes "/users"; node = some 1 } ∷ [];
  endpoints = [];
  infra =
      record { method = codes "GET"; path = codes "/docs"; handler = some (λ r. replied r) } ∷ [];
}

abbrev twice : Group ℕ ℕ ℕ ℕ
twice = record root {
  children =
      record { pattern = codes "/a"; node = some 1 }
      ∷ record { pattern = codes "/b"; node = some 1 }
      ∷ [];
}

abbrev store : List (Group ℕ ℕ ℕ ℕ)
store = root ∷ users ∷ []

abbrev encodes : ProblemDetails → Bool
encodes p = true

abbrev line : ℕ → RequestLine
line r = record { method = codes "GET"; path = codes "/" }

abbrev no_fault : Text → Option Text
no_fault s = none

compilation : Unit {0}
unfolding compile collect_topology_claims check_mounts all_found materializable valid_guards
    check_guards claim_route endpoint validate_requirement_set check_schemes is_valid status
    is_guard prepare wrap_route_guards join_pattern normalize_path is_templated
    mount_contains_route_pattern mount_patterns_overlap routing_segments generate_operation_id split
    join has_prefix has_suffix trim trim_suffix lookup insert infrastructure is_dynamic
    check_child_pattern problem_definition sort
compilation = tt

-- One operation is compiled, cleanly; mounted twice, it repeats its id.
compilation_tests :
    (length (compile encodes line no_fault no_fault no_fault store 0).0.ops ≡ 1)
    × ((compile encodes line no_fault no_fault no_fault store 0).0.violations ≡ [])
    × ((compile encodes line no_fault no_fault no_fault (twice ∷ users ∷ []) 0).0.violations
        ≡ duplicate_id (codes "GET /b/{id}") (codes "readUser") (codes "GET /a/{id}") ∷ [])
unfolding compilation
compilation_tests = (refl, refl, refl)

compile-AllApart_example : AllApart (compile encodes line no_fault no_fault no_fault store 0).0.ops
compile-AllApart_example = compile-AllApart encodes line no_fault no_fault no_fault store 0

compile-Serves_example :
    All
      (Serves (compile encodes line no_fault no_fault no_fault store 0).1 [] [])
      (compile encodes line no_fault no_fault no_fault store 0).0.ops
unfolding compilation
compile-Serves_example = compile-Serves encodes line no_fault no_fault no_fault store 0 refl

compile-fuel_example :
    node encodes line no_fault no_fault no_fault store 9 [] (some 0) [] [] new_compiler
    ≡ compile encodes line no_fault no_fault no_fault store 0
compile-fuel_example = compile-fuel encodes line no_fault no_fault no_fault store 0 9 (omega arith)

-- The endpoint of the users, at the root's child.
read_user_declared : Declares store 0 [] [] read_user (codes "/users") (session ∷ []) []
unfolding compilation
read_user_declared = below refl (Memᴰ.head refl) refl (here refl (Memᴰ.head refl))

compile-Declares_example :
    Any
      (IsBuilt read_user (codes "/users") (session ∷ []) [])
      (compile encodes line no_fault no_fault no_fault store 0).0.ops
unfolding compilation
compile-Declares_example =
    compile-Declares encodes line no_fault no_fault no_fault store 0 read_user (codes "/users")
      (session ∷ []) [] read_user_declared refl
