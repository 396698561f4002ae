-- ===== src/Compile.antt =====
-- internal/httpx/compile.go: the first pass of Build over the tree of groups, which collects the
-- operations, the violations and the plan from which the router is materialized.
pub mod Topology
pub mod Checks
pub mod Operation
pub mod Claiming
pub mod Kept
pub mod Walk
pub mod Infra
pub mod Unique
pub mod Documented
pub mod Fuel
pub mod Complete
pub mod Reached
pub mod Serving
mod Tests
use golang_postgres_starter.Base.{
  is_empty, ℕ, suc, zero, Text, Bool, true, false, not, ◌&&◌, if◌then◌else◌, ◌==◌, nat_eq, text_eq,
  List, [], ◌∷◌, ◌++◌, Option, none, some, get_elem?, length, contains,
}
use golang_postgres_starter.Problem.{ProblemDetails}
use golang_postgres_starter.Problem.Dispatch.{RequestLine}
use golang_postgres_starter.Guard.{Guard, Served}
use golang_postgres_starter.Route.{join_pattern}
use golang_postgres_starter.Declaration.{
  Violation, nil_group, group_cycle, zero_group_guard, relative_mount, invalid_mount, out_of_fuel,
  OperationModel, EndpointDecl, InfraDecl, GroupChild, Group,
}
use golang_postgres_starter.Compile.Topology.{
  prefix_label, rooted, collect_topology_claims, check_mounts, all_found, materializable,
}
use golang_postgres_starter.Compile.Checks.{valid_guards, check_guards}
use golang_postgres_starter.Compile.Operation.{
  Compiler, MatEndpoint, report, endpoint, infrastructure,
}

-- `matNode` with the list of its `matChild`.
mutual
  pub data MatNode (R A : Type 0) : Type 0 where
    mat_node : List (Guard R) → List (MatEndpoint R A) → MatChildren R A → MatNode R A

  pub data MatChildren (R A : Type 0) : Type 0 where
    no_children : MatChildren R A
    mat_child : Text → MatNode R A → MatChildren R A → MatChildren R A

abbrev pub empty_node : {R A : Type 0} → MatNode R A
empty_node = mat_node [] [] no_children

module _ {R A : Type 0} where
  abbrev pub add_handler :
      Text → Text → Option (R → Served A) → List (MatEndpoint R A) → List (MatEndpoint R A)
  add_handler method path none eps = eps
  add_handler method path (some h) eps = record { method = method; path = path; handler = h } ∷ eps

  -- Puts the endpoint of a kept operation in front.
  abbrev pub add_endpoint :
      Text → Text → Option (OperationModel R A) → List (MatEndpoint R A) → List (MatEndpoint R A)
  add_endpoint method path none eps = eps
  add_endpoint method path (some m) eps = add_handler method path m.handler eps

  abbrev pub add_child : Bool → Text → MatNode R A → MatChildren R A → MatChildren R A
  add_child true pattern node children = mat_child pattern node children
  add_child false pattern node children = children

-- What is wrong with the pattern of a child itself.
unfoldable pub check_child_pattern : (Text → Option Text) → Text → Text → List Violation
check_child_pattern mount_fault prefix pattern =
    if pattern == []
    then []
    else if not (rooted pattern)
    then relative_mount (prefix_label prefix) pattern ∷ []
    else elim (mount_fault pattern) [
      | none ↦ []
      | some fault ↦ invalid_mount (prefix_label prefix) pattern fault ∷ []
    ]

-- `childPrefix`
abbrev pub child_prefix : Text → Text → Text
child_prefix prefix [] = prefix
child_prefix prefix (c ∷ pattern) = join_pattern prefix (c ∷ pattern)

module _ {R A Req Rep : Type 0} (encodes : ProblemDetails → Bool) (line : R → RequestLine)
    (endpoint_fault cookie_fault : Text → Option Text) where
  -- The loop over the endpoints of a group.
  unfoldable pub compile_endpoints :
      List (EndpointDecl R A Req Rep)
      → Text
      → List (Guard R)
      → List Text
      → Compiler R A
      → Compiler R A × List (MatEndpoint R A)
  compile_endpoints [] prefix chain tags c = (c, [])
  compile_endpoints (ep ∷ eps) prefix chain tags c =
      let (next, kept) = endpoint encodes line endpoint_fault cookie_fault ep prefix chain tags c in
      let (last, rest) = compile_endpoints eps prefix chain tags next in
      (last, add_endpoint ep.method ep.path kept rest)

module _ {R A : Type 0} (endpoint_fault : Text → Option Text) where
  -- The loop over its infrastructure routes.
  unfoldable pub compile_infra :
      List (InfraDecl R A) → Text → Compiler R A → Compiler R A × List (MatEndpoint R A)
  compile_infra [] prefix c = (c, [])
  compile_infra (decl ∷ decls) prefix c =
      let (next, kept) = infrastructure endpoint_fault decl prefix c in
      let (last, rest) = compile_infra decls prefix next in (last, kept ++ rest)

abbrev pub new_compiler : {R A : Type 0} → Compiler R A
new_compiler = record { ops = []; violations = []; seen = []; op_ids = [] }

-- How the children are compiled: by their group, prefix and chain.
abbrev pub Visit : Type 0 → Type 0 → Type 0
Visit R A = Option ℕ → Text → List (Guard R) → Compiler R A → Compiler R A × MatNode R A

module _ {R A : Type 0} (mount_fault : Text → Option Text) where
  -- The loop over the children of a group, with their `materializable` flags.
  unfoldable pub compile_children :
      Visit R A
      → List GroupChild
      → List Bool
      → Text
      → List (Guard R)
      → Compiler R A
      → Compiler R A × MatChildren R A
  compile_children visit [] flags prefix chain c = (c, no_children)
  compile_children visit (child ∷ children) [] prefix chain c = (c, no_children)
  compile_children visit (child ∷ children) (flag ∷ flags) prefix chain c =
      let found = check_child_pattern mount_fault prefix child.pattern in
      let (next, node) =
        visit child.node (child_prefix prefix child.pattern) chain (report found c) in
      let (last, rest) = compile_children visit children flags prefix chain next in
      (last, add_child (flag && is_empty found) child.pattern node rest)

module _ {R A Req Rep : Type 0} (encodes : ProblemDetails → Bool) (line : R → RequestLine)
    (endpoint_fault cookie_fault mount_fault : Text → Option Text)
    (store : List (Group R A Req Rep)) where
  -- The body of `node` for a group that is there and not active.
  unfoldable pub open_group :
      Visit R A
      → ℕ
      → Group R A Req Rep
      → Text
      → List (Guard R)
      → Compiler R A
      → Compiler R A × MatNode R A
  unfolding compile_endpoints compile_infra compile_children valid_guards check_guards
  open_group visit i g prefix inherited c =
      let guards = valid_guards g.guards in
      let chain = inherited ++ guards in
      let guarded = report (check_guards (zero_group_guard (prefix_label prefix)) g.guards) c in
      let (with_endpoints, eps) =
        compile_endpoints encodes line endpoint_fault cookie_fault g.endpoints prefix chain
          g.default_tags guarded in
      let (with_infra, infra) = compile_infra endpoint_fault g.infra prefix with_endpoints in
      let claims = collect_topology_claims store i g in
      let found = check_mounts mount_fault prefix claims.routes [] claims.mounts in
      let (last, children) =
        compile_children mount_fault visit g.children (materializable 0 found g.children) prefix
          chain (report (all_found found) with_infra) in
      (last, mat_node guards (eps ++ infra) children)

  -- The tests at the head of `node`: the group is active, or its pointer is nil.
  unfoldable pub enter :
      Visit R A
      → ℕ
      → Bool
      → Option (Group R A Req Rep)
      → Text
      → List (Guard R)
      → Compiler R A
      → Compiler R A × MatNode R A
  unfolding open_group
  enter visit i true found prefix chain c =
      (report (group_cycle (prefix_label prefix) ∷ []) c, empty_node)
  enter visit i false none prefix chain c =
      (report (nil_group (prefix_label prefix) ∷ []) c, empty_node)
  enter visit i false (some g) prefix chain c = open_group visit i g prefix chain c

  -- `node`. `active` are the groups that are being compiled; the fuel bounds the depth, which
  -- `active`, a list without repetition, keeps at the number of groups.
  unfoldable pub node : ℕ → List ℕ → Visit R A
  unfolding enter
  node zero active id prefix chain c = (report (out_of_fuel ∷ []) c, empty_node)
  node (suc fuel) active none prefix chain c =
      (report (nil_group (prefix_label prefix) ∷ []) c, empty_node)
  node (suc fuel) active (some i) prefix chain c =
      enter (node fuel (i ∷ active)) i (contains active i) (get_elem? store i) prefix chain c

  -- The call of `node` in `buildWithStableRegistries`, for the root with number `i`.
  unfoldable pub compile : ℕ → Compiler R A × MatNode R A
  unfolding node
  compile i = node (suc (length store)) [] (some i) [] [] new_compiler
