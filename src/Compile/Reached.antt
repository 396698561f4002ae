-- ===== src/Compile/Reached.antt =====
-- Every endpoint that is declared at or below the root is in the catalog of a clean compilation.
use golang_postgres_starter.Base.{
  ℕ, suc, zero, Text, Bool, true, false, List, [], ◌∷◌, ◌++◌, Option, some, length, contains,
  get_elem?, nat_eq, Memᴰ, Any, ◌≡◌, refl, sym, subst, arith,
}
use golang_postgres_starter.Problem.{ProblemDetails}
use golang_postgres_starter.Problem.Dispatch.{RequestLine}
use golang_postgres_starter.Guard.{Guard}
use golang_postgres_starter.Declaration.{Violation, OperationModel, EndpointDecl, GroupChild, Group}
use golang_postgres_starter.Compile.{
  compile_children, open_group, enter, node, new_compiler, compile, Visit, child_prefix,
}
use golang_postgres_starter.Compile.Topology.{all_found, materializable}
use golang_postgres_starter.Compile.Checks.{valid_guards}
use golang_postgres_starter.Compile.Operation.{Compiler}
use golang_postgres_starter.Compile.Serving.{Clean, append-nil_left}
use golang_postgres_starter.Compile.Documented.{
  IsFaithful, compile_infra-Extends, compile_children-back, compile_children-Serves, node-Serves,
  node-reports_nil,
}
use golang_postgres_starter.Compile.Complete.{grows, IsBuilt, compile_endpoints-added}

-- The endpoint is declared at the group with number `i`, or at a group below it; with the prefix,
-- the guards and the tags at its own group.
pub data Declares {R A Req Rep : Type 0} (store : List (Group R A Req Rep))
    : ℕ
      → Text
      → List (Guard R)
      → EndpointDecl R A Req Rep
      → Text
      → List (Guard R)
      → List Text
      → Type 0 where
  here :
      {i : ℕ} {prefix : Text} {chain : List (Guard R)} {g : Group R A Req Rep}
      {ep : EndpointDecl R A Req Rep}
      → get_elem? store i ≡ some g
      → Memᴰ ep g.endpoints
      → Declares store i prefix chain ep prefix (chain ++ valid_guards g.guards) g.default_tags
  below :
      {i j : ℕ} {prefix last : Text} {chain guards : List (Guard R)} {g : Group R A Req Rep}
      {child : GroupChild} {ep : EndpointDecl R A Req Rep} {tags : List Text}
      → get_elem? store i ≡ some g
      → Memᴰ child g.children
      → child.node ≡ some j
      → Declares store j
          (child_prefix prefix child.pattern)
          (chain ++ valid_guards g.guards)
          ep
          last
          guards
          tags
      → Declares store i prefix chain ep last guards tags

module _ {R A : Type 0} (mount_fault : Text → Option Text) (Q : OperationModel R A → Type 0) where
  -- What the compilation of one child adds is in the catalog after them all.
  compile_children-added :
      (visit : Visit R A)
      → IsFaithful visit
      → (child : GroupChild) (children : List GroupChild) (owner : ℕ)
        (found : List (ℕ × List Violation)) (prefix : Text) (chain : List (Guard R))
        (c : Compiler R A)
      → all_found found ≡ []
      → ((d : Compiler R A)
          → Clean (visit child.node (child_prefix prefix child.pattern) chain d).0
          → Any Q (visit child.node (child_prefix prefix child.pattern) chain d).0.ops)
      → Memᴰ child children
      → Clean
          (compile_children mount_fault visit children
            (materializable owner found children)
            prefix
            chain
            c).0
      → Any Q
          (compile_children mount_fault visit children
            (materializable owner found children)
            prefix
            chain
            c).0.ops
  unfolding compile_children materializable
  compile_children-added visit f child [] owner found prefix chain c nothing adds m clean =
      elim m [ ]
  compile_children-added visit f child (k ∷ children) owner found prefix chain c nothing adds
        (Memᴰ.head same) clean =
      let rest =
        compile_children-Serves mount_fault visit f children (suc owner) found prefix chain _
          nothing in
      grows _ Q _ _ rest clean (
        subst
          (λ o.
            (d : Compiler R A)
            → Clean (visit o.node (child_prefix prefix o.pattern) chain d).0
            → Any Q (visit o.node (child_prefix prefix o.pattern) chain d).0.ops)
          same adds _ (rest.back clean).0)
  compile_children-added visit f child (k ∷ children) owner found prefix chain c nothing adds
        (Memᴰ.tail m) clean =
      compile_children-added visit f child children (suc owner) found prefix chain _ nothing adds m
        clean

module _ {R A Req Rep : Type 0} (encodes : ProblemDetails → Bool) (line : R → RequestLine)
    (endpoint_fault cookie_fault mount_fault : Text → Option Text)
    (store : List (Group R A Req Rep)) where
  open_group-below :
      (Q : OperationModel R A → Type 0) (visit : Visit R A)
      → IsFaithful visit
      → (child : GroupChild) (i : ℕ) (g : Group R A Req Rep) (prefix : Text)
        (chain : List (Guard R)) (c : Compiler R A)
      → ((d : Compiler R A)
          → Clean
              (visit child.node
                (child_prefix prefix child.pattern)
                (chain ++ valid_guards g.guards)
                d).0
          → Any Q
              (visit child.node
                (child_prefix prefix child.pattern)
                (chain ++ valid_guards g.guards)
                d).0.ops)
      → Memᴰ child g.children
      → Clean
          (open_group encodes line endpoint_fault cookie_fault mount_fault store visit i g prefix
            chain c).0
      → Any Q
          (open_group encodes line endpoint_fault cookie_fault mount_fault store visit i g prefix
            chain c).0.ops
  unfolding open_group
  open_group-below Q visit f child i g prefix chain c adds m clean =
      let nothing =
        append-nil_left _ _
          (compile_children-back mount_fault visit f g.children _ prefix _ _ clean) in
      compile_children-added mount_fault Q visit f child g.children 0 _ prefix _ _ nothing.1 adds m
        clean

  open_group-here :
      (visit : Visit R A)
      → IsFaithful visit
      → (ep : EndpointDecl R A Req Rep) (i : ℕ) (g : Group R A Req Rep) (prefix : Text)
        (chain : List (Guard R)) (c : Compiler R A)
      → Memᴰ ep g.endpoints
      → Clean
          (open_group encodes line endpoint_fault cookie_fault mount_fault store visit i g prefix
            chain c).0
      → Any
          (IsBuilt ep prefix (chain ++ valid_guards g.guards) g.default_tags)
          (open_group encodes line endpoint_fault cookie_fault mount_fault store visit i g prefix
            chain c).0.ops
  unfolding open_group
  open_group-here visit f ep i g prefix chain c m clean =
      let nothing =
        append-nil_left _ _
          (compile_children-back mount_fault visit f g.children _ prefix _ _ clean) in
      let children =
        compile_children-Serves mount_fault visit f g.children 0 _ prefix _ _ nothing.1 in
      let infra = compile_infra-Extends endpoint_fault (λ _. Unit) g.infra prefix _ in
      grows _ _ _ _ children clean (
        grows _ _ _ _ infra nothing.0 (
          compile_endpoints-added encodes line endpoint_fault cookie_fault ep g.endpoints prefix _
            g.default_tags _ m (infra.back nothing.0).0))

  faithful :
      (fuel : ℕ) (active : List ℕ)
      → IsFaithful (node encodes line endpoint_fault cookie_fault mount_fault store fuel active)
  faithful fuel active = record {
    serves = node-Serves encodes line endpoint_fault cookie_fault mount_fault store fuel active;
    reports_nil =
        node-reports_nil encodes line endpoint_fault cookie_fault mount_fault store fuel active;
  }

  -- A clean compilation of a group that is there opens it.
  enter-found :
      (visit : Visit R A) (i : ℕ) (cyclic : Bool) (found : Option (Group R A Req Rep))
      (g : Group R A Req Rep) (prefix : Text) (chain : List (Guard R)) (c : Compiler R A)
      → found ≡ some g
      → Clean
          (enter encodes line endpoint_fault cookie_fault mount_fault store visit i cyclic found
            prefix chain c).0
      → enter encodes line endpoint_fault cookie_fault mount_fault store visit i cyclic found prefix
          chain c
        ≡ open_group encodes line endpoint_fault cookie_fault mount_fault store visit i g prefix
            chain c
  unfolding enter
  enter-found visit i true found g prefix chain c e clean =
      ground (arith, append-nil_left c.violations _ clean)
  enter-found visit i false found g prefix chain c e clean = rw e refl

  node-added :
      (fuel : ℕ) (active : List ℕ) (i : ℕ) (prefix last : Text) (chain guards : List (Guard R))
      (ep : EndpointDecl R A Req Rep) (tags : List Text) (c : Compiler R A)
      → Declares store i prefix chain ep last guards tags
      → Clean
          (node encodes line endpoint_fault cookie_fault mount_fault store fuel active
            (some i)
            prefix
            chain
            c).0
      → Any
          (IsBuilt ep last guards tags)
          (node encodes line endpoint_fault cookie_fault mount_fault store fuel active
            (some i)
            prefix
            chain
            c).0.ops
  unfolding node
  node-added zero active i prefix last chain guards ep tags c d clean =
      ground (arith, append-nil_left c.violations _ clean)
  node-added (suc fuel) active i prefix last chain guards ep tags c (here {g = g} found m) clean =
      let visit =
        node encodes line endpoint_fault cookie_fault mount_fault store fuel (i ∷ active) in
      let opens =
        enter-found visit i (contains active i) (get_elem? store i) g prefix chain c found clean in
      subst (λ r. Any (IsBuilt ep prefix (chain ++ valid_guards g.guards) g.default_tags) r.0.ops)
        (sym opens)
        (open_group-here visit (faithful fuel (i ∷ active)) ep i g prefix chain c m
          (subst (λ r. Clean r.0) opens clean))
  node-added (suc fuel) active i prefix last chain guards ep tags c
        (below {j = j} {g = g} {child = child} found m leads d) clean =
      let visit =
        node encodes line endpoint_fault cookie_fault mount_fault store fuel (i ∷ active) in
      let opens =
        enter-found visit i (contains active i) (get_elem? store i) g prefix chain c found clean in
      subst (λ r. Any (IsBuilt ep last guards tags) r.0.ops) (sym opens)
        (open_group-below (IsBuilt ep last guards tags) visit (faithful fuel (i ∷ active)) child i g
          prefix chain c
          (subst
            (λ id.
              (e : Compiler R A)
              → Clean
                  (visit id (child_prefix prefix child.pattern) (chain ++ valid_guards g.guards)
                    e).0
              → Any (IsBuilt ep last guards tags)
                  (visit id (child_prefix prefix child.pattern) (chain ++ valid_guards g.guards)
                    e).0.ops)
            (sym leads) (λ e. node-added fuel (i ∷ active) j _ last _ guards ep tags e d))
          m (subst (λ r. Clean r.0) opens clean))

  -- If the first pass finds no violation, then every endpoint that a group at or below the root
  -- declares is in the catalog: as the operation with its fields, the path from the prefixes of the
  -- groups on the way, their valid guards followed by its own, and a handler.
  pub compile-Declares :
      (i : ℕ) (ep : EndpointDecl R A Req Rep) (prefix : Text) (guards : List (Guard R))
      (tags : List Text)
      → Declares store i [] [] ep prefix guards tags
      → Clean (compile encodes line endpoint_fault cookie_fault mount_fault store i).0
      → Any
          (IsBuilt ep prefix guards tags)
          (compile encodes line endpoint_fault cookie_fault mount_fault store i).0.ops
  unfolding compile
  compile-Declares i ep prefix guards tags d clean =
      node-added (suc (length store)) [] i [] prefix [] guards ep tags new_compiler d clean
