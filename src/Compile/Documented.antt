-- ===== src/Compile/Documented.antt =====
-- The whole tree: with no violation, every operation of the catalog is served behind the guards
-- that it documents.
use golang_postgres_starter.Base.{
  is_empty, ℕ, suc, zero, Text, Bool, true, false, not, ◌&&◌, nat_eq, List, [], ◌∷◌, Option, none,
  some, length, contains, get_elem?, All, Any-append_left, ◌≡◌, refl, sym, subst, inl, inr, arith,
}
use golang_postgres_starter.Problem.{ProblemDetails}
use golang_postgres_starter.Problem.Dispatch.{RequestLine}
use golang_postgres_starter.Guard.{Guard}
use golang_postgres_starter.Declaration.{Violation, OperationModel, InfraDecl, GroupChild, Group}
use golang_postgres_starter.Compile.{
  MatNode, MatChildren, add_child, child_prefix, check_child_pattern, Visit, compile_infra,
  compile_children, open_group, enter, node, new_compiler, compile,
}
use golang_postgres_starter.Compile.Topology.{all_found, is_unblamed, materializable, is_none}
use golang_postgres_starter.Compile.Operation.{Compiler, report}
use golang_postgres_starter.Compile.Infra.{infrastructure-Unkept}
use golang_postgres_starter.Compile.Serving.{
  Serves, ServesBelow, Clean, append-nil_left, Extends, Extends-join, report-Extends, same-Extends,
  Unkept-Extends, compile_endpoints-Extends,
}

is_unblamed_of_nothing :
    (owner : ℕ) (found : List (ℕ × List Violation))
    → all_found found ≡ []
    → is_unblamed owner found ≡ true
unfolding is_unblamed all_found
is_unblamed_of_nothing owner [] h = refl
is_unblamed_of_nothing owner ((blamed, []) ∷ found) h = is_unblamed_of_nothing owner found h
is_unblamed_of_nothing owner ((blamed, v ∷ vs) ∷ found) h = ground arith

module _ {R A : Type 0} where
  pub compile_infra-Extends :
      (endpoint_fault : Text → Option Text) (Q : OperationModel R A → Type 0)
      (decls : List (InfraDecl R A)) (prefix : Text) (c : Compiler R A)
      → Extends Q c (compile_infra endpoint_fault decls prefix c).0
  unfolding compile_infra
  compile_infra-Extends endpoint_fault Q [] prefix c = same-Extends Q c
  compile_infra-Extends endpoint_fault Q (decl ∷ decls) prefix c =
      Extends-join Q Q Q c _ _ (λ m h. h) (λ m h. h)
        (Unkept-Extends Q c _ (infrastructure-Unkept endpoint_fault decl prefix c))
        (compile_infra-Extends endpoint_fault Q decls prefix _)

  -- A way of compiling children that serves what it documents, and reports a nil group.
  pub record IsFaithful (visit : Visit R A) : Type 0 where
    pub serves :
        (id : Option ℕ) (prefix : Text) (chain : List (Guard R)) (c : Compiler R A)
        → Extends (Serves (visit id prefix chain c).1 prefix chain) c (visit id prefix chain c).0
    pub reports_nil :
        (prefix : Text) (chain : List (Guard R)) (c : Compiler R A)
        → Clean (visit none prefix chain c).0
        → ⊥

  add_child-rest :
      (flag : Bool) (pattern : Text) (node : MatNode R A) (rest : MatChildren R A) (prefix : Text)
      (chain : List (Guard R)) (m : OperationModel R A)
      → ServesBelow rest prefix chain m
      → ServesBelow (add_child flag pattern node rest) prefix chain m
  add_child-rest true pattern node rest prefix chain m h = inr h
  add_child-rest false pattern node rest prefix chain m h = h

  -- Whatever the flags are, the loop over the children goes back to a clean state.
  pub compile_children-back :
      (mount_fault : Text → Option Text) (visit : Visit R A)
      → IsFaithful visit
      → (children : List GroupChild) (flags : List Bool) (prefix : Text) (chain : List (Guard R))
        (c : Compiler R A)
      → Clean (compile_children mount_fault visit children flags prefix chain c).0
      → Clean c
  unfolding compile_children
  compile_children-back mount_fault visit f [] flags prefix chain c clean = clean
  compile_children-back mount_fault visit f (child ∷ children) [] prefix chain c clean = clean
  compile_children-back mount_fault visit f (child ∷ children) (flag ∷ flags) prefix chain c clean =
      let after = compile_children-back mount_fault visit f children flags prefix chain _ clean in
      let (reported, _) = (f.serves child.node _ chain _).back after in
      (append-nil_left c.violations _ reported).0

  -- A child in a clean compilation is materialized.
  child-flag :
      (visit : Visit R A) (f : IsFaithful visit) (id : Option ℕ) (unblamed : Bool)
      (found : List Violation) (prefix : Text) (chain : List (Guard R)) (c : Compiler R A)
      → unblamed ≡ true
      → found ≡ []
      → Clean (visit id prefix chain c).0
      → ((not (is_none id) && unblamed) && is_empty found) ≡ true
  child-flag visit f none unblamed found prefix chain c h e clean =
      absurd (f.reports_nil prefix chain c clean)
  child-flag visit f (some i) unblamed found prefix chain c h e clean = rw (h, e) refl

  pub compile_children-Serves :
      (mount_fault : Text → Option Text) (visit : Visit R A)
      → IsFaithful visit
      → (children : List GroupChild) (owner : ℕ) (found : List (ℕ × List Violation)) (prefix : Text)
        (chain : List (Guard R)) (c : Compiler R A)
      → all_found found ≡ []
      → let result =
          compile_children mount_fault visit children
            (materializable owner found children)
            prefix
            chain
            c in
        Extends (ServesBelow result.1 prefix chain) c result.0
  unfolding compile_children materializable
  compile_children-Serves mount_fault visit f [] owner found prefix chain c nothing =
      same-Extends _ c
  compile_children-Serves mount_fault visit f (child ∷ children) owner found prefix chain c
        nothing =
      record {
        back = λ clean.
            let faults = check_child_pattern mount_fault prefix child.pattern in
            let below = child_prefix prefix child.pattern in
            let next = visit child.node below chain (report faults c) in
            let others =
              (compile_children mount_fault visit children
                (materializable (suc owner) found children) prefix chain next.0).1 in
            let rest =
              compile_children-Serves mount_fault visit f children (suc owner) found prefix chain
                next.0 nothing in
            let clean_next = (rest.back clean).0 in
            let reported =
              ((f.serves child.node below chain (report faults c)).back clean_next).0 in
            let flag =
              child-flag visit f child.node _ faults below chain (report faults c)
                (is_unblamed_of_nothing owner found nothing)
                (append-nil_left c.violations faults reported).1 clean_next in
            (Extends-join _ _ _ c next.0 _
                (λ m h.
                  subst (λ b. ServesBelow (add_child b child.pattern next.1 others) prefix chain m)
                    (sym flag) (inl h))
                (λ m h. add_child-rest _ child.pattern next.1 _ prefix chain m h)
                (Extends-join _ _ _ c (report faults c) next.0 (λ m h. h) (λ m h. h)
                  (report-Extends _ faults c) (f.serves child.node below chain (report faults c)))
                rest).back
              clean;
      }

module _ {R A Req Rep : Type 0} (encodes : ProblemDetails → Bool) (line : R → RequestLine)
    (endpoint_fault cookie_fault mount_fault : Text → Option Text)
    (store : List (Group R A Req Rep)) where
  open_group-Serves :
      (visit : Visit R A)
      → IsFaithful visit
      → (i : ℕ) (g : Group R A Req Rep) (prefix : Text) (chain : List (Guard R)) (c : Compiler R A)
      → let result =
          open_group encodes line endpoint_fault cookie_fault mount_fault store visit i g prefix
            chain c in
        Extends (Serves result.1 prefix chain) c result.0
  unfolding open_group
  open_group-Serves visit f i g prefix chain c = record {
    back = λ clean.
        let nothing =
          append-nil_left _ _
            (compile_children-back mount_fault visit f g.children _ prefix _ _ clean) in
        (Extends-join _ _ _ c _ _ (λ m h. inl h) (λ m h. inr h)
            (Extends-join _ _ _ c _ _ (λ m h. h) (λ m h. h) (report-Extends _ _ c)
              (Extends-join _ _ _ _ _ _ (λ m h. Any-append_left _ _ _ h) (λ m h. h)
                (compile_endpoints-Extends encodes line endpoint_fault cookie_fault g.endpoints
                  prefix _ g.default_tags _)
                (Extends-join _ _ _ _ _ _ (λ m h. h) (λ m h. h)
                  (compile_infra-Extends endpoint_fault _ g.infra prefix _)
                  (report-Extends _ _ _))))
            (compile_children-Serves mount_fault visit f g.children 0 _ prefix _ _ nothing.1)).back
          clean;
  }

  enter-Serves :
      (visit : Visit R A)
      → IsFaithful visit
      → (i : ℕ) (cyclic : Bool) (found : Option (Group R A Req Rep)) (prefix : Text)
        (chain : List (Guard R)) (c : Compiler R A)
      → let result =
          enter encodes line endpoint_fault cookie_fault mount_fault store visit i cyclic found
            prefix chain c in
        Extends (Serves result.1 prefix chain) c result.0
  unfolding enter
  enter-Serves visit f i true found prefix chain c = report-Extends _ _ c
  enter-Serves visit f i false none prefix chain c = report-Extends _ _ c
  enter-Serves visit f i false (some g) prefix chain c =
      open_group-Serves visit f i g prefix chain c

  pub reports_something : (v : Violation) (c : Compiler R A) → Clean (report (v ∷ []) c) → ⊥
  reports_something v c clean = ground (arith, append-nil_left c.violations (v ∷ []) clean)

  pub node-reports_nil :
      (fuel : ℕ) (active : List ℕ) (prefix : Text) (chain : List (Guard R)) (c : Compiler R A)
      → Clean
          (node encodes line endpoint_fault cookie_fault mount_fault store fuel active none prefix
            chain c).0
      → ⊥
  unfolding node
  node-reports_nil zero active prefix chain c clean = reports_something _ c clean
  node-reports_nil (suc fuel) active prefix chain c clean = reports_something _ c clean

  pub node-Serves :
      (fuel : ℕ) (active : List ℕ) (id : Option ℕ) (prefix : Text) (chain : List (Guard R))
      (c : Compiler R A)
      → let result =
          node encodes line endpoint_fault cookie_fault mount_fault store fuel active id prefix
            chain c in
        Extends (Serves result.1 prefix chain) c result.0
  unfolding node
  node-Serves zero active id prefix chain c = report-Extends _ _ c
  node-Serves (suc fuel) active none prefix chain c = report-Extends _ _ c
  node-Serves (suc fuel) active (some i) prefix chain c =
      enter-Serves
        (node encodes line endpoint_fault cookie_fault mount_fault store fuel (i ∷ active))
        (record {
          serves = node-Serves fuel (i ∷ active);
          reports_nil = node-reports_nil fuel (i ∷ active);
        })
        i (contains active i) (get_elem? store i) prefix chain c

  -- If the first pass finds no violation, then every operation of the catalog is served: somewhere
  -- in the plan of the router stands an endpoint with the operation's method, full path and
  -- handler, and the guards that the operation documents are, in their order, the guards of the
  -- groups from the root down to that endpoint, followed by the operation's own.
  pub compile-Serves :
      (i : ℕ)
      → Clean (compile encodes line endpoint_fault cookie_fault mount_fault store i).0
      → let result = compile encodes line endpoint_fault cookie_fault mount_fault store i in
        All (Serves result.1 [] []) result.0.ops
  unfolding compile
  compile-Serves i clean =
      let (_, (new, e, all)) =
        (node-Serves (suc (length store)) [] (some i) [] [] new_compiler).back clean in
      subst (All _) (sym e) all
