-- ===== src/Compile/Serving.antt =====
-- What is documented is what is served: the catalog of operations against the plan from which the
-- router is materialized.
use golang_postgres_starter.Base.{
  Text, Bool, nat_eq, List, [], ◌∷◌, ◌++◌, append-nil, append_assoc, Option, none, some, All,
  All-append, All-map, Any, ◌≡◌, refl, sym, subst, ◌∙◌, ◌⊎◌, inl, inr, arith,
}
use golang_postgres_starter.Problem.{ProblemDetails}
use golang_postgres_starter.Problem.Dispatch.{RequestLine}
use golang_postgres_starter.Guard.{Guard, Served}
use golang_postgres_starter.Route.{join_pattern}
use golang_postgres_starter.Declaration.{Violation, OperationModel, EndpointDecl}
use golang_postgres_starter.Compile.{
  MatNode, mat_node, MatChildren, no_children, mat_child, add_handler, add_endpoint, child_prefix,
  compile_endpoints,
}
use golang_postgres_starter.Compile.Operation.{Compiler, MatEndpoint, report, endpoint, model}
use golang_postgres_starter.Compile.Kept.{Kept, built, endpoint-Ending}
use golang_postgres_starter.Compile.Claiming.{Unkept}

pub append-nil_left : (vs ws : List Violation) → vs ++ ws ≡ [] → (vs ≡ []) × (ws ≡ [])
append-nil_left [] ws e = (refl, e)
append-nil_left (v ∷ vs) ws e = ground arith

module _ {R A : Type 0} where
  -- The endpoint serves the operation: the method, the full path and the handler are the same, and
  -- the operation's guards are those on the way down to the endpoint with its own behind them.
  abbrev pub ServesAs : Text → List (Guard R) → OperationModel R A → MatEndpoint R A → Type 0
  ServesAs prefix chain m ep =
      (ep.method ≡ m.method)
      × (join_pattern prefix ep.path ≡ m.path)
      × (m.handler ≡ some ep.handler)
      × (m.guards ≡ chain ++ m.route_guards)

  abbrev mutual
    -- Some endpoint of the node or below it serves the operation.
    pub Serves : MatNode R A → Text → List (Guard R) → OperationModel R A → Type 0
    Serves (mat_node guards eps children) prefix chain m =
        Any (ServesAs prefix (chain ++ guards) m) eps
        ⊎ ServesBelow children prefix (chain ++ guards) m

    pub ServesBelow : MatChildren R A → Text → List (Guard R) → OperationModel R A → Type 0
    ServesBelow no_children prefix chain m = ⊥
    ServesBelow (mat_child pattern node rest) prefix chain m =
        Serves node (child_prefix prefix pattern) chain m ⊎ ServesBelow rest prefix chain m

  abbrev pub Clean : Compiler R A → Type 0
  Clean c = c.violations ≡ []

  -- What is added to the catalog between two states of the compiler satisfies `Q`.
  abbrev pub Adds : (OperationModel R A → Type 0) → Compiler R A → Compiler R A → Type 0
  Adds Q c after = (new : List (OperationModel R A)) × (after.ops ≡ c.ops ++ new) × All Q new

  -- If the later state has no violation, then the earlier one has none.
  pub record Extends (Q : OperationModel R A → Type 0) (c after : Compiler R A) : Type 0 where
    pub back : Clean after → Clean c × Adds Q c after

  pub Extends-join :
      (P Q S : OperationModel R A → Type 0) (c next last : Compiler R A)
      → ((m : OperationModel R A) → P m → S m)
      → ((m : OperationModel R A) → Q m → S m)
      → Extends P c next
      → Extends Q next last
      → Extends S c last
  Extends-join P Q S c next last f g h k = record {
    back = λ clean.
        let (clean_next, (more, e, below)) = k.back clean in
        let (clean_c, (new, d, above)) = h.back clean_next in
        (
          clean_c,
          (
            new ++ more,
            rw (e, d) (append_assoc c.ops new more),
            All-append S new more (All-map P S f new above) (All-map Q S g more below),
          ),
        );
  }

  pub report-Extends :
      (Q : OperationModel R A → Type 0) (found : List Violation) (c : Compiler R A)
      → Extends Q c (report found c)
  report-Extends Q found c = record {
    back =
        λ clean. ((append-nil_left c.violations found clean).0, ([], sym (append-nil c.ops), tt));
  }

  add_handler-Any :
      (P : MatEndpoint R A → Type 0) (method path : Text) (h : Option (R → Served A))
      (eps : List (MatEndpoint R A))
      → Any P eps
      → Any P (add_handler method path h eps)
  add_handler-Any P method path none eps k = k
  add_handler-Any P method path (some h) eps k = inr k

  add_endpoint-Any :
      (P : MatEndpoint R A → Type 0) (method path : Text) (o : Option (OperationModel R A))
      (eps : List (MatEndpoint R A))
      → Any P eps
      → Any P (add_endpoint method path o eps)
  add_endpoint-Any P method path none eps h = h
  add_endpoint-Any P method path (some m) eps h = add_handler-Any P method path m.handler eps h

  pub Unkept-Extends :
      (Q : OperationModel R A → Type 0) (c after : Compiler R A)
      → Unkept c after
      → Extends Q c after
  Unkept-Extends Q c after un = record {
    back = λ clean.
        let (vs, e) = un.grows in
        (
          (append-nil_left c.violations vs (sym e ∙ clean)).0,
          ([], un.same_ops ∙ sym (append-nil c.ops), tt),
        );
  }

  Kept-Extends :
      (Q : OperationModel R A → Type 0) (c after : Compiler R A) (m : OperationModel R A)
      → Kept c after m
      → Q m
      → Extends Q c after
  Kept-Extends Q c after m kept h = record {
    back = λ clean. (sym kept.quiet ∙ clean, (m ∷ [], kept.added, (h, tt)));
  }

  pub same-Extends : (Q : OperationModel R A → Type 0) (c : Compiler R A) → Extends Q c c
  same-Extends Q c = record { back = λ clean. (clean, ([], sym (append-nil c.ops), tt)) }

module _ {R A Req Rep : Type 0} (encodes : ProblemDetails → Bool) (line : R → RequestLine)
    (endpoint_fault cookie_fault : Text → Option Text) where
  -- The operation that is kept is served by the endpoint that is put in front.
  endpoint-Extends :
      (ep : EndpointDecl R A Req Rep) (prefix : Text) (chain : List (Guard R)) (tags : List Text)
      (c : Compiler R A) (rest : List (MatEndpoint R A))
      → Extends
          (λ m. Any (ServesAs prefix chain m) (
            add_endpoint ep.method ep.path
              (endpoint encodes line endpoint_fault cookie_fault ep prefix chain tags c).1
              rest))
          c
          (endpoint encodes line endpoint_fault cookie_fault ep prefix chain tags c).0
  unfolding model
  endpoint-Extends ep prefix chain tags c rest =
      elim (endpoint-Ending encodes line endpoint_fault cookie_fault ep prefix chain tags c) [
        | inl ((un, _), _) ↦ Unkept-Extends _ c _ un
        | inr (h, _, e, kept) ↦ Kept-Extends _ c _ _ kept (
            subst
              (λ o.
                Any
                  (ServesAs prefix chain (record (built ep prefix chain tags) { handler = some h }))
                  (add_endpoint ep.method ep.path o rest))
              (sym e) (inl (refl, refl, refl, refl)))
      ]

  pub compile_endpoints-Extends :
      (eps : List (EndpointDecl R A Req Rep)) (prefix : Text) (chain : List (Guard R))
      (tags : List Text) (c : Compiler R A)
      → let result =
          compile_endpoints encodes line endpoint_fault cookie_fault eps prefix chain tags c in
        Extends (λ m. Any (ServesAs prefix chain m) result.1) c result.0
  unfolding compile_endpoints
  compile_endpoints-Extends [] prefix chain tags c = same-Extends _ c
  compile_endpoints-Extends (ep ∷ eps) prefix chain tags c =
      Extends-join _ _ _ c _ _ (λ m h. h) (λ m h. add_endpoint-Any _ ep.method ep.path _ _ h)
        (endpoint-Extends ep prefix chain tags c _)
        (compile_endpoints-Extends eps prefix chain tags _)
