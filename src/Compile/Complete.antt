-- ===== src/Compile/Complete.antt =====
-- What is declared is documented: with no violation, every endpoint of every group on the way down
-- from the root is in the catalog.
use golang_postgres_starter.Base.{
  Text, Bool, nat_eq, List, [], ◌∷◌, ◌++◌, Option, none, some, Memᴰ, Any, Any-append_left,
  Any-append_right, if-both, ◌≡◌, ◌≢◌, refl, sym, subst, ap, ◌∙◌, inl, inr, arith,
}
use golang_postgres_starter.Problem.{ProblemDetails}
use golang_postgres_starter.Problem.Dispatch.{RequestLine, ProblemPlan}
use golang_postgres_starter.Guard.{Guard, Served}
use golang_postgres_starter.Route.{join_pattern}
use golang_postgres_starter.Declaration.{
  Violation, OperationModel, EndpointDecl, Contract, typed, raw_doc, hand_over, wrapped, served_by,
  missing_handler, prepare, Bound, Handled,
}
use golang_postgres_starter.Compile.{compile_endpoints}
use golang_postgres_starter.Compile.Operation.{Compiler, endpoint, model, keep}
use golang_postgres_starter.Compile.Kept.{built, endpoint-Ending}
use golang_postgres_starter.Compile.Claiming.{claims, claims-cases}
use golang_postgres_starter.Compile.Serving.{
  Clean, append-nil_left, Extends, compile_endpoints-Extends,
}

-- A handler that is there, or a violation.
hand_over-cases :
    {R A : Type 0} (found : List Violation) (h : Option (R → Served A))
    → (h ≡ none → found ≢ [])
    → (hand_over found h).violations ≡ []
    → (hand_over found h).handler ≢ none
hand_over-cases [] h missing clean gone = missing gone refl
hand_over-cases (v ∷ vs) h missing clean gone = ground arith

wrapped-none :
    {R A : Type 0} (encodes : ProblemDetails → Bool) (line : R → RequestLine) (gs : List (Guard R))
    (h : Option (R → Served A))
    → wrapped encodes line gs h ≡ none
    → h ≡ none
wrapped-none encodes line gs none e = refl
wrapped-none encodes line gs (some h) e = ground arith

-- A handler that is not there is reported.
missing-reported :
    {H : Type 0} (label : Text) (h : Option H) (before after : List Violation)
    → h ≡ none
    → before ++ (missing_handler label h ++ after) ≢ []
missing-reported label none before after e k = ground (arith, append-nil_left before _ k)
missing-reported label (some h) before after e k = ground arith

module _ {R A Req Rep : Type 0} (encodes : ProblemDetails → Bool) (line : R → RequestLine) where
  served_by-none :
      (plan : ProblemPlan) (bind : R → Bound Req) (h : Option (Req → Handled Rep))
      (commit : Rep → R → A)
      → served_by encodes line plan bind h commit ≡ none
      → h ≡ none
  unfolding served_by
  served_by-none plan bind none commit e = refl
  served_by-none plan bind (some h) commit e = ground arith

  -- `prepare` sets a handler, or reports something.
  prepare-cases :
      (contract : Contract R A Req Rep) (m : OperationModel R A)
      → (prepare encodes line contract m).violations ≡ []
      → (prepare encodes line contract m).handler ≢ none
  unfolding prepare
  prepare-cases (typed success_checks request_checks bind h commit) m clean =
      hand_over-cases _ _
        (λ e.
          missing-reported _ h _ _
            (served_by-none _ bind h commit (wrapped-none encodes line m.route_guards _ e)))
        clean
  prepare-cases (raw_doc doc_checks h) m clean =
      hand_over-cases _ _
        (λ e. missing-reported _ h [] _ (wrapped-none encodes line m.route_guards h e)) clean

module _ {R A : Type 0} where
  keep-violations :
      (c after : Compiler R A) (m : OperationModel R A) (h : Option (R → Served A))
      → (keep c after m h).0.violations ≡ after.violations
  unfolding keep
  keep-violations c after m none = refl
  keep-violations c after m (some h) =
      if-both
        (λ (r : Compiler R A × Option (OperationModel R A)). r.0.violations ≡ after.violations) _ _
        _ refl refl

  claims-nothing :
      (found : List Violation) (m : OperationModel R A) (c : Compiler R A)
      → Clean (claims found m c)
      → found ≡ []
  claims-nothing found m c clean = elim (claims-cases found m c) [
    | inl (_, e) ↦ (append-nil_left c.violations found (sym (ap (λ d. d.violations) e) ∙ clean)).1
    | inr (_, (v, vs, e)) ↦ ground (arith, append-nil_left c.violations (v ∷ vs) (sym e ∙ clean))
  ]

  pub grows :
      (P Q : OperationModel R A → Type 0) (c after : Compiler R A)
      → Extends P c after
      → Clean after
      → Any Q c.ops
      → Any Q after.ops
  grows P Q c after h clean k =
      let (_, (new, e, _)) = h.back clean in subst (Any Q) (sym e) (Any-append_left Q c.ops new k)

-- The operation that a declaration becomes, with some handler.
abbrev pub IsBuilt :
    {R A Req Rep : Type 0}
    → EndpointDecl R A Req Rep
    → Text
    → List (Guard R)
    → List Text
    → OperationModel R A
    → Type 0
IsBuilt {R} {A} ep prefix chain tags m =
    (h : R → Served A) × (m ≡ record (built ep prefix chain tags) { handler = some h })

module _ {R A Req Rep : Type 0} (encodes : ProblemDetails → Bool) (line : R → RequestLine)
    (endpoint_fault cookie_fault : Text → Option Text) where
  endpoint-quiet :
      (ep : EndpointDecl R A Req Rep) (prefix : Text) (chain : List (Guard R)) (tags : List Text)
      (c : Compiler R A)
      → Clean (endpoint encodes line endpoint_fault cookie_fault ep prefix chain tags c).0
      → (prepare encodes line ep.contract
          (model ep (join_pattern prefix ep.path) chain tags)).violations
        ≡ []
  unfolding endpoint claims model
  endpoint-quiet ep prefix chain tags c clean =
      (append-nil_left _ _ (
        claims-nothing _ (built ep prefix chain tags) c
          (sym (keep-violations c _ (built ep prefix chain tags) _) ∙ clean))).1

  -- In a clean compilation the declaration is in the catalog.
  endpoint-added :
      (ep : EndpointDecl R A Req Rep) (prefix : Text) (chain : List (Guard R)) (tags : List Text)
      (c : Compiler R A)
      → Clean (endpoint encodes line endpoint_fault cookie_fault ep prefix chain tags c).0
      → Any
          (IsBuilt ep prefix chain tags)
          (endpoint encodes line endpoint_fault cookie_fault ep prefix chain tags c).0.ops
  endpoint-added ep prefix chain tags c clean =
      elim (endpoint-Ending encodes line endpoint_fault cookie_fault ep prefix chain tags c) [
        | inl (_, inl gone) ↦ absurd (
            prepare-cases encodes line ep.contract _ (endpoint-quiet ep prefix chain tags c clean)
              gone)
        | inl (_, inr (v, vs, e)) ↦
            ground (arith, append-nil_left c.violations (v ∷ vs) (sym e ∙ clean))
        | inr (h, _, _, kept) ↦
            subst (Any (IsBuilt ep prefix chain tags)) (sym kept.added)
              (Any-append_right (IsBuilt ep prefix chain tags) c.ops _ (inl (h, refl)))
      ]

  pub compile_endpoints-added :
      (ep : EndpointDecl R A Req Rep) (eps : List (EndpointDecl R A Req Rep)) (prefix : Text)
      (chain : List (Guard R)) (tags : List Text) (c : Compiler R A)
      → Memᴰ ep eps
      → Clean (compile_endpoints encodes line endpoint_fault cookie_fault eps prefix chain tags c).0
      → Any
          (IsBuilt ep prefix chain tags)
          (compile_endpoints encodes line endpoint_fault cookie_fault eps prefix chain tags c).0.ops
  unfolding compile_endpoints
  compile_endpoints-added ep [] prefix chain tags c m clean = elim m [ ]
  compile_endpoints-added ep (e ∷ eps) prefix chain tags c (Memᴰ.head same) clean =
      let rest =
        compile_endpoints-Extends encodes line endpoint_fault cookie_fault eps prefix chain tags
          _ in
      grows _ _ _ _ rest clean (rw same (endpoint-added e prefix chain tags c (rest.back clean).0))
  compile_endpoints-added ep (e ∷ eps) prefix chain tags c (Memᴰ.tail m) clean =
      compile_endpoints-added ep eps prefix chain tags _ m clean
