-- ===== src/Compile/Kept.antt =====
-- What one call of `endpoint` does to the compiler: it keeps an operation, or it leaves the catalog
-- alone.
use golang_postgres_starter.Base.{
  Text, Bool, true, false, ltb, text_eq, List, [], ◌∷◌, ◌++◌, append-nil, Option, none, some,
  length, length-append, lookup, insert, ◌≡◌, refl, sym, subst, ◌⊎◌, inl, inr, arith,
}
use golang_postgres_starter.Problem.{ProblemDetails}
use golang_postgres_starter.Problem.Dispatch.{RequestLine}
use golang_postgres_starter.Guard.{Guard, Served}
use golang_postgres_starter.Route.{join_pattern}
use golang_postgres_starter.Declaration.{Violation, OperationModel, label_of, EndpointDecl, prepare}
use golang_postgres_starter.Compile.Operation.{
  Compiler, claim_key, keep, model, settle_id, endpoint,
}
use golang_postgres_starter.Compile.Claiming.{
  insert-Keeps, Unkept, Reports, claims, claims-cases, AfterClaims,
}

longer :
    (vs : List Violation) (v : Violation) (ws : List Violation)
    → ltb (length vs) (length (vs ++ v ∷ ws)) ≡ true
longer vs v ws = let total = length-append vs (v ∷ ws) in ground arith

not-longer : (vs : List Violation) → ltb (length vs) (length vs) ≡ false
not-longer vs = ground arith

module _ {R A : Type 0} where
  -- The operation is new by its route and its id, and both are claimed now.
  pub record Kept (c after : Compiler R A) (m : OperationModel R A) : Type 0 where
    pub added : after.ops ≡ c.ops ++ m ∷ []
    pub quiet : after.violations ≡ c.violations
    pub fresh_id : lookup m.id c.op_ids ≡ none
    pub fresh_route : lookup (claim_key m.method m.path) c.seen ≡ none
    pub claims_id : after.op_ids ≡ insert m.id (label_of m.method m.path) c.op_ids
    pub claims_route : after.seen ≡ insert (claim_key m.method m.path) m.path c.seen

  -- How `keep` ends.
  abbrev pub Ending :
      Compiler R A
      → OperationModel R A
      → Option (R → Served A)
      → Compiler R A × Option (OperationModel R A)
      → Type 0
  Ending c m handler result =
      ((Unkept c result.0 × (result.1 ≡ none)) × ((handler ≡ none) ⊎ Reports c result.0))
      ⊎ ((h : R → Served A) × (handler ≡ some h)
          × (result.1 ≡ some (record m { handler = some h }))
          × Kept c result.0 (record m { handler = some h }))

  reported-longer :
      (c after : Compiler R A) (v : Violation) (vs : List Violation)
      → after.violations ≡ c.violations ++ v ∷ vs
      → ltb (length c.violations) (length after.violations) ≡ true
  reported-longer c after v vs e =
      subst (λ ws. ltb (length c.violations) (length ws) ≡ true) (sym e) (longer c.violations v vs)

  pub keep-Ending :
      (found : List Violation) (m : OperationModel R A) (handler : Option (R → Served A))
      (c after : Compiler R A)
      → AfterClaims found m c after
      → Ending c m handler (keep c after m handler)
  unfolding keep
  keep-Ending found m none c after (inr (un, noisy)) = inl ((un, refl), inl refl)
  keep-Ending found m none c after (inl (fresh, e)) = inl (
      rw e (
        (
          record {
            same_ops = refl;
            keeps_ids = insert-Keeps _ _ _;
            keeps_routes = insert-Keeps _ _ _;
            grows = (_, refl);
          },
          refl,
        ),
        inl refl,
      ))
  keep-Ending found m (some h) c after (inr (un, (v, vs, e))) =
      rw (reported-longer c after v vs e) (inl ((un, refl), inr (v, vs, e)))
  keep-Ending [] m (some h) c after (inl ((free, vacant), e)) =
      rw (e, append-nil c.violations, not-longer c.violations)
        (inr (
          h,
          refl,
          refl,
          record {
            added = refl;
            quiet = refl;
            fresh_id = free;
            fresh_route = vacant;
            claims_id = refl;
            claims_route = refl;
          },
        ))
  keep-Ending (v ∷ vs) m (some h) c after (inl (fresh, e)) =
      rw (e, longer c.violations v vs)
        (inl (
          (
            record {
              same_ops = refl;
              keeps_ids = insert-Keeps _ _ _;
              keeps_routes = insert-Keeps _ _ _;
              grows = (_, refl);
            },
            refl,
          ),
          inr (v, vs, refl),
        ))

-- The operation of a declaration, up to its handler.
abbrev pub built :
    {R A Req Rep : Type 0}
    → EndpointDecl R A Req Rep
    → Text
    → List (Guard R)
    → List Text
    → OperationModel R A
built ep prefix chain tags = record (model ep (join_pattern prefix ep.path) chain tags) {
  id = settle_id ep.id ep.method (join_pattern prefix ep.path);
}

module _ {R A Req Rep : Type 0} (encodes : ProblemDetails → Bool) (line : R → RequestLine)
    (endpoint_fault cookie_fault : Text → Option Text) where
  pub endpoint-Ending :
      (ep : EndpointDecl R A Req Rep) (prefix : Text) (chain : List (Guard R)) (tags : List Text)
      (c : Compiler R A)
      → Ending c
          (built ep prefix chain tags)
          (prepare encodes line ep.contract
            (model ep (join_pattern prefix ep.path) chain tags)).handler
          (endpoint encodes line endpoint_fault cookie_fault ep prefix chain tags c)
  unfolding endpoint model claims
  endpoint-Ending ep prefix chain tags c =
      keep-Ending _ (built ep prefix chain tags) _ c _
        (claims-cases _ (built ep prefix chain tags) c)
