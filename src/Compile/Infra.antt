-- ===== src/Compile/Infra.antt =====
-- An infrastructure route leaves the catalog of operations alone.
use golang_postgres_starter.Base.{
  Text, if-both, List, [], ◌++◌, append-nil, append_assoc, Option, none, some, ◌≡◌, refl, sym, ◌∙◌,
  subst, inl, inr,
}
use golang_postgres_starter.Guard.{Served}
use golang_postgres_starter.Declaration.{Violation, InfraDecl}
use golang_postgres_starter.Compile.Operation.{
  Compiler, MatEndpoint, report, claim_route, keep_infra, infrastructure,
}
use golang_postgres_starter.Compile.Claiming.{Unkept, insert-Keeps, claim_route-cases}

module _ {R A : Type 0} where
  keep_infra-same :
      (before c : Compiler R A) (decl : InfraDecl R A) (h : Option (R → Served A))
      → (keep_infra before c decl h).0 ≡ c
  unfolding keep_infra
  keep_infra-same before c decl none = refl
  keep_infra-same before c decl (some h) =
      if-both (λ (r : Compiler R A × List (MatEndpoint R A)). r.0 ≡ c) _ _ _ refl refl

  report-Unkept : (found : List Violation) (c : Compiler R A) → Unkept c (report found c)
  report-Unkept found c = record {
    same_ops = refl;
    keeps_ids = λ key h. h;
    keeps_routes = λ key h. h;
    grows = (found, refl);
  }

  Unkept-join : (c next last : Compiler R A) → Unkept c next → Unkept next last → Unkept c last
  Unkept-join c next last h k = record {
    same_ops = k.same_ops ∙ h.same_ops;
    keeps_ids = λ key e. h.keeps_ids key (k.keeps_ids key e);
    keeps_routes = λ key e. h.keeps_routes key (k.keeps_routes key e);
    grows =
        let (vs, e) = h.grows in
        let (ws, d) = k.grows in (vs ++ ws, rw (d, e) (append_assoc c.violations vs ws));
  }

  claim_route-Unkept :
      (method path label : Text) (c : Compiler R A) → Unkept c (claim_route method path label c)
  claim_route-Unkept method path label c = elim (claim_route-cases method path label c) [
    | inl (_, e) ↦ subst (Unkept c) (sym e) (record {
      same_ops = refl;
      keeps_ids = λ key k. k;
      keeps_routes = insert-Keeps _ _ _;
      grows = ([], sym (append-nil c.violations));
    })
    | inr (_, e) ↦ subst (Unkept c) (sym e) (report-Unkept _ c)
  ]

  pub infrastructure-Unkept :
      (endpoint_fault : Text → Option Text) (decl : InfraDecl R A) (prefix : Text)
      (c : Compiler R A)
      → Unkept c (infrastructure endpoint_fault decl prefix c).0
  unfolding infrastructure
  infrastructure-Unkept endpoint_fault decl prefix c =
      subst (Unkept c) (sym (keep_infra-same c _ decl decl.handler))
        (Unkept-join c _ _ (report-Unkept _ c) (claim_route-Unkept decl.method _ _ _))
