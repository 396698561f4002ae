-- ===== src/Compile/Walk.antt =====
-- What every step of the first pass keeps, the whole pass keeps.
use golang_postgres_starter.Base.{
  ℕ, suc, zero, Text, Bool, true, false, List, [], ◌∷◌, Option, none, some, get_elem?, contains,
  length, nat_eq,
}
use golang_postgres_starter.Problem.{ProblemDetails}
use golang_postgres_starter.Problem.Dispatch.{RequestLine}
use golang_postgres_starter.Guard.{Guard}
use golang_postgres_starter.Declaration.{Violation, EndpointDecl, InfraDecl, GroupChild, Group}
use golang_postgres_starter.Compile.Operation.{Compiler, report, endpoint, infrastructure}
use golang_postgres_starter.Compile.{
  compile_endpoints, compile_infra, compile_children, open_group, enter, node, new_compiler,
  compile, Visit,
}

module _ {R A Req Rep : Type 0} (encodes : ProblemDetails → Bool) (line : R → RequestLine)
    (endpoint_fault cookie_fault mount_fault : Text → Option Text)
    (store : List (Group R A Req Rep)) (P : Compiler R A → Type 0)
    (at_report : (found : List Violation) (c : Compiler R A) → P c → P (report found c))
    (at_endpoint : (ep : EndpointDecl R A Req Rep) (prefix : Text) (chain : List (Guard R))
        (tags : List Text) (c : Compiler R A)
      → P c
      → P (endpoint encodes line endpoint_fault cookie_fault ep prefix chain tags c).0)
    (at_infra : (decl : InfraDecl R A) (prefix : Text) (c : Compiler R A)
      → P c
      → P (infrastructure endpoint_fault decl prefix c).0) where
  compile_endpoints-keeps :
      (eps : List (EndpointDecl R A Req Rep)) (prefix : Text) (chain : List (Guard R))
      (tags : List Text) (c : Compiler R A)
      → P c
      → P (compile_endpoints encodes line endpoint_fault cookie_fault eps prefix chain tags c).0
  unfolding compile_endpoints
  compile_endpoints-keeps [] prefix chain tags c h = h
  compile_endpoints-keeps (ep ∷ eps) prefix chain tags c h =
      compile_endpoints-keeps eps prefix chain tags _ (at_endpoint ep prefix chain tags c h)

  compile_infra-keeps :
      (decls : List (InfraDecl R A)) (prefix : Text) (c : Compiler R A)
      → P c
      → P (compile_infra endpoint_fault decls prefix c).0
  unfolding compile_infra
  compile_infra-keeps [] prefix c h = h
  compile_infra-keeps (decl ∷ decls) prefix c h =
      compile_infra-keeps decls prefix _ (at_infra decl prefix c h)

  -- A way of compiling a child that keeps `P`.
  abbrev KeepsP : Visit R A → Type 0
  KeepsP visit =
      (id : Option ℕ) (prefix : Text) (chain : List (Guard R)) (c : Compiler R A)
      → P c
      → P (visit id prefix chain c).0

  compile_children-keeps :
      (visit : Visit R A)
      → KeepsP visit
      → (children : List GroupChild) (flags : List Bool) (prefix : Text) (chain : List (Guard R))
        (c : Compiler R A)
      → P c
      → P (compile_children mount_fault visit children flags prefix chain c).0
  unfolding compile_children
  compile_children-keeps visit keeps [] flags prefix chain c h = h
  compile_children-keeps visit keeps (child ∷ children) [] prefix chain c h = h
  compile_children-keeps visit keeps (child ∷ children) (flag ∷ flags) prefix chain c h =
      compile_children-keeps visit keeps children flags prefix chain _
        (keeps child.node _ chain _ (at_report _ c h))

  open_group-keeps :
      (visit : Visit R A)
      → KeepsP visit
      → (i : ℕ) (g : Group R A Req Rep)
      → KeepsP
          (λ _. open_group encodes line endpoint_fault cookie_fault mount_fault store visit i g)
  unfolding open_group
  open_group-keeps visit keeps i g id prefix chain c h =
      compile_children-keeps visit keeps g.children _ prefix _ _ (
        at_report _ _ (
          compile_infra-keeps g.infra prefix _
            (compile_endpoints-keeps g.endpoints prefix _ g.default_tags _ (at_report _ c h))))

  enter-keeps :
      (visit : Visit R A)
      → KeepsP visit
      → (i : ℕ) (cyclic : Bool) (found : Option (Group R A Req Rep))
      → KeepsP (λ _.
        enter encodes line endpoint_fault cookie_fault mount_fault store visit i cyclic found)
  unfolding enter
  enter-keeps visit keeps i true found id prefix chain c h = at_report _ c h
  enter-keeps visit keeps i false none id prefix chain c h = at_report _ c h
  enter-keeps visit keeps i false (some g) id prefix chain c h =
      open_group-keeps visit keeps i g id prefix chain c h

  node-keeps :
      (fuel : ℕ) (active : List ℕ)
      → KeepsP (node encodes line endpoint_fault cookie_fault mount_fault store fuel active)
  unfolding node
  node-keeps zero active id prefix chain c h = at_report _ c h
  node-keeps (suc fuel) active none prefix chain c h = at_report _ c h
  node-keeps (suc fuel) active (some i) prefix chain c h =
      enter-keeps
        (node encodes line endpoint_fault cookie_fault mount_fault store fuel (i ∷ active))
        (node-keeps fuel (i ∷ active)) i (contains active i) (get_elem? store i) (some i) prefix
        chain c h

  pub compile-keeps :
      (i : ℕ)
      → P new_compiler
      → P (compile encodes line endpoint_fault cookie_fault mount_fault store i).0
  unfolding compile
  compile-keeps i h = node-keeps (suc (length store)) [] (some i) [] [] new_compiler h
