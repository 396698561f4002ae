-- ===== src/Compile/Unique.antt =====
-- No two compiled operations share a route or an operation id.
use golang_postgres_starter.Base.{
  ℕ, Text, Bool, text_eq, List, [], ◌∷◌, ◌++◌, Option, none, lookup, insert, All, All-append,
  All-map, ◌≡◌, ◌≢◌, sym, subst, inl, inr,
}
use golang_postgres_starter.Problem.{ProblemDetails}
use golang_postgres_starter.Problem.Dispatch.{RequestLine}
use golang_postgres_starter.Guard.{Guard}
use golang_postgres_starter.Declaration.{OperationModel, EndpointDecl, InfraDecl, Group}
use golang_postgres_starter.Compile.{compile}
use golang_postgres_starter.Compile.Operation.{Compiler, claim_key, endpoint, infrastructure}
use golang_postgres_starter.Compile.Kept.{Kept, endpoint-Ending}
use golang_postgres_starter.Compile.Claiming.{Keeps, insert-Keeps, insert-finds, Unkept}
use golang_postgres_starter.Compile.Infra.{infrastructure-Unkept}
use golang_postgres_starter.Compile.Walk.{compile-keeps}

-- A map after an insertion.
inserted-Keeps :
    (key value : Text) (before after : List (Text × Text))
    → after ≡ insert key value before
    → Keeps before after
inserted-Keeps key value before after e wanted h =
    insert-Keeps key value before wanted (subst (λ m. lookup wanted m ≡ none) e h)

inserted-finds :
    (key value : Text) (before after : List (Text × Text))
    → after ≡ insert key value before
    → lookup key after ≢ none
inserted-finds key value before after e h =
    insert-finds key value before (subst (λ m. lookup key m ≡ none) e h)

module _ {R A : Type 0} where
  -- Two operations with different ids and different methods or normal paths.
  abbrev pub Apart : OperationModel R A → OperationModel R A → Type 0
  Apart m k = (m.id ≢ k.id) × (claim_key m.method m.path ≢ claim_key k.method k.path)

  abbrev pub AllApart : List (OperationModel R A) → Type 0
  AllApart [] = Unit
  AllApart (m ∷ ms) = All (Apart m) ms × AllApart ms

  -- The operation's id and route are claimed.
  abbrev Claimed : Compiler R A → OperationModel R A → Type 0
  Claimed c m = (lookup m.id c.op_ids ≢ none) × (lookup (claim_key m.method m.path) c.seen ≢ none)

  record Catalogued (c : Compiler R A) : Type 0 where
    claimed : All (Claimed c) c.ops
    apart : AllApart c.ops

  AllApart-append :
      (ms : List (OperationModel R A)) (m : OperationModel R A)
      → AllApart ms
      → All (λ k. Apart k m) ms
      → AllApart (ms ++ m ∷ [])
  AllApart-append [] m h k = (tt, tt)
  AllApart-append (n ∷ ms) m (hn, h) (kn, k) =
      (All-append (Apart n) ms (m ∷ []) hn (kn, tt), AllApart-append ms m h k)

  Unkept-Catalogued : (c after : Compiler R A) → Unkept c after → Catalogued c → Catalogued after
  Unkept-Catalogued c after un h = record {
    claimed = subst (All (Claimed after)) (sym un.same_ops) (
        All-map (Claimed c) (Claimed after)
          (λ m (id, route). ((λ e. id (un.keeps_ids _ e)), λ e. route (un.keeps_routes _ e))) c.ops
          h.claimed);
    apart = subst AllApart (sym un.same_ops) h.apart;
  }

  -- An operation whose id and route are free is apart from all that are claimed.
  free-Apart :
      (c : Compiler R A) (m k : OperationModel R A)
      → lookup m.id c.op_ids ≡ none
      → lookup (claim_key m.method m.path) c.seen ≡ none
      → Claimed c k
      → Apart k m
  free-Apart c m k id route (used, taken) = (
    (λ e. used (subst (λ i. lookup i c.op_ids ≡ none) (sym e) id)),
    λ e. taken (subst (λ i. lookup i c.seen ≡ none) (sym e) route),
  )

  Kept-Catalogued :
      (c after : Compiler R A) (m : OperationModel R A)
      → Kept c after m
      → Catalogued c
      → Catalogued after
  Kept-Catalogued c after m kept h = record {
    claimed = subst (All (Claimed after)) (sym kept.added) (
        All-append (Claimed after) c.ops (m ∷ [])
          (All-map (Claimed c) (Claimed after) still c.ops h.claimed)
          ((inserted-finds _ _ _ _ kept.claims_id, inserted-finds _ _ _ _ kept.claims_route), tt));
    apart = subst AllApart (sym kept.added) (
        AllApart-append c.ops m h.apart (
          All-map (Claimed c) (λ k. Apart k m)
            (λ k. free-Apart c m k kept.fresh_id kept.fresh_route) c.ops h.claimed));
  }
    where
      still : (k : OperationModel R A) → Claimed c k → Claimed after k
      still k (id, route) = (
        (λ e. id (inserted-Keeps _ _ _ _ kept.claims_id _ e)),
        λ e. route (inserted-Keeps _ _ _ _ kept.claims_route _ e),
      )

  infrastructure-Catalogued :
      (endpoint_fault : Text → Option Text) (decl : InfraDecl R A) (prefix : Text)
      (c : Compiler R A)
      → Catalogued c
      → Catalogued (infrastructure endpoint_fault decl prefix c).0
  infrastructure-Catalogued endpoint_fault decl prefix c h =
      Unkept-Catalogued c _ (infrastructure-Unkept endpoint_fault decl prefix c) h

module _ {R A Req Rep : Type 0} (encodes : ProblemDetails → Bool) (line : R → RequestLine)
    (endpoint_fault cookie_fault mount_fault : Text → Option Text) where
  endpoint-Catalogued :
      (ep : EndpointDecl R A Req Rep) (prefix : Text) (chain : List (Guard R)) (tags : List Text)
      (c : Compiler R A)
      → Catalogued c
      → Catalogued (endpoint encodes line endpoint_fault cookie_fault ep prefix chain tags c).0
  endpoint-Catalogued ep prefix chain tags c h =
      elim (endpoint-Ending encodes line endpoint_fault cookie_fault ep prefix chain tags c) [
        | inl ((un, _), _) ↦ Unkept-Catalogued c _ un h
        | inr (_, _, _, kept) ↦ Kept-Catalogued c _ _ kept h
      ]

  -- Whatever tree of groups is compiled: no two operations of the catalog have the same operation
  -- id, and no two have the same method and the same normal form of the path.
  pub compile-AllApart :
      (store : List (Group R A Req Rep)) (i : ℕ)
      → AllApart (compile encodes line endpoint_fault cookie_fault mount_fault store i).0.ops
  compile-AllApart store i =
      (compile-keeps encodes line endpoint_fault cookie_fault mount_fault store Catalogued
        (λ found c h. record { claimed = h.claimed; apart = h.apart }) endpoint-Catalogued
        (infrastructure-Catalogued endpoint_fault) i (record { claimed = tt; apart = tt })).apart
