-- ===== src/Compile/Claiming.antt =====
-- What the claims of an operation id and of a route do to the compiler: both are new, or something
-- is reported.
use golang_postgres_starter.Base.{
  Text, text_eq, list_beq_iff, List, [], ◌∷◌, ◌++◌, append-nil, append_assoc, Option, none, some,
  lookup, insert, lookup-insert, ◌≡◌, ◌≢◌, refl, subst, ◌∙◌, ◌⊎◌, inl, inr, arith,
}
use golang_postgres_starter.Declaration.{Violation, OperationModel, label_of}
use golang_postgres_starter.Compile.Operation.{
  Compiler, claim_key, report, take_id, take_route, claim_id, claim_route,
}

-- No key is lost.
abbrev pub Keeps : List (Text × Text) → List (Text × Text) → Type 0
Keeps before after = (key : Text) → lookup key after ≡ none → lookup key before ≡ none

pub insert-Keeps : (key value : Text) (m : List (Text × Text)) → Keeps m (insert key value m)
insert-Keeps key value m wanted h =
    let law = lookup-insert wanted key value m in ground (arith, list_beq_iff wanted key)

pub insert-finds :
    (key value : Text) (m : List (Text × Text)) → lookup key (insert key value m) ≢ none
insert-finds key value m h =
    let law = lookup-insert key key value m in ground (arith, list_beq_iff key key)

-- What was reported, once something more is.
more :
    (vs found : List Violation) (v : Violation) (ws : List Violation)
    → (w : Violation) × (us : List Violation) × ((vs ++ found) ++ v ∷ ws ≡ vs ++ w ∷ us)
more vs [] v ws = (v, ws, rw (append-nil vs) refl)
more vs (w ∷ found) v ws = (w, found ++ v ∷ ws, append_assoc vs (w ∷ found) (v ∷ ws))

module _ {R A : Type 0} where
  -- The catalog is left alone, and no claim is lost.
  pub record Unkept (c after : Compiler R A) : Type 0 where
    pub same_ops : after.ops ≡ c.ops
    pub keeps_ids : Keeps c.op_ids after.op_ids
    pub keeps_routes : Keeps c.seen after.seen
    pub grows : (vs : List Violation) × (after.violations ≡ c.violations ++ vs)

  -- Something was reported after `c`.
  abbrev pub Reports : Compiler R A → Compiler R A → Type 0
  Reports c after =
      (v : Violation) × (vs : List Violation) × (after.violations ≡ c.violations ++ v ∷ vs)

  -- A claim of an id is either new, or something is reported.
  take_id-cases :
      (label id : Text) (c : Compiler R A) (o : Option Text)
      → ((o ≡ none) × (take_id label id c o ≡ record c { op_ids = insert id label c.op_ids }))
        ⊎ ((v : Violation) × (take_id label id c o ≡ report (v ∷ []) c))
  take_id-cases label id c none = inl (refl, refl)
  take_id-cases label id c (some first) = inr (_, refl)

  claim_id-cases :
      (label id : Text) (c : Compiler R A)
      → ((lookup id c.op_ids ≡ none)
          × (claim_id label id c ≡ record c { op_ids = insert id label c.op_ids }))
        ⊎ ((v : Violation) × (claim_id label id c ≡ report (v ∷ []) c))
  unfolding claim_id
  claim_id-cases label id c = take_id-cases label id c (lookup id c.op_ids)

  take_route-cases :
      (method path label : Text) (c : Compiler R A) (o : Option Text)
      → ((o ≡ none)
          × (take_route method path label c o
              ≡ record c { seen = insert (claim_key method path) path c.seen }))
        ⊎ ((v : Violation) × (take_route method path label c o ≡ report (v ∷ []) c))
  take_route-cases method path label c none = inl (refl, refl)
  take_route-cases method path label c (some first) = inr (_, refl)

  pub claim_route-cases :
      (method path label : Text) (c : Compiler R A)
      → ((lookup (claim_key method path) c.seen ≡ none)
          × (claim_route method path label c
              ≡ record c { seen = insert (claim_key method path) path c.seen }))
        ⊎ ((v : Violation) × (claim_route method path label c ≡ report (v ∷ []) c))
  unfolding claim_route
  claim_route-cases method path label c =
      take_route-cases method path label c (lookup (claim_key method path) c.seen)

  unfoldable pub claims : List Violation → OperationModel R A → Compiler R A → Compiler R A
  claims found m c =
      claim_route m.method m.path (label_of m.method m.path)
        (claim_id (label_of m.method m.path) m.id (report found c))

  -- What the claims leave: everything is new, or more has been reported.
  abbrev pub AfterClaims :
      List Violation → OperationModel R A → Compiler R A → Compiler R A → Type 0
  AfterClaims found m c after =
      (((lookup m.id c.op_ids ≡ none) × (lookup (claim_key m.method m.path) c.seen ≡ none))
        × (after ≡ record c {
          violations = c.violations ++ found;
          seen = insert (claim_key m.method m.path) m.path c.seen;
          op_ids = insert m.id (label_of m.method m.path) c.op_ids;
        }))
      ⊎ (Unkept c after × Reports c after)

  after_id :
      (found : List Violation) (m : OperationModel R A) (c next : Compiler R A)
      → ((lookup m.id c.op_ids ≡ none)
          × (next ≡ record (report found c) {
            op_ids = insert m.id (label_of m.method m.path) c.op_ids;
          }))
        ⊎ ((v : Violation) × (next ≡ report (v ∷ []) (report found c)))
      → AfterClaims found m c (claim_route m.method m.path (label_of m.method m.path) next)
  after_id found m c next (inl (free, e)) =
      elim (claim_route-cases m.method m.path (label_of m.method m.path) next) [
        | inl (vacant, k) ↦ inl (
          (free, subst (λ n. lookup (claim_key m.method m.path) n.seen ≡ none) e vacant),
          rw (k, e) refl,
        )
        | inr (v, k) ↦ inr (
            rw (k, e)
              (
                record {
                  same_ops = refl;
                  keeps_ids = insert-Keeps _ _ _;
                  keeps_routes = λ key h. h;
                  grows = (_, append_assoc c.violations found _);
                },
                more c.violations found v [],
              ))
      ]
  after_id found m c next (inr (v, e)) =
      elim (claim_route-cases m.method m.path (label_of m.method m.path) next) [
        | inl (vacant, k) ↦ inr (
            rw (k, e)
              (
                record {
                  same_ops = refl;
                  keeps_ids = λ key h. h;
                  keeps_routes = insert-Keeps _ _ _;
                  grows = (_, append_assoc c.violations found _);
                },
                more c.violations found v [],
              ))
        | inr (w, k) ↦ inr (
            rw (k, e)
              (
                record {
                  same_ops = refl;
                  keeps_ids = λ key h. h;
                  keeps_routes = λ key h. h;
                  grows = (
                    _,
                    append_assoc (c.violations ++ found) (v ∷ []) (w ∷ [])
                        ∙ append_assoc c.violations found _,
                  );
                },
                rw (append_assoc (c.violations ++ found) (v ∷ []) (w ∷ []))
                    (more c.violations found v (w ∷ [])),
              ))
      ]

  pub claims-cases :
      (found : List Violation) (m : OperationModel R A) (c : Compiler R A)
      → AfterClaims found m c (claims found m c)
  unfolding claims
  claims-cases found m c =
      after_id found m c (claim_id (label_of m.method m.path) m.id (report found c))
        (claim_id-cases (label_of m.method m.path) m.id (report found c))
