-- ===== src/Compile/Fuel.antt =====
-- The fuel of the recursion over the groups is enough: it is one more than the number of groups,
-- and each step down enters a group that is not active.
use golang_postgres_starter.Base.{
  ℕ, suc, zero, ◌+◌, ◌≤◌, ◌<◌, Text, Bool, true, false, if◌then◌else◌, ◌==◌, nat_eq, nat_beq_iff,
  List, [], ◌∷◌, Option, none, some, length, contains, get_elem?, ◌≡◌, refl, ap, subst, fun_ext,
  ltb, ltb→lt, ◌∙◌, inl, inr, arith, Bool-cases,
}
use golang_postgres_starter.Problem.{ProblemDetails}
use golang_postgres_starter.Problem.Dispatch.{RequestLine}
use golang_postgres_starter.Guard.{Guard}
use golang_postgres_starter.Declaration.{Group}
use golang_postgres_starter.Compile.{Visit, enter, node, compile, new_compiler}
use golang_postgres_starter.Compile.Operation.{Compiler}

-- How many of the first `n` numbers are not active.
remaining : ℕ → List ℕ → ℕ
remaining zero active = 0
remaining (suc n) active = (if contains active n then 0 else 1) + remaining n active

remaining_le : (n : ℕ) (active : List ℕ) → remaining n active ≤ n
unfolding remaining
remaining_le zero active = omega arith
remaining_le (suc n) active = ground (arith, remaining_le n active)

remaining-cons_le : (n i : ℕ) (active : List ℕ) → remaining n (i ∷ active) ≤ remaining n active
unfolding remaining
remaining-cons_le zero i active = omega arith
remaining-cons_le (suc n) i active = ground (arith, remaining-cons_le n i active)

remaining-cons_lt :
    (n i : ℕ) (active : List ℕ)
    → i < n
    → contains active i ≡ false
    → remaining n (i ∷ active) < remaining n active
unfolding remaining
remaining-cons_lt zero i active h k = omega arith
remaining-cons_lt (suc n) i active h k = elim (Bool-cases (i == n)) [
  | inl last ↦
      let free = subst (λ j. contains active j ≡ false) ((nat_beq_iff i n).0 last) k in
      ground (arith, free, last, remaining-cons_le n i active)
  | inr other ↦ ground (
    arith,
    other,
    nat_beq_iff i n,
    remaining-cons_lt n i active (ground (arith, nat_beq_iff i n)) k,
  )
]

get_elem?-lt : {A : Type 0} (xs : List A) (i : ℕ) (x : A) → get_elem? xs i ≡ some x → i < length xs
get_elem?-lt [] i x h = ground arith
get_elem?-lt (y ∷ ys) zero x h = omega arith
get_elem?-lt (y ∷ ys) (suc i) x h = omega (arith, get_elem?-lt ys i x h)

module _ {R A Req Rep : Type 0} (encodes : ProblemDetails → Bool) (line : R → RequestLine)
    (endpoint_fault cookie_fault mount_fault : Text → Option Text)
    (store : List (Group R A Req Rep)) where
  -- The head of `node` asks for its children only at a group that is there and not active.
  enter-same :
      (v w : Visit R A) (i : ℕ) (cyclic : Bool) (found : Option (Group R A Req Rep)) (prefix : Text)
      (chain : List (Guard R)) (c : Compiler R A)
      → (cyclic ≡ false → (g : Group R A Req Rep) → found ≡ some g → v ≡ w)
      → enter encodes line endpoint_fault cookie_fault mount_fault store v i cyclic found prefix
          chain c
        ≡ enter encodes line endpoint_fault cookie_fault mount_fault store w i cyclic found prefix
            chain c
  unfolding enter
  enter-same v w i true found prefix chain c h = refl
  enter-same v w i false none prefix chain c h = refl
  enter-same v w i false (some g) prefix chain c h =
      ap
        (λ visit.
          enter encodes line endpoint_fault cookie_fault mount_fault store visit i false (some g)
            prefix chain c)
        (h refl g refl)

  node-suc :
      (fuel : ℕ) (active : List ℕ) (id : Option ℕ) (prefix : Text) (chain : List (Guard R))
      (c : Compiler R A)
      → remaining (length store) active < fuel
      → node encodes line endpoint_fault cookie_fault mount_fault store
          (suc fuel)
          active
          id
          prefix
          chain
          c
        ≡ node encodes line endpoint_fault cookie_fault mount_fault store fuel active id prefix
            chain c
  unfolding node
  node-suc zero active id prefix chain c h = ground arith
  node-suc (suc fuel) active none prefix chain c h = refl
  node-suc (suc fuel) active (some i) prefix chain c h =
      enter-same _ _ i (contains active i) (get_elem? store i) prefix chain c (λ free g found.
        fun_ext (λ id. fun_ext (λ p. fun_ext (λ gs. fun_ext (λ d.
          node-suc fuel (i ∷ active) id p gs d (
            omega (
              arith,
              h,
              remaining-cons_lt (length store) i active (get_elem?-lt store i g found) free,
            )))))))

  -- The fuel of `compile` is enough: every larger amount gives the same compiler and the same plan.
  pub compile-fuel :
      (i fuel : ℕ)
      → length store < fuel
      → node encodes line endpoint_fault cookie_fault mount_fault store fuel []
          (some i)
          []
          []
          new_compiler
        ≡ compile encodes line endpoint_fault cookie_fault mount_fault store i
  unfolding compile
  compile-fuel i zero h = ground arith
  compile-fuel i (suc fuel) h = elim (Bool-cases (ltb (length store) fuel)) [
    | inl larger ↦
        node-suc fuel [] (some i) [] [] new_compiler
          (omega (arith, remaining_le (length store) [], ltb→lt (length store) fuel larger))
        ∙ compile-fuel i fuel (ltb→lt (length store) fuel larger)
    | inr least ↦
        ap
          (λ n.
            node encodes line endpoint_fault cookie_fault mount_fault store (suc n) [] (some i) []
              [] new_compiler)
          (smallest fuel (length store) least h)
  ]
    where
      smallest : (fuel n : ℕ) → ltb n fuel ≡ false → n < suc fuel → fuel ≡ n
      smallest fuel n h k = ground arith
