-- ===== src/Document/Covers.antt =====
-- The failures of the adapter and of the guards have responses in the document.
use golang_postgres_starter.Base.{
  Text, ◌==◌, nat_eq, text_eq, list_beq_iff, List, [], ◌∷◌, some, lookup, insert, lookup-insert,
  ◌≡◌, refl, ◌∙◌, inl, inr, Bool-cases, Option-cases, All, All-map, arith,
}
use golang_postgres_starter.Strconv.{format_nat}
use golang_postgres_starter.Problem.{ProblemKind, status}
use golang_postgres_starter.Guard.{Guard}
use golang_postgres_starter.Document.{
  DocResponse, Responses, add_missing, add_codes, add_kinds, add_guards, add_challenge,
  has_challenge_guard,
}

abbrev pub IsDocumented : Text → Responses → Type 0
IsDocumented code responses = (r : DocResponse) × (lookup code responses ≡ some r)

insert-here :
    (code : Text) (r : DocResponse) (rs : Responses) → IsDocumented code (insert code r rs)
insert-here code r rs = (r, ground (arith, lookup-insert code code r rs, list_beq_iff code code))

insert-keeps :
    (c code : Text) (r : DocResponse) (rs : Responses)
    → IsDocumented c rs
    → IsDocumented c (insert code r rs)
insert-keeps c code r rs (old, h) = elim (Bool-cases (c == code)) [
  | inl same ↦ (r, lookup-insert c code r rs ∙ rw same refl)
  | inr other ↦ (old, lookup-insert c code r rs ∙ rw other h)
]

add_missing-keeps :
    (c code : Text) (r : DocResponse) (rs : Responses)
    → IsDocumented c rs
    → IsDocumented c (add_missing code r rs)
unfolding add_missing
add_missing-keeps c code r rs h = elim (Option-cases (lookup code rs)) [
  | inl lacking ↦ rw lacking (insert-keeps c code r rs h)
  | inr (old, found) ↦ rw found h
]

add_missing-here :
    (code : Text) (r : DocResponse) (rs : Responses) → IsDocumented code (add_missing code r rs)
unfolding add_missing
add_missing-here code r rs = elim (Option-cases (lookup code rs)) [
  | inl lacking ↦ rw lacking (insert-here code r rs)
  | inr (old, found) ↦ rw found (old, found)
]

add_codes-keeps :
    (c : Text) (cs : List Text) (rs : Responses)
    → IsDocumented c rs
    → IsDocumented c (add_codes cs rs)
unfolding add_codes
add_codes-keeps c [] rs h = h
add_codes-keeps c (code ∷ cs) rs h = add_codes-keeps c cs _ (add_missing-keeps c code _ rs h)

pub add_codes-here :
    (cs : List Text) (rs : Responses) → All (λ c. IsDocumented c (add_codes cs rs)) cs
unfolding add_codes
add_codes-here [] rs = tt
add_codes-here (code ∷ cs) rs =
    (add_codes-keeps code cs _ (add_missing-here code _ rs), add_codes-here cs _)

add_kinds-keeps :
    (c : Text) (kinds : List ProblemKind) (rs : Responses)
    → IsDocumented c rs
    → IsDocumented c (add_kinds kinds rs)
unfolding add_kinds
add_kinds-keeps c [] rs h = h
add_kinds-keeps c (k ∷ kinds) rs h = add_kinds-keeps c kinds _ (add_missing-keeps c _ _ rs h)

abbrev pub code_of : ProblemKind → Text
code_of kind = format_nat (status kind)

add_kinds-here :
    (kinds : List ProblemKind) (rs : Responses)
    → All (λ k. IsDocumented (code_of k) (add_kinds kinds rs)) kinds
unfolding add_kinds
add_kinds-here [] rs = tt
add_kinds-here (k ∷ kinds) rs =
    (add_kinds-keeps _ kinds _ (add_missing-here _ _ rs), add_kinds-here kinds _)

module _ {R : Type 0} where
  pub add_guards-keeps :
      (c : Text) (gs : List (Guard R)) (rs : Responses)
      → IsDocumented c rs
      → IsDocumented c (add_guards gs rs)
  unfolding add_guards
  add_guards-keeps c [] rs h = h
  add_guards-keeps c (g ∷ gs) rs h = add_guards-keeps c gs _ (add_kinds-keeps c g.problems rs h)

  pub add_guards-here :
      (gs : List (Guard R)) (rs : Responses)
      → All (λ g. All (λ k. IsDocumented (code_of k) (add_guards gs rs)) g.problems) gs
  unfolding add_guards
  add_guards-here [] rs = tt
  add_guards-here (g ∷ gs) rs = (
    All-map (λ k. IsDocumented (code_of k) (add_kinds g.problems rs))
        (λ k. IsDocumented (code_of k) (add_guards gs (add_kinds g.problems rs)))
        (λ k h. add_guards-keeps (code_of k) gs _ h) g.problems (add_kinds-here g.problems rs),
    add_guards-here gs _,
  )

  pub add_challenge-keeps :
      (c : Text) (gs : List (Guard R)) (rs : Responses)
      → IsDocumented c rs
      → IsDocumented c (add_challenge gs rs)
  unfolding add_challenge
  add_challenge-keeps c gs rs h = elim (Bool-cases (has_challenge_guard gs)) [
    | inl some_guard ↦ rw some_guard (insert-keeps c _ _ rs h)
    | inr no_guard ↦ rw no_guard h
  ]
