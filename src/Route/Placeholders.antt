-- ===== src/Route/Placeholders.antt =====
-- internal/httpx/compile.go, crossCheckPlaceholders: the placeholders of a path against the
-- path fields of a request type.
use golang_postgres_starter.Base.{
  append-eq-nil_iff, Text, true, if◌then◌else◌, ◌==◌, text_eq, list_beq_iff, List, [], ◌∷◌, ◌++◌,
  contains, All, ◌≡◌, sym, ◌∙◌, subst, ◌↔◌, inl, inr, arith, Bool-cases,
}
use golang_postgres_starter.Route.{path_placeholders}

pub data PlaceholderError : Type 0 where
  no_field no_placeholder : Text → PlaceholderError

-- The loop over the placeholders; the first argument is `seen`.
unfoldable pub check_fields : List Text → List Text → List Text → List PlaceholderError
check_fields seen [] params = []
check_fields seen (name ∷ names) params =
    let again = check_fields seen names params in
    let fresh = check_fields (name ∷ seen) names params in
    if contains seen name
    then again
    else (if contains params name then [] else no_field name ∷ []) ++ fresh

-- The loop over the path parameters, once every placeholder has been seen.
unfoldable pub check_params : List Text → List Text → List PlaceholderError
check_params names [] = []
check_params names (param ∷ params) =
    (if contains names param then [] else no_placeholder param ∷ []) ++ check_params names params

unfoldable pub cross_check_placeholders : Text → List Text → List PlaceholderError
unfolding check_fields check_params
cross_check_placeholders path params =
    check_fields [] (path_placeholders path) params ++ check_params (path_placeholders path) params

contains-All :
    (Q : Text → Type 0) (names : List Text) (name : Text)
    → All Q names
    → contains names name ≡ true
    → Q name
contains-All Q [] name h k = ground arith
contains-All Q (n ∷ names) name (q, h) k = elim (Bool-cases (n == name)) [
  | inl same ↦ subst Q ((list_beq_iff n name).0 same) q
  | inr other ↦ contains-All Q names name h (ground arith)
]

All-contains :
    (Q : Text → Type 0) (names : List Text)
    → ((name : Text) → contains names name ≡ true → Q name)
    → All Q names
All-contains Q [] f = tt
All-contains Q (n ∷ names) f =
    (f n (ground (arith, list_beq_iff n n)), All-contains Q names (λ name h. f name (ground arith)))

check_params_iff :
    (names params : List Text)
    → (check_params names params ≡ []) ↔ All (λ p. contains names p ≡ true) params
unfolding check_params
check_params_iff names [] = ground arith
check_params_iff names (p ∷ params) = ground (arith, check_params_iff names params)

-- Names that have been seen are fields already.
check_fields_iff :
    (seen names params : List Text)
    → All (λ n. contains params n ≡ true) seen
    → (check_fields seen names params ≡ []) ↔ All (λ n. contains params n ≡ true) names
unfolding check_fields
check_fields_iff seen [] params h = ground arith
check_fields_iff seen (name ∷ names) params h = elim (Bool-cases (contains params name)) [
  | inl field ↦ ground (
    arith,
    field,
    check_fields_iff seen names params h,
    check_fields_iff (name ∷ seen) names params (field, h),
  )
  | inr missing ↦
      let unseen = contains-All (λ n. contains params n ≡ true) seen name h in
      ground (arith, missing, unseen)
]

both_iff :
    (names params : List Text)
    → (All (λ n. contains params n ≡ true) names × All (λ p. contains names p ≡ true) params)
      ↔ ((name : Text) → contains names name ≡ contains params name)
both_iff names params = (
  (λ (fields, placeholders) name.
      let there = contains-All (λ n. contains params n ≡ true) names name fields in
      let back = contains-All (λ n. contains names n ≡ true) params name placeholders in
      ground arith),
  λ same. (
    All-contains (λ n. contains params n ≡ true) names (λ name h. sym (same name) ∙ h),
    All-contains (λ n. contains names n ≡ true) params (λ name h. same name ∙ h),
  ),
)

-- The check passes exactly if the placeholders of the path and the path fields of the request are
-- the same names.
pub cross_check_placeholders_iff :
    (path : Text) (params : List Text)
    → (cross_check_placeholders path params ≡ [])
      ↔ ((name : Text) → contains (path_placeholders path) name ≡ contains params name)
unfolding cross_check_placeholders
cross_check_placeholders_iff path params =
    let names = path_placeholders path in
    let split_nil =
      append-eq-nil_iff {p = check_fields [] names params} {q = check_params names params} in
    let fields = check_fields_iff [] names params tt in
    let others = check_params_iff names params in
    let both = both_iff names params in
    (
      (λ h. both.0 (fields.0 (split_nil.0 h).0, others.0 (split_nil.0 h).1)),
      λ same. let (a, b) = both.1 same in split_nil.1 (fields.1 a, others.1 b),
    )
