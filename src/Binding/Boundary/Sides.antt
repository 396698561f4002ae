-- ===== src/Binding/Boundary/Sides.antt =====
-- Which requests pass the check of the references between their fields.
use golang_postgres_starter.Base.{
  Text, true, false, ◌==◌, nat_eq, text_eq, list_beq_iff, List, [], ◌∷◌, contains, some, Memᴰ,
  append-eq-nil_iff, ◌≡◌, ◌≢◌, ◌↔◌, ◌⊎◌, inl, inr, refl, sym, ◌∙◌, ap, subst, Bool-cases, arith,
  All, Any, All-mem,
}
use golang_postgres_starter.Binding.Boundary.{
  TaggedField, Side, param_side, body_side, field_names, other_fields, check_target, check_targets,
  check_tagged, cross_field_targets, validate_cross_field_boundary,
}
use golang_postgres_starter.Binding.Boundary.Written.{Rule, IsEntry, tag_references, write_tag}
use golang_postgres_starter.Binding.Boundary.Read.{cross_field_targets-write_tag}

-- The tag of the field is written from these rules.
abbrev pub Writes : TaggedField → List (List Rule) → Type 0
Writes f entries = All IsEntry entries × (f.validate ≡ write_tag entries)

abbrev pub IsWritten : TaggedField → Type 0
IsWritten f = (entries : List (List Rule)) × Writes f entries

-- The tag of the field refers to the name.
abbrev pub Refers : TaggedField → Text → Type 0
Refers f n = (entries : List (List Rule)) × Writes f entries × Memᴰ n (tag_references entries)

-- A name of a parameter field, and one of a field of the body.
abbrev pub IsParam : List TaggedField → Text → Text → Type 0
IsParam fields body n = Any (λ (f : TaggedField). (f.name ≢ body) × (f.name ≡ n)) fields

abbrev pub IsBody : List TaggedField → Text → Type 0
IsBody inner n = Any (λ (f : TaggedField). f.name ≡ n) inner

module _ (fields : List TaggedField) (body : Text) (inner : List TaggedField) where
  abbrev pub ParamMayRefer : Text → Type 0
  ParamMayRefer n = IsParam fields body n ⊎ ¬ IsBody inner n

  abbrev pub BodyMayRefer : Text → Type 0
  BodyMayRefer n = IsBody inner n ⊎ ¬ IsParam fields body n

  -- No field refers to a name that only the other side has.
  pub record StaysInside : Type 0 where
    pub of_params :
        All (λ (f : TaggedField). f.name ≢ body → (n : Text) → Refers f n → ParamMayRefer n) fields
    pub of_body : All (λ (f : TaggedField). (n : Text) → Refers f n → BodyMayRefer n) inner

equal_names : (m n : Text) → (m == n) ≡ false → m ≢ n
equal_names m n h e = cc (h, (list_beq_iff m n).1 e)

IsBody-names_iff :
    (inner : List TaggedField) (n : Text) → (contains (field_names inner) n ≡ true) ↔ IsBody inner n
IsBody-names_iff [] n = ground arith
IsBody-names_iff (f ∷ fs) n = ground (arith, list_beq_iff f.name n, IsBody-names_iff fs n)

IsParam-names_iff :
    (body : Text) (fields : List TaggedField) (n : Text)
    → (contains (field_names (other_fields body fields)) n ≡ true) ↔ IsParam fields body n
unfolding other_fields
IsParam-names_iff body [] n = ground arith
IsParam-names_iff body (f ∷ fs) n =
    ground (arith, list_beq_iff f.name body, list_beq_iff f.name n, IsParam-names_iff body fs n)

abbrev Fits : List Text → List Text → Text → Type 0
Fits siblings other n = (contains siblings n ≡ true) ⊎ (contains other n ≡ false)

module _ (side : Side) (siblings other : List Text) where
  check_target_iff :
      (field n : Text) → (check_target side siblings other field n ≡ []) ↔ Fits siblings other n
  check_target_iff field n = ground arith

  check_targets_iff :
      (field : Text) (ns : List Text)
      → (check_targets side siblings other field ns ≡ []) ↔ All (Fits siblings other) ns
  unfolding check_targets
  check_targets_iff field [] = ((λ _. tt), λ _. refl)
  check_targets_iff field (n ∷ ns) =
      let halves =
        append-eq-nil_iff {p = check_target side siblings other field n}
          {q = check_targets side siblings other field ns} in
      (
        (λ h.
            let (here, rest) = halves.0 h in
            ((check_target_iff field n).0 here, (check_targets_iff field ns).0 rest)),
        λ a. halves.1 ((check_target_iff field n).1 a.0, (check_targets_iff field ns).1 a.1),
      )

  check_tagged_iff :
      (fs : List TaggedField)
      → (check_tagged side siblings other fs ≡ [])
        ↔ All (λ (f : TaggedField). All (Fits siblings other) (cross_field_targets f.validate)) fs
  unfolding check_tagged
  check_tagged_iff [] = ((λ _. tt), λ _. refl)
  check_tagged_iff (f ∷ fs) =
      let halves =
        append-eq-nil_iff
          {p = check_targets side siblings other f.name (cross_field_targets f.validate)}
          {q = check_tagged side siblings other fs} in
      (
        (λ h.
            let (here, rest) = halves.0 h in
            ((check_targets_iff f.name _).0 here, (check_tagged_iff fs).0 rest)),
        λ a. halves.1 ((check_targets_iff f.name _).1 a.0, (check_tagged_iff fs).1 a.1),
      )

All-tabulate : (P : Text → Type 0) (ns : List Text) → ((n : Text) → Memᴰ n ns → P n) → All P ns
All-tabulate P [] f = tt
All-tabulate P (n ∷ ns) f =
    (f n (Memᴰ.head refl), All-tabulate P ns (λ m found. f m (Memᴰ.tail found)))

-- On a written tag the targets are the names that it refers to.
references_iff :
    (P : Text → Type 0) (f : TaggedField)
    → IsWritten f
    → All P (cross_field_targets f.validate) ↔ ((n : Text) → Refers f n → P n)
references_iff P f (entries, (is, e)) = (
  (λ a n (others, (are, same), found).
      All-mem P n (tag_references others) (subst (All P) (targets others are same) a) found),
  λ all.
      subst (All P) (sym (targets entries is e))
        (All-tabulate P (tag_references entries) (λ n found. all n (entries, (is, e), found))),
)
  where
    targets :
        (es : List (List Rule))
        → All IsEntry es
        → f.validate ≡ write_tag es
        → cross_field_targets f.validate ≡ tag_references es
    targets es are same = ap cross_field_targets same ∙ cross_field_targets-write_tag es are

-- A name of the own side, or none of the other one, as propositions.
Fits-iff :
    (siblings other : List Text) (n : Text) (Own Across : Type 0)
    → (contains siblings n ≡ true) ↔ Own
    → (contains other n ≡ true) ↔ Across
    → Fits siblings other n ↔ (Own ⊎ ¬ Across)
Fits-iff siblings other n Own Across own across = ground arith

All-iff :
    (P Q W : TaggedField → Type 0) (fs : List TaggedField)
    → ((f : TaggedField) → W f → P f ↔ Q f)
    → All W fs
    → All P fs ↔ All Q fs
All-iff P Q W [] h w = ((λ _. tt), λ _. tt)
All-iff P Q W (f ∷ fs) h (here, w) =
    let rest = All-iff P Q W fs h w in
    ((λ a. ((h f here).0 a.0, rest.0 a.1)), λ a. ((h f here).1 a.0, rest.1 a.1))

All-other_fields :
    (P : TaggedField → Type 0) (body : Text) (fs : List TaggedField)
    → All P (other_fields body fs) ↔ All (λ (f : TaggedField). f.name ≢ body → P f) fs
unfolding other_fields
All-other_fields P body [] = ((λ _. tt), λ _. tt)
All-other_fields P body (f ∷ fs) =
    let rest = All-other_fields P body fs in
    elim (Bool-cases (f.name == body)) [
      | inl same ↦ rw same (
        (λ a. ((λ other. absurd (other ((list_beq_iff f.name body).0 same))), rest.0 a)),
        λ a. rest.1 a.1,
      )
      | inr differs ↦ rw differs (
        (λ a. ((λ _. a.0), rest.0 a.1)),
        λ a. (a.0 (equal_names f.name body differs), rest.1 a.1),
      )
    ]

-- The check of one side, against what its fields may refer to.
side_iff :
    (siblings other : List Text) (Own Across : Text → Type 0)
    → ((n : Text) → (contains siblings n ≡ true) ↔ Own n)
    → ((n : Text) → (contains other n ≡ true) ↔ Across n)
    → (f : TaggedField) → IsWritten f
    → All (Fits siblings other) (cross_field_targets f.validate)
      ↔ ((n : Text) → Refers f n → Own n ⊎ ¬ Across n)
side_iff siblings other Own Across own across f written =
    let read = references_iff (Fits siblings other) f written in
    let fits = λ (n : Text). Fits-iff siblings other n (Own n) (Across n) (own n) (across n) in
    (
      (λ a n found. (fits n).0 (read.0 a n found)),
      λ all. read.1 (λ n found. (fits n).1 (all n found)),
    )

module _ (fields : List TaggedField) (body : Text) (inner : List TaggedField) where
  abbrev params : List TaggedField
  params = other_fields body fields

  params_iff :
      All IsWritten fields
      → (check_tagged param_side (field_names params) (field_names inner) params ≡ [])
        ↔ All
            (λ (f : TaggedField).
              f.name ≢ body → (n : Text) → Refers f n → ParamMayRefer fields body inner n)
            fields
  params_iff written =
      let checked = check_tagged_iff param_side (field_names params) (field_names inner) params in
      let left =
        All-other_fields
          (λ f.
            All (Fits (field_names params) (field_names inner)) (cross_field_targets f.validate))
          body fields in
      let meant =
        All-iff
          (λ f.
            f.name ≢ body
            → All (Fits (field_names params) (field_names inner)) (cross_field_targets f.validate))
          (λ f. f.name ≢ body → (n : Text) → Refers f n → ParamMayRefer fields body inner n)
          IsWritten fields
          (λ f w.
            let here =
              side_iff (field_names params) (field_names inner) (IsParam fields body) (IsBody inner)
                (IsParam-names_iff body fields) (IsBody-names_iff inner) f w in
            ((λ a differs. here.0 (a differs)), λ a differs. here.1 (a differs)))
          written in
      ((λ h. meant.0 (left.0 (checked.0 h))), λ a. checked.1 (left.1 (meant.1 a)))

  body_iff :
      All IsWritten inner
      → (check_tagged body_side (field_names inner) (field_names params) inner ≡ [])
        ↔ All
            (λ (f : TaggedField). (n : Text) → Refers f n → BodyMayRefer fields body inner n)
            inner
  body_iff written =
      let checked = check_tagged_iff body_side (field_names inner) (field_names params) inner in
      let meant =
        All-iff
          (λ f.
            All (Fits (field_names inner) (field_names params)) (cross_field_targets f.validate))
          (λ f. (n : Text) → Refers f n → BodyMayRefer fields body inner n) IsWritten inner
          (side_iff (field_names inner) (field_names params) (IsBody inner) (IsParam fields body)
            (IsBody-names_iff inner) (IsParam-names_iff body fields))
          written in
      ((λ h. meant.0 (checked.0 h)), λ a. checked.1 (meant.1 a))

  -- The check of the boundary passes exactly if no field of the request, the body left out, refers
  -- to a name that the fields of the body have and the other fields of the request have not, and no
  -- field of the body refers to one of a field of the request that the body has not. The validate
  -- tags are written from rules whose words have neither white space, commas nor bars.
  pub validate_boundary_iff :
      All IsWritten fields
      → All IsWritten inner
      → (validate_cross_field_boundary fields body (some inner) ≡ [])
        ↔ StaysInside fields body inner
  unfolding validate_cross_field_boundary
  validate_boundary_iff fields_written inner_written =
      let halves =
        append-eq-nil_iff
          {p = check_tagged param_side (field_names params) (field_names inner) params}
          {q = check_tagged body_side (field_names inner) (field_names params) inner} in
      let of_params = params_iff fields_written in
      let of_body = body_iff inner_written in
      (
        (λ h. record {
          of_params = of_params.0 (halves.0 h).0;
          of_body = of_body.0 (halves.0 h).1;
        }),
        λ stays. halves.1 (of_params.1 stays.of_params, of_body.1 stays.of_body),
      )
