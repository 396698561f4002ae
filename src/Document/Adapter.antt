-- ===== src/Document/Adapter.antt =====
-- What the adapter and the guards of a typed operation fail with stands in its document.
use golang_postgres_starter.Base.{
  ℕ, Text, codes, Bool, true, false, not, ◌&&◌, ◌||◌, if◌then◌else◌, List, [], ◌∷◌, ◌++◌, Option,
  none, some, ◌≡◌, ◌≢◌, refl, sym, subst, inl, inr, ◌⊎◌, All, All-map,
}
use golang_postgres_starter.Strconv.{format_nat, digits}
use golang_postgres_starter.Problem.{
  ProblemKindId, kind_of, status, problem_definition, bad_request, payload_too_large,
  unsupported_media_type,
}
use golang_postgres_starter.Problem.Errors.{GoError, failed}
use golang_postgres_starter.Guard.{Guard}
use golang_postgres_starter.Binding.{Value, Parsers, Parameters}
use golang_postgres_starter.Binding.Body.{Decoding, decoded, BodyPlan}
use golang_postgres_starter.Binding.Wire.{Carrier, Stream, finished, refuse}
use golang_postgres_starter.Binding.Bind.{
  FieldBinder, RequestPlan, Target, validate_enum_values, bind,
}
use golang_postgres_starter.Binding.Plan.{StructField}
use golang_postgres_starter.Binding.Plan.Compile.{compile_request}
use golang_postgres_starter.Binding.Failure.{
  BindFailure, malformed, too_large, mistyped, invalid, bind-BindFailure,
}
use golang_postgres_starter.Document.{
  Responses, add_codes, add_guards, derived_codes, apply_derived_error_responses, binds, has_body,
  has_fields,
}
use golang_postgres_starter.Document.Covers.{
  IsDocumented, code_of, add_codes-here, add_guards-keeps, add_guards-here, add_challenge-keeps,
}

pick_malformed :
    (Q : Text → Type 0) (binding can body fails : Bool)
    → binding ≡ true
    → can ≡ true
    → All Q (
        if binding
        then (if can then codes "400" ∷ [] else [])
          ++ ((if body then codes "413" ∷ codes "415" ∷ [] else [])
              ++ (if fails then codes "422" ∷ [] else []))
        else [])
    → Q (codes "400")
pick_malformed Q true true body fails b c (h, rest) = h
pick_malformed Q true false body fails b c all = cc
pick_malformed Q false can body fails b c all = cc

pick_body :
    (Q : Text → Type 0) (binding can body fails : Bool)
    → binding ≡ true
    → body ≡ true
    → All Q (
        if binding
        then (if can then codes "400" ∷ [] else [])
          ++ ((if body then codes "413" ∷ codes "415" ∷ [] else [])
              ++ (if fails then codes "422" ∷ [] else []))
        else [])
    → Q (codes "413") × Q (codes "415")
pick_body Q true true true fails b c (h, (large, (typed, rest))) = (large, typed)
pick_body Q true false true fails b c (large, (typed, rest)) = (large, typed)
pick_body Q true can false fails b c all = cc
pick_body Q false can body fails b c all = cc

has_fields-true : {L : Type 0} (fs : List (FieldBinder L)) → fs ≢ [] → has_fields fs ≡ true
has_fields-true [] held = absurd (held refl)
has_fields-true (f ∷ fs) held = refl

has_body-true : (b : Option BodyPlan) → b ≢ none → has_body b ≡ true
has_body-true none held = absurd (held refl)
has_body-true (some body) held = refl

any_true :
    (none_in fields body : Bool)
    → none_in ≡ false
    → ((fields ≡ true) ⊎ (body ≡ true))
    → (not none_in && (fields || body)) ≡ true
any_true true f b e some_in = cc
any_true false true b e some_in = refl
any_true false false true e some_in = refl
any_true false false false e (inl h) = cc
any_true false false false e (inr h) = cc

binds-true :
    {L B : Type 0} (p : RequestPlan L B)
    → p.no_input ≡ false
    → ((p.fields ≢ []) ⊎ (p.body ≢ none))
    → binds false p ≡ true
binds-true p input held =
    any_true p.no_input (has_fields p.fields) (has_body p.body) input (either held)
  where
    either :
        ((p.fields ≢ []) ⊎ (p.body ≢ none))
        → ((has_fields p.fields ≡ true) ⊎ (has_body p.body ≡ true))
    either (inl fields) = inl (has_fields-true p.fields fields)
    either (inr body) = inr (has_body-true p.body body)

malformed_code : code_of (kind_of bad_request) ≡ codes "400"
unfolding format_nat digits status problem_definition
malformed_code = refl

large_code : code_of (kind_of payload_too_large) ≡ codes "413"
unfolding format_nat digits status problem_definition
large_code = refl

mistyped_code : code_of (kind_of unsupported_media_type) ≡ codes "415"
unfolding format_nat digits status problem_definition
mistyped_code = refl

module _ {L B R : Type 0} (p : RequestPlan L B) (can_fail_validation : Bool)
    (guards : List (Guard R)) (responses : Responses) where
  abbrev pub documented : Responses
  documented = apply_derived_error_responses false (some p) can_fail_validation guards responses

  lifted :
      (code : Text)
      → IsDocumented code (add_codes (derived_codes false (some p) can_fail_validation) responses)
      → IsDocumented code documented
  unfolding apply_derived_error_responses
  lifted code h = add_challenge-keeps code guards _ (add_guards-keeps code guards _ h)

  codes_lifted :
      All (λ code. IsDocumented code documented) (derived_codes false (some p) can_fail_validation)
  codes_lifted =
      All-map
        (λ code.
          IsDocumented code
            (add_codes (derived_codes false (some p) can_fail_validation) responses))
        (λ code. IsDocumented code documented) lifted
        (derived_codes false (some p) can_fail_validation) (add_codes-here _ responses)

  guards_lifted : All (λ g. All (λ k. IsDocumented (code_of k) documented) g.problems) guards
  unfolding apply_derived_error_responses
  guards_lifted =
      let coded = add_codes (derived_codes false (some p) can_fail_validation) responses in
      All-map
        (λ (g : Guard R). All (λ k. IsDocumented (code_of k) (add_guards guards coded)) g.problems)
        (λ (g : Guard R). All (λ k. IsDocumented (code_of k) documented) g.problems)
        (λ g.
          All-map (λ k. IsDocumented (code_of k) (add_guards guards coded))
            (λ k. IsDocumented (code_of k) documented)
            (λ k h. add_challenge-keeps (code_of k) guards _ h) g.problems)
        guards (add_guards-here guards coded)

  -- The failure is a problem whose status the document lists, or one of the validation.
  pub data Told (validate : Target L B → Option GoError) : GoError → Type 0 where
    listed :
        (kind : ProblemKindId) (detail : Text)
        → IsDocumented (code_of (kind_of kind)) documented
        → Told validate (refuse kind detail)
    of_validation :
        (t : Target L B) (err : GoError)
        → ((validate t ≡ some err) ⊎ ((validate t ≡ none) × (validate_enum_values p t ≡ some err)))
        → Told validate err

  told :
      (validate : Target L B → Option GoError) (err : GoError)
      → p.no_input ≡ false
      → BindFailure validate p err
      → Told validate err
  unfolding derived_codes
  told validate _ input (malformed detail can held) = listed bad_request detail (
      subst (λ c. IsDocumented c documented) (sym malformed_code)
        (pick_malformed (λ c. IsDocumented c documented) (binds false p) p.can_fail_bind
          (has_body p.body) can_fail_validation (binds-true p input held) can codes_lifted.1))
  told validate _ input (too_large detail held) = listed payload_too_large detail (
      subst (λ c. IsDocumented c documented) (sym large_code)
        (pick_body (λ c. IsDocumented c documented) (binds false p) p.can_fail_bind
          (has_body p.body) can_fail_validation (binds-true p input (inr held))
          (has_body-true p.body held) codes_lifted.1).0)
  told validate _ input (mistyped detail held) = listed unsupported_media_type detail (
      subst (λ c. IsDocumented c documented) (sym mistyped_code)
        (pick_body (λ c. IsDocumented c documented) (binds false p) p.can_fail_bind
          (has_body p.body) can_fail_validation (binds-true p input (inr held))
          (has_body-true p.body held) codes_lifted.1).1)
  told validate _ input (invalid t err h) = of_validation t err h

  -- The responses that the document derives for a typed operation cover its failures in front of
  -- the handler: the 500, the status of every problem that a guard on it declares, and, where its
  -- compiled plan fails to bind a request, the status of the problem that it fails with, unless the
  -- failure is one of the validation. The plan takes some input, and the JSON decoder reads to the
  -- end of what it decodes.
  pub document-Told :
      (quote : Text → Text) (unmarshal : Stream → Decoding B)
      (unmarshal_raw : List ℕ → B × Option GoError)
      (reads_to_end : (s : Stream) (b : B) → unmarshal s ≡ decoded b → s.end ≡ finished)
      (validate : Target L B → Option GoError) (lib : Parsers L)
      (checks : RequestPlan L B → List Text) (method : Text)
      (fields : Option (List (StructField L B))) (carrier : Carrier) (r : Parameters)
      (zero : ℕ → Value L)
      → (compile_request lib checks method fields).0 ≡ some p
      → p.no_input ≡ false
      → IsDocumented (codes "500") documented
        × All (λ g. All (λ k. IsDocumented (code_of k) documented) g.problems) guards
        × ((err : GoError)
            → bind quote unmarshal unmarshal_raw validate p carrier r zero ≡ failed err
            → Told validate err)
  unfolding derived_codes
  document-Told quote unmarshal unmarshal_raw reads_to_end validate lib checks method fields carrier
        r zero compiled input =
      (
        codes_lifted.0,
        guards_lifted,
        (λ err h. told validate err input (
            bind-BindFailure quote unmarshal unmarshal_raw reads_to_end validate lib checks method
              fields p compiled carrier r zero err h)),
      )
