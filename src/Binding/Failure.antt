-- ===== src/Binding/Failure.antt =====
-- How binding fails, against what a compiled plan says of it.
use golang_postgres_starter.Base.{
  some-injective, some-ne-none, none-ne-some, ℕ, Text, codes, true, ◌==◌, text_eq, List, [], ◌∷◌,
  Option, none, some, ◌≡◌, ◌≢◌, refl, sym, ◌∙◌, ap, inl, inr, ◌⊎◌, Bool-cases, Option-cases, split,
  subst,
}
use golang_postgres_starter.Problem.{bad_request, payload_too_large, unsupported_media_type}
use golang_postgres_starter.Problem.Errors.{
  GoError, Result, Result-cases, ok, failed, failed-injective, failed-ne-ok,
}
use golang_postgres_starter.Binding.{Value, Parsers, Parameters, lookup_raw}
use golang_postgres_starter.Binding.Body.{Decoding, decoded, BodyPlan, BodyValue}
use golang_postgres_starter.Binding.Wire.{
  Carrier, Stream, finished, refuse, check_json_media_type, media_type,
}
use golang_postgres_starter.Binding.Body.Verdict
use golang_postgres_starter.Binding.Body.Verdict.{
  left_out, read_json, captured_raw, refused, BodyOutcome, bind_body-BodyOutcome,
}
use golang_postgres_starter.Binding.Bind.{
  FieldBinder, RequestPlan, Target, put, read_query, bind_fields, validate_enum_values,
  bind_parameters, bind_read, read_body, bind,
}
use golang_postgres_starter.Binding.Plan.{StructField}
use golang_postgres_starter.Binding.Plan.Compile.{compile_request}
use golang_postgres_starter.Binding.Plan.Sound.{compile_request-IsSound}
use golang_postgres_starter.Binding.Own.{bind_fields-sure, validated-failed}

bind_fields-failed :
    {L : Type 0} (fs : List (FieldBinder L)) (r : Parameters) (values : ℕ → Value L) (err : GoError)
    → bind_fields fs r values ≡ failed err
    → (fs ≢ []) × ((detail : Text) × (err ≡ refuse bad_request detail))
unfolding bind_fields
bind_fields-failed [] r values err h = absurd (failed-ne-ok (sym h))
bind_fields-failed (f ∷ fs) r values err h = (
  (λ e. cc),
  elim (Option-cases (lookup_raw f.source f.name r)) [
    | inl lacking ↦ (bind_fields-failed fs r values err (rw (lacking, bind_fields) at h)).1
    | inr (raw, found) ↦ elim (Option-cases (f.assign (values f.index) raw)) [
      | inl wrong ↦ (f.bind_detail, sym (failed-injective (rw (found, bind_fields, wrong) at h)))
      | inr (v, made) ↦
          (bind_fields-failed fs r (put f.index v values) err
            (rw (found, bind_fields, made) at h)).1
    ]
  ],
)

-- The error of a media type.
check_json_media_type-error :
    (content_type : Text) (err : GoError)
    → check_json_media_type content_type ≡ some err
    → (detail : Text) × (err ≡ refuse unsupported_media_type detail)
unfolding check_json_media_type
check_json_media_type-error content_type err h =
    elim (Bool-cases (media_type (split content_type b';') == codes "application/json")) [
      | inl right ↦ absurd (none-ne-some _ (rw right at h))
      | inr wrong ↦ (_, some-injective _ _ (sym (rw wrong at h)))
    ]

-- The failures of a plan: a bad request, where it says so; one of the refusals of a body, where it
-- has a body; or a failure of the validation.
pub data BindFailure {L B : Type 0} (validate : Target L B → Option GoError)
    (plan : RequestPlan L B) : GoError → Type 0 where
  malformed :
      (detail : Text)
      → plan.can_fail_bind ≡ true
      → ((plan.fields ≢ []) ⊎ (plan.body ≢ none))
      → BindFailure validate plan (refuse bad_request detail)
  too_large :
      (detail : Text)
      → plan.body ≢ none
      → BindFailure validate plan (refuse payload_too_large detail)
  mistyped :
      (detail : Text)
      → plan.body ≢ none
      → BindFailure validate plan (refuse unsupported_media_type detail)
  invalid :
      (t : Target L B) (err : GoError)
      → ((validate t ≡ some err) ⊎ ((validate t ≡ none) × (validate_enum_values plan t ≡ some err)))
      → BindFailure validate plan err

module _ {L B : Type 0} (quote : Text → Text) (unmarshal : Stream → Decoding B)
    (unmarshal_raw : List ℕ → B × Option GoError)
    (reads_to_end : (s : Stream) (b : B) → unmarshal s ≡ decoded b → s.end ≡ finished)
    (validate : Target L B → Option GoError) (lib : Parsers L)
    (checks : RequestPlan L B → List Text) (method : Text)
    (fields : Option (List (StructField L B))) (plan : RequestPlan L B)
    (compiled : (compile_request lib checks method fields).0 ≡ some plan) (carrier : Carrier)
    (r : Parameters) (zero : ℕ → Value L) where
  failing_field :
      (err : GoError)
      → bind_fields plan.fields (read_query plan.has_query r) zero ≡ failed err
      → plan.can_fail_bind ≡ true
  failing_field err h = elim (Bool-cases plan.can_fail_bind) [
    | inl says ↦ says
    | inr safe ↦
        let (high, s) = compile_request-IsSound lib checks method fields plan compiled in
        let (out, set) =
          bind_fields-sure plan.fields (read_query plan.has_query r) zero (s.sure safe) in
        absurd (failed-ne-ok (sym h ∙ set))
  ]

  failing_body : plan.body ≢ none → plan.can_fail_bind ≡ true
  failing_body held = elim (Bool-cases plan.can_fail_bind) [
    | inl says ↦ says
    | inr safe ↦
        let (high, s) = compile_request-IsSound lib checks method fields plan compiled in
        absurd (held (s.bodiless safe))
  ]

  parameters-failure :
      (body : BodyValue B) (err : GoError)
      → bind_parameters validate plan r zero body ≡ failed err
      → BindFailure validate plan err
  unfolding bind_parameters
  parameters-failure body err h =
      elim (Result-cases (bind_fields plan.fields (read_query plan.has_query r) zero)) [
        | inl (out, set) ↦
            invalid (record { fields = out; body = body }) err
              (validated-failed validate plan _ err (rw (set, bind_parameters) at h))
        | inr (e, wrong) ↦
            let (some_fields, (detail, same)) = bind_fields-failed plan.fields _ zero e wrong in
            subst (BindFailure validate plan)
              (sym same ∙ failed-injective (rw (wrong, bind_parameters) at h))
              (malformed detail (failing_field e wrong) (inl some_fields))
      ]

  body-failure :
      (bp : BodyPlan) (m : Result (BodyValue B)) (err : GoError)
      → plan.body ≢ none
      → BodyOutcome unmarshal bp carrier m
      → m ≡ failed err
      → BindFailure validate plan err
  body-failure bp _ err held (left_out _ _ _) h = absurd (failed-ne-ok (sym h))
  body-failure bp _ err held (read_json _ _ _ _ _ _ _) h = absurd (failed-ne-ok (sym h))
  body-failure bp _ err held (captured_raw _ _ _ _ _ _) h = absurd (failed-ne-ok (sym h))
  body-failure bp _ err held (Verdict.mistyped e present wrong) h =
      let (detail, same) = check_json_media_type-error carrier.content_type e wrong in
      subst (BindFailure validate plan) (sym same ∙ failed-injective h) (mistyped detail held)
  body-failure bp _ err held (refused e well (kind, detail, same, inl bad)) h =
      subst (BindFailure validate plan)
        (ap (λ k. refuse k detail) (sym bad) ∙ sym same ∙ failed-injective h)
        (malformed detail (failing_body held) (inr held))
  body-failure bp _ err held (refused e well (kind, detail, same, inr large)) h =
      subst (BindFailure validate plan)
        (ap (λ k. refuse k detail) (sym large) ∙ sym same ∙ failed-injective h)
        (too_large detail held)

  read-failure :
      (m : Result (BodyValue B)) (err : GoError)
      → ((e : GoError) → m ≡ failed e → BindFailure validate plan e)
      → bind_read validate plan r zero m ≡ failed err
      → BindFailure validate plan err
  unfolding bind_read
  read-failure (ok body) err unread h = parameters-failure body err h
  read-failure (failed e) err unread h =
      subst (BindFailure validate plan) (failed-injective h) (unread e refl)

  held-failure :
      (b : Option BodyPlan)
      → plan.body ≡ b
      → (e : GoError) → read_body quote unmarshal unmarshal_raw b carrier ≡ failed e
      → BindFailure validate plan e
  unfolding read_body
  held-failure none held e h = absurd (failed-ne-ok (sym h))
  held-failure (some bp) held e h =
      body-failure bp _ e (λ gone. some-ne-none _ (sym held ∙ gone))
        (bind_body-BodyOutcome quote unmarshal unmarshal_raw reads_to_end bp carrier) h

  -- Where binding fails on a compiled plan, the failure is one that the plan tells of: a bad request,
  -- and the plan can fail binding; an unread body that is too large or has another media type, and
  -- the plan has a body; or a failure of the validation. The JSON decoder reads to the end of what it
  -- decodes.
  pub bind-BindFailure :
      (err : GoError)
      → bind quote unmarshal unmarshal_raw validate plan carrier r zero ≡ failed err
      → BindFailure validate plan err
  unfolding bind
  bind-BindFailure err h = read-failure _ err (held-failure plan.body refl) h
