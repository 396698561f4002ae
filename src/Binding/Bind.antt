-- ===== src/Binding/Bind.antt =====
-- internal/httpx/request.go: the compiled plan of a request, and `bind`.
use golang_postgres_starter.Base.{
  ℕ, Text, codes, Bool, ◌==◌, nat_eq, if◌then◌else◌, List, [], ◌∷◌, ◌++◌, Option, none, some,
}
use golang_postgres_starter.Strconv.{format_nat}
use golang_postgres_starter.Problem.{
  ValidationError, errors, new, bad_request, unprocessable_entity,
}
use golang_postgres_starter.Problem.Errors.{GoError, problem, Result, ok, failed}
use golang_postgres_starter.Binding.{Source, Parameters, Value, Setter, lookup_raw}
use golang_postgres_starter.Binding.Body.{Decoding, BodyPlan, BodyValue, absent, bind_body}
use golang_postgres_starter.Binding.Wire.{Carrier, Stream, refuse}

-- `enumSegment`
pub data EnumSegment : Type 0 where
  named : Text → EnumSegment
  at : ℕ → EnumSegment

-- `enumPath.field`
unfoldable pub field : List EnumSegment → Text → List EnumSegment
field trail [] = trail
field trail (c ∷ cs) = trail ++ (named (c ∷ cs) ∷ [])

-- The loop of `enumPath.String` behind what is written already.
unfoldable pub write_path : Text → List EnumSegment → Text
write_path written [] = written
write_path written (at i ∷ rest) =
    write_path (written ++ (b'[' ∷ (format_nat i ++ (b']' ∷ [])))) rest
write_path [] (named name ∷ rest) = write_path name rest
write_path (c ∷ cs) (named name ∷ rest) = write_path ((c ∷ cs) ++ (b'.' ∷ name)) rest

-- `enumErrorPath`
unfoldable pub enum_error_path : List EnumSegment → Text
unfolding write_path
enum_error_path trail = or_body (write_path [] trail)
  where
    or_body : Text → Text
    or_body [] = codes "body"
    or_body (c ∷ cs) = c ∷ cs

-- A compiled `enumValidator` of values of a type: what it appends.
abbrev pub EnumCheck : Type 0 → Type 0
EnumCheck V = V → List EnumSegment → List ValidationError

-- `fieldBinder`; the reader of its raw value is `lookup_raw` of the source and the name.
pub record FieldBinder (L : Type 0) : Type 0 where
  pub index : ℕ
  pub source : Source
  pub name : Text
  pub assign : Setter L
  pub validate_enums : Option (EnumCheck (Value L))
  pub bind_detail : Text

-- The part of a `requestPlan` that binding and the documents read.
pub record RequestPlan (L B : Type 0) : Type 0 where
  pub fields : List (FieldBinder L)
  pub body : Option BodyPlan
  pub validate_body : Option (EnumCheck (BodyValue B))
  pub has_query : Bool
  pub no_input : Bool
  pub can_fail_bind : Bool
  pub path_params : List Text

-- A request struct: its parameters by the index of the field, and its body.
pub record Target (L B : Type 0) : Type 0 where
  pub fields : ℕ → Value L
  pub body : BodyValue B

abbrev pub put : {L : Type 0} → ℕ → Value L → (ℕ → Value L) → ℕ → Value L
put index v fields i = if i == index then v else fields i

abbrev pub read_query : Bool → Parameters → Parameters
read_query has_query r = if has_query then r else record r { query = [] }

abbrev pub found_by :
    {V : Type 0} → Option (EnumCheck V) → V → List EnumSegment → List ValidationError
found_by none v trail = []
found_by (some check) v trail = check v trail

module _ {L : Type 0} where
  abbrev pub bind_error : FieldBinder L → GoError
  bind_error f = refuse bad_request f.bind_detail

  -- The loop over the parameter fields.
  unfoldable pub bind_fields :
      List (FieldBinder L) → Parameters → (ℕ → Value L) → Result (ℕ → Value L)
  bind_fields [] r values = ok values
  bind_fields (f ∷ fs) r values = elim (lookup_raw f.source f.name r) [
    | none ↦ bind_fields fs r values
    | some raw ↦ elim (f.assign (values f.index) raw) [
      | none ↦ failed (bind_error f)
      | some v ↦ bind_fields fs r (put f.index v values)
    ]
  ]

  -- What the fields' enum checks append.
  unfoldable pub enum_errors : List (FieldBinder L) → (ℕ → Value L) → List ValidationError
  unfolding field
  enum_errors [] values = []
  enum_errors (f ∷ fs) values =
      found_by f.validate_enums (values f.index) (field [] f.name) ++ enum_errors fs values

abbrev pub invalid_fields : List ValidationError → Option GoError
invalid_fields [] = none
invalid_fields (e ∷ es) =
    let p = new unprocessable_entity (codes "One or more fields are invalid") in
    some (problem (record p { extensions = (codes "errors", errors (e ∷ es)) ∷ [] }))

module _ {L B : Type 0} where
  -- `validateEnumValues`
  unfoldable pub validate_enum_values : RequestPlan L B → Target L B → Option GoError
  unfolding enum_errors
  validate_enum_values plan t =
      invalid_fields (enum_errors plan.fields t.fields ++ found_by plan.validate_body t.body [])

  abbrev pub or_target : Option GoError → Target L B → Result (Target L B)
  or_target none t = ok t
  or_target (some err) t = failed err

  -- The struct validator and then the enum checks.
  unfoldable pub validated :
      (Target L B → Option GoError) → RequestPlan L B → Target L B → Result (Target L B)
  unfolding validate_enum_values
  validated validate plan t = elim (validate t) [
    | none ↦ or_target (validate_enum_values plan t) t
    | some err ↦ failed err
  ]

  unfoldable pub bind_parameters :
      (Target L B → Option GoError)
      → RequestPlan L B
      → Parameters
      → (ℕ → Value L)
      → BodyValue B
      → Result (Target L B)
  unfolding bind_fields validated
  bind_parameters validate plan r zero body =
      elim (bind_fields plan.fields (read_query plan.has_query r) zero) [
        | failed err ↦ failed err
        | ok values ↦ validated validate plan (record { fields = values; body = body })
      ]

  unfoldable pub bind_read :
      (Target L B → Option GoError)
      → RequestPlan L B
      → Parameters
      → (ℕ → Value L)
      → Result (BodyValue B)
      → Result (Target L B)
  unfolding bind_parameters
  bind_read validate plan r zero (failed err) = failed err
  bind_read validate plan r zero (ok body) = bind_parameters validate plan r zero body

module _ {B : Type 0} (quote : Text → Text) (unmarshal : Stream → Decoding B)
    (unmarshal_raw : List ℕ → B × Option GoError) where
  -- The body of a plan that has one.
  unfoldable pub read_body : Option BodyPlan → Carrier → Result (BodyValue B)
  read_body none carrier = ok absent
  read_body (some bp) carrier = bind_body quote unmarshal unmarshal_raw bp carrier

  -- `requestPlan.bind`, into a struct whose fields are `zero`. `validate` is the validator on it.
  unfoldable pub bind :
      {L : Type 0}
      → (Target L B → Option GoError)
      → RequestPlan L B
      → Carrier
      → Parameters
      → (ℕ → Value L)
      → Result (Target L B)
  unfolding bind_read read_body
  bind validate plan carrier r zero = bind_read validate plan r zero (read_body plan.body carrier)
