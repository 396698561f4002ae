-- ===== src/Binding/Plan/Compile.antt =====
-- internal/httpx/request.go: the loop of compileRequest over the fields of a request struct.

use golang_postgres_starter.Base.{
  is_empty, ℕ, suc, Text, codes, Bool, true, false, not, ◌&&◌, ◌||◌, ◌==◌, nat_eq, text_eq,
  if◌then◌else◌, List, [], ◌∷◌, ◌++◌, map, contains, Option, none, some, lookup,
}
use golang_postgres_starter.Binding.{Source, Setter, Parsers, compile_setter}
use golang_postgres_starter.Binding.Body.{BodyPlan}
use golang_postgres_starter.Binding.Bind.{FieldBinder, RequestPlan}
use golang_postgres_starter.Binding.Plan.{
  StructField, RequestViolation, not_a_struct, retired_source, no_binding_tag, unexported_binding,
  multiple_sources, second_body, bad_body_tag, body_on_method, empty_name, duplicate_binding,
  unenforceable_required, unsupported_type, binds_nothing, later, tag_of, body_tag,
  parameter_sources, parameter_tags, is_query, is_path, parameter_type_can_fail_binding,
  compiled_bind_detail, raw_of, check_body_type, rejects_raw_null, is_raw,
}

-- The state of the loop over the fields: the plan, the names seen, and the violations.
pub record Compiled (L B : Type 0) : Type 0 where
  pub plan : RequestPlan L B
  pub seen : List Text
  pub violations : List RequestViolation

abbrev pub names_of : List (Source × Text) → List Text
names_of [] = []
names_of ((source, v) ∷ rest) = tag_of source ∷ names_of rest

abbrev pub body_name : Option Text → List Text
body_name none = []
body_name (some v) = body_tag ∷ []

abbrev pub is_none_left : {L : Type 0} → List (FieldBinder L) → Option BodyPlan → Bool
is_none_left [] none = true
is_none_left [] (some body) = false
is_none_left (f ∷ fs) body = false

module _ {L B : Type 0} where
  abbrev pub report : RequestViolation → Compiled L B → Compiled L B
  report v c = record c { violations = c.violations ++ (v ∷ []) }

  abbrev pub report_some : Option RequestViolation → Compiled L B → Compiled L B
  report_some none c = c
  report_some (some v) c = report v c

  abbrev pub take_body :
      Option RequestViolation → ℕ → Text → StructField L B → Compiled L B → Compiled L B
  take_body (some v) index value f c = report v c
  take_body none index value f c = record c {
    plan = record c.plan {
      body = some (record {
        index = index;
        required = value == codes "required";
        raw = is_raw (raw_of f.type_of);
        reject_raw_null = rejects_raw_null (raw_of f.type_of);
      });
      validate_body = f.validate_body;
      can_fail_bind = true;
    };
  }

  -- `compileBodyField`
  unfoldable pub compile_body_field :
      Option BodyPlan → Text → StructField L B → ℕ → Text → Compiled L B → Compiled L B
  unfolding check_body_type
  compile_body_field (some body) method f index value c = report (second_body f.name) c
  compile_body_field none method f index value c =
      if not (value == codes "required") && not (value == codes "optional")
      then report (bad_body_tag f.name value) c
      else (if method == codes "GET" || method == codes "HEAD"
          then report (body_on_method f.name method) c
          else take_body
              (check_body_type f.name (value == codes "required") f.type_of (raw_of f.type_of))
              index value f c)

  -- `unenforceableRequiredParam`
  unfoldable pub unenforceable_required_param :
      StructField L B → Source → Text → Option RequestViolation
  unenforceable_required_param f source name =
      if is_path source || (not f.documented_required || f.rejects_zero)
      then none
      else some (unenforceable_required f.name name)

  abbrev pub binder : StructField L B → ℕ → Source → Text → Setter L → FieldBinder L
  binder f index source name assign = record {
    index = index;
    source = source;
    name = name;
    assign = assign;
    validate_enums = f.validate_enums;
    bind_detail = compiled_bind_detail source name f.type_of f.tags;
  }

  -- The field joins the plan, if its type has a setter.
  unfoldable pub take_setter :
      Option (Setter L) → StructField L B → ℕ → Source → Text → Compiled L B → Compiled L B
  take_setter none f index source name c = report (unsupported_type f.name) c
  take_setter (some assign) f index source name c = record c {
    plan = record c.plan {
      fields = c.plan.fields ++ (binder f index source name assign ∷ []);
      can_fail_bind = c.plan.can_fail_bind || parameter_type_can_fail_binding source f.type_of;
    };
  }

  abbrev pub noted : Source → Text → Compiled L B → Compiled L B
  noted source name c = record c {
    seen = (tag_of source ++ (b':' ∷ name)) ∷ c.seen;
    plan = record c.plan {
      path_params =
          if is_path source then c.plan.path_params ++ (name ∷ []) else c.plan.path_params;
      has_query = c.plan.has_query || is_query source;
    };
  }

  unfoldable pub compile_parameter :
      Parsers L → StructField L B → ℕ → Source → Text → Compiled L B → Compiled L B
  unfolding take_setter unenforceable_required_param
  compile_parameter lib f index source name c =
      if name == []
      then report (empty_name f.name (tag_of source)) c
      else (if contains c.seen (tag_of source ++ (b':' ∷ name))
          then report (duplicate_binding f.name name) c
          else take_setter (compile_setter lib f.type_of) f index source name
              (report_some (unenforceable_required_param f source name) (noted source name c)))

  -- The switch over the binding tags of a field.
  unfoldable pub compile_tagged :
      Parsers L
      → Text
      → StructField L B
      → ℕ
      → List (Source × Text)
      → Option Text
      → Compiled L B
      → Compiled L B
  unfolding compile_parameter compile_body_field
  compile_tagged lib method f index [] none c =
      if f.is_exported then report (no_binding_tag f.name) c else c
  compile_tagged lib method f index [] (some value) c =
      if not f.is_exported
      then report (unexported_binding f.name) c
      else compile_body_field c.plan.body method f index value c
  compile_tagged lib method f index ((source, name) ∷ []) none c =
      if not f.is_exported
      then report (unexported_binding f.name) c
      else compile_parameter lib f index source name c
  compile_tagged lib method f index ((source, name) ∷ []) (some value) c =
      report (multiple_sources f.name (tag_of source ∷ body_tag ∷ [])) c
  compile_tagged lib method f index (s ∷ t ∷ rest) value c =
      report (multiple_sources f.name (names_of (s ∷ t ∷ rest) ++ body_name value)) c

  abbrev pub unless_retired :
      Option Text → StructField L B → Compiled L B → Compiled L B → Compiled L B
  unless_retired (some v) f next c = report (retired_source f.name) c
  unless_retired none f next c = next

  unfoldable pub compile_field :
      Parsers L → Text → StructField L B → ℕ → Compiled L B → Compiled L B
  unfolding compile_tagged parameter_tags
  compile_field lib method f index c =
      unless_retired (lookup (codes "source") f.tags) f
        (compile_tagged lib method f index (parameter_tags parameter_sources f.tags)
          (lookup body_tag f.tags) c)
        c

  -- The loop over the fields.
  unfoldable pub compile_fields :
      Parsers L → Text → List (StructField L B) → ℕ → Compiled L B → Compiled L B
  unfolding compile_field
  compile_fields lib method [] index c = c
  compile_fields lib method (f ∷ fs) index c =
      compile_fields lib method fs (suc index) (compile_field lib method f index c)

  abbrev pub start : Compiled L B
  start = record {
    plan = record {
      fields = [];
      body = none;
      validate_body = none;
      has_query = false;
      no_input = false;
      can_fail_bind = false;
      path_params = [];
    };
    seen = [];
    violations = [];
  }

  -- Behind the loop: whether there is any input, and the checks that the model takes as an argument.
  unfoldable pub close :
      (RequestPlan L B → List Text) → Bool → Compiled L B → RequestPlan L B × List RequestViolation
  close checks no_fields c =
      let unused = is_none_left c.plan.fields c.plan.body in
      let plan = record c.plan { no_input = unused && no_fields } in
      let nothing =
        if unused && (not no_fields && is_empty c.violations) then binds_nothing ∷ [] else [] in
      (plan, c.violations ++ nothing ++ map later (checks plan))

  -- `compileRequest` of a type with these fields, or of one that is no struct.
  unfoldable pub compile_request :
      Parsers L
      → (RequestPlan L B → List Text)
      → Text
      → Option (List (StructField L B))
      → Option (RequestPlan L B) × List RequestViolation
  unfolding compile_fields close
  compile_request lib checks method none = (none, not_a_struct ∷ [])
  compile_request lib checks method (some fields) =
      let (plan, violations) =
        close checks (is_empty fields) (compile_fields lib method fields 0 start) in
      (some plan, violations)
