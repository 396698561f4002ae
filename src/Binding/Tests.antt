-- ===== src/Binding/Tests.antt =====
-- Runs of the binder, and its theorems at concrete inputs.
use golang_postgres_starter.Base.{
  ℕ, Text, codes, true, false, List, [], ◌∷◌, Option, none, some, split, trim_space, trim,
  trim_left, to_lower, ◌≡◌, ◌⊎◌, refl, All,
}
use golang_postgres_starter.Strconv.{
  pos, parse_int, parse_magnitude, parse_nat, parse_digits, format_nat, digits,
}
use golang_postgres_starter.Problem.Errors.{GoError, plain, Result, ok, failed}
use golang_postgres_starter.Binding.{
  slice, string_kind, int_kind, Value, Parameters, lookup_raw, with_string, set_slice, set_items,
  zero_value,
}
use golang_postgres_starter.Binding.Body.{
  BodyPlan, absent, json, bind_body, bind_present, decode_json_body, decode_outcome,
}
use golang_postgres_starter.Binding.Wire.{
  Carrier, body_present, check_json_media_type, limited, leading_byte,
}
use golang_postgres_starter.Binding.Body.Verdict.{BodyOutcome, bind_body-BodyOutcome}
use golang_postgres_starter.Binding.Bind.{
  Target, bind, bind_read, read_body, bind_parameters, bind_fields, validated, validate_enum_values,
  enum_errors, enum_error_path, write_path, named, at,
}
use golang_postgres_starter.Binding.Plan.{StructField}
use golang_postgres_starter.Binding.Plan.Compile.{compile_request}
use golang_postgres_starter.Binding.Toy.{
  parsers, parameter, no_checks, plan_of, compile_runs, unread, unmarshal, unmarshal-finished,
  unmarshal_raw, quote, accept, zero,
}
use golang_postgres_starter.Binding.Own.{IsOwn, bind-safe}
use golang_postgres_starter.Binding.Filled.{AreFilled, bind-AreFilled}

-- A struct with a header of strings, and one with a number in the path and a list in the query.
abbrev safe_fields : List (StructField Text ℕ)
safe_fields = parameter (codes "header") (codes "X-Name") string_kind ∷ []

abbrev number_fields : List (StructField Text ℕ)
number_fields =
    parameter (codes "path") (codes "id") (int_kind 64)
    ∷ parameter (codes "query") (codes "tag") (slice string_kind)
    ∷ []

safe_compiled :
    (compile_request parsers no_checks (codes "GET") (some safe_fields)).0
    ≡ some (plan_of safe_fields)
unfolding compile_runs
safe_compiled = refl

number_accepted :
    compile_request parsers no_checks (codes "GET") (some number_fields)
    ≡ (some (plan_of number_fields), [])
unfolding compile_runs
number_accepted = refl

safe_plan : (plan_of safe_fields).can_fail_bind ≡ false
unfolding compile_runs
safe_plan = refl

abbrev parameters : Parameters
parameters = record {
  params = (codes "id", codes "42") ∷ [];
  query = (codes "tag", codes "a" ∷ codes "b" ∷ []) ∷ [];
  header_of = λ name. [];
  cookie_of = λ name. none;
}

abbrev refuse_all : Target Text ℕ → Option GoError
refuse_all t = some (plain (codes "invalid"))

bind_runs : Unit {0}
unfolding compile_runs bind bind_read read_body bind_parameters bind_fields validated
    validate_enum_values enum_errors lookup_raw with_string set_slice set_items zero_value parse_int
    parse_magnitude parse_nat parse_digits
bind_runs = tt

abbrev target_or : Result (Target Text ℕ) → Target Text ℕ
target_or (ok t) = t
target_or (failed err) = record { fields = zero; body = absent }

abbrev bound : Target Text ℕ
bound =
    target_or
      (bind quote unmarshal unmarshal_raw accept (plan_of number_fields) unread parameters zero)

number_bound :
    bind quote unmarshal unmarshal_raw accept (plan_of number_fields) unread parameters zero
    ≡ ok bound
unfolding bind_runs
number_bound = refl

bound_id : bound.fields 0 ≡ Value.integer (pos 42)
unfolding bind_runs
bound_id = refl

bind-AreFilled_example : AreFilled parsers parameters zero bound.fields 0 number_fields
bind-AreFilled_example =
    bind-AreFilled quote unmarshal unmarshal_raw accept parsers no_checks (codes "GET")
      number_fields (plan_of number_fields) number_accepted unread parameters zero bound
      number_bound

abbrev refusal : GoError
refusal = plain (codes "invalid")

refused :
    bind quote unmarshal unmarshal_raw refuse_all (plan_of safe_fields) unread parameters zero
    ≡ failed refusal
unfolding bind_runs
refused = refl

bind-safe_example :
    (t : Target Text ℕ) × (All (IsOwn parameters zero t.fields) (plan_of safe_fields).fields)
    × ((refuse_all t ≡ some refusal)
        ⊎ ((refuse_all t ≡ none) × (validate_enum_values (plan_of safe_fields) t ≡ some refusal)))
bind-safe_example =
    bind-safe quote unmarshal unmarshal_raw refuse_all parsers no_checks (codes "GET")
      (some safe_fields) (plan_of safe_fields) safe_compiled unread parameters zero refusal
      safe_plan refused

abbrev required_json : BodyPlan
required_json = record { index = 0; required = true; raw = false; reject_raw_null = false }

abbrev sent : Carrier
sent = record {
  body = some (record { bytes = codes "7"; is_broken = false });
  content_length = pos 1;
  content_type = codes "Application/JSON; charset=utf-8";
}

body_runs : Unit {0}
unfolding bind_body bind_present body_present check_json_media_type decode_json_body decode_outcome
    limited leading_byte split trim_space trim trim_left to_lower
body_runs = tt

bound_body : bind_body quote unmarshal unmarshal_raw required_json sent ≡ ok (json 7)
unfolding body_runs
bound_body = refl

bind_body-BodyOutcome_example :
    BodyOutcome unmarshal required_json sent
      (bind_body quote unmarshal unmarshal_raw required_json sent)
bind_body-BodyOutcome_example =
    bind_body-BodyOutcome quote unmarshal unmarshal_raw unmarshal-finished required_json sent

path_written :
    enum_error_path (named (codes "items") ∷ at 0 ∷ named (codes "status") ∷ [])
    ≡ codes "items[0].status"
unfolding enum_error_path write_path format_nat digits
path_written = refl
