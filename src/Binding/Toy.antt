-- ===== src/Binding/Toy.antt =====
-- Small libraries and structs to run the binder with.
use golang_postgres_starter.Base.{
  ℕ, Text, codes, true, false, List, [], ◌∷◌, Option, none, some, lookup, ◌≡◌, refl,
}
use golang_postgres_starter.Strconv.{pos}
use golang_postgres_starter.Problem.Errors.{GoError}
use golang_postgres_starter.Binding.{ReflectType, Value, Parsers, compile_setter}
use golang_postgres_starter.Binding.Body.{Decoding, decoded, undecodable, JsonError}
use golang_postgres_starter.Binding.Wire.{Carrier, Stream, End, finished, over_limit, broken}
use golang_postgres_starter.Binding.Bind.{RequestPlan, Target}
use golang_postgres_starter.Binding.Plan.{
  StructField, parameter_tags, parameter_type_can_fail_binding, base_kind, compiled_bind_detail,
  declares_json_name, behind_pointers,
}
use golang_postgres_starter.Binding.Plan.Compile.{
  start, compile_request, compile_fields, compile_field, compile_tagged, compile_parameter,
  take_setter, unenforceable_required_param, close,
}

abbrev pub parsers : Parsers Text
parsers = record {
  parse_float = λ s. none;
  parse_time = λ s. none;
  unmarshal_text = λ name s. none;
  unmarshal_json = λ name s. none;
}

abbrev pub parameter : Text → Text → ReflectType → StructField Text ℕ
parameter source name t = record {
  name = name;
  is_exported = true;
  type_of = t;
  tags = (source, name) ∷ [];
  documented_required = false;
  rejects_zero = false;
  validate_enums = none;
  validate_body = none;
}

abbrev pub no_checks : RequestPlan Text ℕ → List Text
no_checks plan = []

abbrev pub plan_or_start : Option (RequestPlan Text ℕ) → RequestPlan Text ℕ
plan_or_start none = start.plan
plan_or_start (some plan) = plan

abbrev pub plan_of : List (StructField Text ℕ) → RequestPlan Text ℕ
plan_of fields = plan_or_start (compile_request parsers no_checks (codes "GET") (some fields)).0

unfoldable pub compile_runs : Unit {0}
unfolding compile_request compile_fields compile_field compile_tagged compile_parameter take_setter
    unenforceable_required_param close parameter_tags parameter_type_can_fail_binding base_kind
    compiled_bind_detail declares_json_name behind_pointers lookup compile_setter
compile_runs = tt

abbrev pub unread : Carrier
unread = record { body = none; content_length = pos 0; content_type = [] }

abbrev pub eof : JsonError
eof = record {
  is_too_large = false;
  syntactic = none;
  is_unexpected_eof = false;
  is_unknown_name = false;
  semantic = none;
  is_eof = true;
  message = codes "EOF";
}

abbrev pub by_end : End → Decoding ℕ
by_end finished = decoded 7
by_end over_limit = undecodable eof
by_end broken = undecodable eof

-- A decoder that takes what ends well.
abbrev pub unmarshal : Stream → Decoding ℕ
unmarshal s = by_end s.end

by_end-finished : (end : End) (b : ℕ) → by_end end ≡ decoded b → end ≡ finished
by_end-finished finished b h = refl
by_end-finished over_limit b h = cc
by_end-finished broken b h = cc

pub unmarshal-finished : (s : Stream) (b : ℕ) → unmarshal s ≡ decoded b → s.end ≡ finished
unmarshal-finished s = by_end-finished s.end

abbrev pub unmarshal_raw : List ℕ → ℕ × Option GoError
unmarshal_raw bytes = (0, none)

abbrev pub quote : Text → Text
quote s = s

abbrev pub accept : Target Text ℕ → Option GoError
accept t = none

abbrev pub zero : ℕ → Value Text
zero i = Value.text []
