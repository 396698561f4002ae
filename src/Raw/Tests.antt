-- ===== src/Raw/Tests.antt =====
-- Runs of the check of raw documents.
use golang_postgres_starter.Base.{
  Text, codes, true, false, [], ◌∷◌, Option, some, has_prefix, trim_space, trim, trim_left,
  to_lower, cut, ◌≡◌, refl, ◌↔◌,
}
use golang_postgres_starter.Success.{status_forbids_body}
use golang_postgres_starter.Route.{path_placeholders}
use golang_postgres_starter.Binding.{int_kind, compile_setter}
use golang_postgres_starter.Binding.Body.{contains_text}
use golang_postgres_starter.Binding.Toy.{parsers}
use golang_postgres_starter.Raw.{
  DocParam, RawDoc, with_defaults, is_raw_media_type, check_raw_body, check_param, check_raw_params,
  lacking, validate_raw_params, check_response, check_responses, validate_raw_doc, unplaced,
}
use golang_postgres_starter.Raw.Complete.{IsComplete, validate_raw_doc_iff}

abbrev parse_media_type : Text → Option Text
parse_media_type s = some s

abbrev id : DocParam
id = record {
  name = codes "id";
  location = codes "path";
  required = true;
  type_of = some (int_kind 64);
}

abbrev health : RawDoc
health = record {
  has_request = false;
  has_response = true;
  no_body = false;
  params = id ∷ [];
  status = 200;
  produces = codes "application/json";
  success_description = codes "Success";
  responses =
      record { status = 207; description = codes "Degraded"; has_type = true; no_body = false }
      ∷ [];
}

doc_runs : Unit {0}
unfolding validate_raw_doc is_raw_media_type check_raw_body validate_raw_params check_raw_params
    check_param lacking check_responses check_response status_forbids_body path_placeholders cut
    compile_setter contains_text has_prefix trim_space trim trim_left to_lower with_defaults
doc_runs = tt

health_accepted :
    validate_raw_doc parsers parse_media_type health (codes "GET") (codes "/health/{id}") ≡ []
unfolding doc_runs
health_accepted = refl

path_missing :
    validate_raw_doc parsers parse_media_type health (codes "GET") (codes "/health")
    ≡ unplaced (codes "id") ∷ []
unfolding doc_runs
path_missing = refl

status_filled : (with_defaults (record health { status = 0 })).status ≡ 200
unfolding doc_runs
status_filled = refl

validate_raw_doc_iff_example :
    (validate_raw_doc parsers parse_media_type health (codes "GET") (codes "/health/{id}") ≡ [])
    ↔ IsComplete parsers parse_media_type health (codes "GET") (codes "/health/{id}")
validate_raw_doc_iff_example =
    validate_raw_doc_iff parsers parse_media_type health (codes "GET") (codes "/health/{id}")
