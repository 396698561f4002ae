-- ===== src/Document/Tests.antt =====
-- Runs of the derived responses, and the theorems at concrete inputs.
use golang_postgres_starter.Base.{
  ℕ, Text, codes, Bool, true, false, ◌==◌, text_eq, List, [], ◌∷◌, none, some, ◌≡◌, refl, ◌↔◌, All,
}
use golang_postgres_starter.Credential.{requires, no_credential}
use golang_postgres_starter.Credential.Meaning.{Meets}
use golang_postgres_starter.Problem.{kind_of, forbidden}
use golang_postgres_starter.Problem.Errors.{GoError, failed}
use golang_postgres_starter.Guard.{Guard}
use golang_postgres_starter.Binding.{int_kind, Parameters}
use golang_postgres_starter.Binding.Bind.{RequestPlan, bind}
use golang_postgres_starter.Binding.Plan.{StructField}
use golang_postgres_starter.Binding.Plan.Compile.{compile_request}
use golang_postgres_starter.Binding.Toy.{
  parsers, parameter, no_checks, plan_of, compile_runs, unread, unmarshal, unmarshal-finished,
  unmarshal_raw, quote, accept, zero,
}
use golang_postgres_starter.Document.{operation_security}
use golang_postgres_starter.Document.Covers.{IsDocumented, code_of}
use golang_postgres_starter.Document.Adapter.{documented, Told, document-Told}
use golang_postgres_starter.Document.Security.{MeetsDocument, operation_security-Meets}

abbrev owner : Guard ℕ
owner = record {
  id = codes "owner";
  check = none;
  credentials = requires (codes "BearerAuth" ∷ []);
  problems = kind_of forbidden ∷ [];
  permissions = [];
  permission_mode = [];
  note = [];
  fallback_note = [];
  challenge = false;
}

abbrev holds_bearer : Text → Bool
holds_bearer scheme = scheme == codes "BearerAuth"

operation_security-Meets_example :
    MeetsDocument holds_bearer (operation_security (owner ∷ []) no_credential) ↔ (
      All (λ (g : Guard ℕ). Meets holds_bearer g.credentials) (owner ∷ [])
      × Meets holds_bearer no_credential)
operation_security-Meets_example = operation_security-Meets holds_bearer (owner ∷ []) no_credential

abbrev fields : List (StructField Text ℕ)
fields = parameter (codes "path") (codes "id") (int_kind 64) ∷ []

abbrev plan : RequestPlan Text ℕ
plan = plan_of fields

compiled : (compile_request parsers no_checks (codes "GET") (some fields)).0 ≡ some plan
unfolding compile_runs
compiled = refl

takes_input : plan.no_input ≡ false
unfolding compile_runs
takes_input = refl

abbrev parameters : Parameters
parameters = record {
  params = (codes "id", codes "x") ∷ [];
  query = [];
  header_of = λ name. [];
  cookie_of = λ name. none;
}

document-Told_example :
    IsDocumented (codes "500") (documented plan true (owner ∷ []) [])
    × All
        (λ (g : Guard ℕ).
          All (λ k. IsDocumented (code_of k) (documented plan true (owner ∷ []) [])) g.problems)
        (owner ∷ [])
    × ((err : GoError)
        → bind quote unmarshal unmarshal_raw accept plan unread parameters zero ≡ failed err
        → Told plan true (owner ∷ []) [] accept err)
document-Told_example =
    document-Told plan true (owner ∷ []) [] quote unmarshal unmarshal_raw unmarshal-finished accept
      parsers no_checks (codes "GET") (some fields) unread parameters zero compiled takes_input
