-- ===== src/Document.antt =====
-- internal/httpx/openapi.go: the responses and the security that the document derives for an
-- operation, and the lines on access control.
pub mod Covers
pub mod Adapter
pub mod Security
mod Tests
use golang_postgres_starter.Base.{
  or_default, Text, codes, Bool, true, false, not, ◌&&◌, ◌||◌, nat_eq, text_eq, if◌then◌else◌, List,
  [], ◌∷◌, ◌++◌, Option, none, some, lookup, insert,
}
use golang_postgres_starter.Strconv.{format_nat}
use golang_postgres_starter.Credential.{CredentialSet, RequirementSet, unstated}
use golang_postgres_starter.Credential
use golang_postgres_starter.Problem.{ProblemKind, ProblemKindDefinition, problem_definition, status}
use golang_postgres_starter.Guard.{Guard}
use golang_postgres_starter.Binding.Body.{BodyPlan}
use golang_postgres_starter.Binding.Bind.{FieldBinder, RequestPlan}

-- A response of the document: its description, whether its content is problem+json, and whether it
-- has the header WWW-Authenticate.
pub record DocResponse : Type 0 where
  pub description : Text
  pub has_problem : Bool
  pub has_challenge : Bool

abbrev pub Responses : Type 0
Responses = List (Text × DocResponse)

abbrev pub or_text : Option Text → Text
or_text none = []
or_text (some t) = t

-- `derivedErrorDescription`
abbrev pub error_descriptions : List (Text × Text)
error_descriptions =
    (codes "400", codes "Bad Request")
    ∷ (codes "401", codes "Unauthorized")
    ∷ (codes "403", codes "Forbidden")
    ∷ (codes "413", codes "Payload Too Large")
    ∷ (codes "415", codes "Unsupported Media Type")
    ∷ (codes "422", codes "Validation Error")
    ∷ (codes "500", codes "Internal Server Error")
    ∷ []

unfoldable pub derived_error_description : Text → Text
derived_error_description code = or_text (lookup code error_descriptions)

abbrev pub unless_present : Option DocResponse → Text → DocResponse → Responses → Responses
unless_present none code r responses = insert code r responses
unless_present (some old) code r responses = responses

-- A response is never overwritten.
unfoldable pub add_missing : Text → DocResponse → Responses → Responses
add_missing code r responses = unless_present (lookup code responses) code r responses

abbrev pub problem_response : Text → DocResponse
problem_response description = record {
  description = description;
  has_problem = true;
  has_challenge = false;
}

unfoldable pub add_codes : List Text → Responses → Responses
unfolding add_missing
add_codes [] responses = responses
add_codes (code ∷ rest) responses =
    add_codes rest (add_missing code (problem_response (derived_error_description code)) responses)

abbrev pub has_body : Option BodyPlan → Bool
has_body none = false
has_body (some body) = true

abbrev pub has_fields : {L : Type 0} → List (FieldBinder L) → Bool
has_fields [] = false
has_fields (f ∷ fs) = true

-- Whether the adapter binds anything.
abbrev pub binds : {L B : Type 0} → Bool → RequestPlan L B → Bool
binds raw p = not raw && (not p.no_input && (has_fields p.fields || has_body p.body))

-- The codes of the adapter, by whether validation can fail.
unfoldable pub derived_codes : {L B : Type 0} → Bool → Option (RequestPlan L B) → Bool → List Text
derived_codes raw none can_fail_validation = codes "500" ∷ []
derived_codes raw (some p) can_fail_validation =
    codes "500"
    ∷ (if binds raw p
        then (if p.can_fail_bind then codes "400" ∷ [] else [])
          ++ ((if has_body p.body then codes "413" ∷ codes "415" ∷ [] else [])
              ++ (if can_fail_validation then codes "422" ∷ [] else []))
        else [])

abbrev pub title_of : Option ProblemKindDefinition → Text
title_of none = []
title_of (some d) = d.title

unfoldable pub kind_description : Text → ProblemKind → Text
unfolding derived_error_description
kind_description code kind =
    or_default kind.description
      (or_default (derived_error_description code) (title_of (problem_definition kind.id)))

unfoldable pub add_kinds : List ProblemKind → Responses → Responses
unfolding add_missing kind_description
add_kinds [] responses = responses
add_kinds (kind ∷ kinds) responses =
    let code = format_nat (status kind) in
    add_kinds kinds (add_missing code (problem_response (kind_description code kind)) responses)

abbrev pub challenged : Option DocResponse → DocResponse
challenged none = record {
  description = or_text (lookup (codes "401") error_descriptions);
  has_problem = false;
  has_challenge = true;
}
challenged (some r) = record r { has_challenge = true }

module _ {R : Type 0} where
  unfoldable pub add_guards : List (Guard R) → Responses → Responses
  unfolding add_kinds
  add_guards [] responses = responses
  add_guards (g ∷ gs) responses = add_guards gs (add_kinds g.problems responses)

  abbrev pub has_challenge_guard : List (Guard R) → Bool
  has_challenge_guard [] = false
  has_challenge_guard (g ∷ gs) = g.challenge || has_challenge_guard gs

  -- The 401 of a chain with a challenge guard has the header.
  unfoldable pub add_challenge : List (Guard R) → Responses → Responses
  add_challenge guards responses =
      if has_challenge_guard guards
      then insert (codes "401") (challenged (lookup (codes "401") responses)) responses
      else responses

  -- `applyDerivedErrorResponses`
  unfoldable pub apply_derived_error_responses :
      {L B : Type 0}
      → Bool
      → Option (RequestPlan L B)
      → Bool
      → List (Guard R)
      → Responses
      → Responses
  unfolding add_codes add_guards add_challenge derived_codes
  apply_derived_error_responses raw plan can_fail_validation guards responses =
      add_challenge guards
        (add_guards guards (add_codes (derived_codes raw plan can_fail_validation) responses))

  -- The conjunction of the guards' credentials, behind what is required already.
  unfoldable pub conjoin : RequirementSet → List (Guard R) → RequirementSet
  conjoin required [] = required
  conjoin required (g ∷ gs) = conjoin (Credential.and required g.credentials) gs

  -- `operationSecurity`; `none` is nil.
  unfoldable pub operation_security : List (Guard R) → RequirementSet → Option (List CredentialSet)
  unfolding conjoin
  operation_security guards security =
      let required = Credential.and (conjoin (record { alternatives = [] }) guards) security in
      if unstated required then none else some required.alternatives
