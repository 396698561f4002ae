-- ===== src/Problem/Dispatch.antt =====
-- internal/httpx/problem.go: turning an error into the response that is written.
pub mod Sealed
pub mod Declared
pub mod Retry
pub mod Plain
mod Tests
use golang_postgres_starter.Base.{
  ℕ, ◌+◌, Text, Bool, true, false, not, ◌&&◌, ltb, nat_eq, text_eq, List, [], ◌∷◌, ◌++◌, contains,
  if◌then◌else◌, Option, none, some, lookup,
}
use golang_postgres_starter.Problem.{
  details, ProblemKindId, ProblemKind, is_valid, ProblemDetails, number, errors, value,
  retry_after_extension,
}
use golang_postgres_starter.Problem.Errors.{GoError, problem, as_challenge}
use golang_postgres_starter.Problem.Classify.{
  Classified, error_to_problem_details, internal_error, valid_problem_details,
}

-- The kinds that a handler, or a guard, declares.
pub record ProblemPlan : Type 0 where
  pub label : Text
  pub allowed : List ProblemKindId
  pub allow_challenge : Bool

abbrev pub new_problem_plan : Text → ProblemPlan
new_problem_plan label = record { label = label; allowed = []; allow_challenge = false }

unfoldable pub allow : ProblemPlan → ProblemKind → ProblemPlan
allow p kind = if is_valid kind then record p { allowed = kind.id ∷ p.allowed } else p

-- The loop over the declared problems.
unfoldable pub allow_all : ProblemPlan → List ProblemKind → ProblemPlan
allow_all p [] = p
allow_all p (kind ∷ kinds) = allow_all (allow p kind) kinds

-- What a guard and an operation build once from what they declare.
abbrev pub plan_for : Text → List ProblemKind → Bool → ProblemPlan
plan_for label kinds challenge = record (allow_all (new_problem_plan label) kinds) {
  allow_challenge = challenge;
}

-- A nil plan permits everything.
unfoldable pub permits : Option ProblemPlan → ProblemKindId → Bool
permits none kind = true
permits (some p) kind = contains p.allowed kind

unfoldable pub permits_challenge : Option ProblemPlan → Bool
permits_challenge none = true
permits_challenge (some p) = p.allow_challenge

-- A typed problem that the plan does not permit is replaced by an internal one.
unfoldable pub choose : Option ProblemPlan → Bool → Classified → ProblemDetails
choose plan enforce_typed c =
    if enforce_typed && c.typed && not (permits plan c.kind) then internal_error else c.details

-- The part of an http.Request that an error response shows.
pub record RequestLine : Type 0 where
  pub method : Text
  pub path : Text

-- The body: a problem as JSON, or the literal that stands in where nothing can be encoded.
pub data Body : Type 0 where
  encoded : ProblemDetails → Body
  fallback : Body

-- What has been written: a bodyless challenge, or a problem with its Retry-After header.
pub data Response : Type 0 where
  challenged : Text → Response
  reported : ℕ → Option ℕ → Body → Response

abbrev pub code_of : Response → ℕ
code_of (challenged _) = 401
code_of (reported code _ _) = code

-- The header is set for a positive int in the extension.
unfoldable pub retry_after_header : ProblemDetails → Option ℕ
retry_after_header p = elim (lookup retry_after_extension p.extensions) [
  | none ↦ none
  | some (number seconds) ↦ (if ltb 0 seconds then some seconds else none)
  | some (errors _) ↦ none
  | some (value _) ↦ none
]

-- `encodes` says whether json.Marshal succeeds on a problem.
module _ (encodes : ProblemDetails → Bool) where
  unfoldable pub write_valid : ProblemDetails → Response
  unfolding retry_after_header
  write_valid p =
      let replaced = record internal_error { instance_of = p.instance_of } in
      if encodes p
      then reported p.status (retry_after_header p) (encoded p)
      else reported replaced.status none (if encodes replaced then encoded replaced else fallback)

  unfoldable pub write_problem_details : ProblemDetails → Response
  unfolding write_valid
  write_problem_details p =
      if valid_problem_details p then write_valid p else write_valid internal_error

  unfoldable pub write_for : Option RequestLine → ProblemDetails → Response
  unfolding write_problem_details
  write_for none p = write_problem_details p
  write_for (some line) p =
      write_problem_details (record p { instance_of = line.method ++ 0x20 ∷ line.path })

  -- What `dispatchResolvedError` does behind the challenge.
  unfoldable pub resolve :
      Option RequestLine → GoError → Option ProblemPlan → Bool → Bool → Response
  unfolding write_for choose
  resolve r err plan enforce_typed classify_validation =
      write_for r (choose plan enforce_typed (error_to_problem_details err classify_validation))

  -- The challenge, if errors.As finds one.
  unfoldable pub answer :
      Option Text → Option RequestLine → GoError → Option ProblemPlan → Bool → Bool → Response
  answer none r err plan enforce_typed classify_validation =
      resolve r err plan enforce_typed classify_validation
  answer (some c) r err plan enforce_typed classify_validation =
      if permits_challenge plan
      then challenged c
      else resolve r (problem internal_error) plan enforce_typed classify_validation

  unfoldable pub dispatch_resolved_error :
      Option RequestLine → GoError → Option ProblemPlan → Bool → Bool → Response
  unfolding answer resolve
  dispatch_resolved_error r err plan enforce_typed classify_validation =
      answer (as_challenge err) r err plan enforce_typed classify_validation

  -- The error of a handler or a guard, against what it declares.
  unfoldable pub dispatch_error : Option RequestLine → GoError → ProblemPlan → Response
  unfolding dispatch_resolved_error
  dispatch_error r err plan = dispatch_resolved_error r err (some plan) true false

  -- `Error` and `dispatchAdapterError`.
  unfoldable pub dispatch_adapter_error : Option RequestLine → GoError → Response
  unfolding dispatch_resolved_error
  dispatch_adapter_error r err = dispatch_resolved_error r err none false true
