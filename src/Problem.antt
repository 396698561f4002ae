-- ===== src/Problem.antt =====
-- internal/httpx/problem.go: the vocabulary of problems and the values that carry them.
pub mod Classify
pub mod Errors
pub mod Dispatch
use golang_postgres_starter.Base.{
  ℕ, ◌+◌, ◌/◌, ◌%◌, Text, codes, Bool, true, false, not, ◌&&◌, ◌||◌, ltb, leb, ◌==◌, nat_eq,
  text_eq, List, [], ◌∷◌, ◌++◌, length, get_elem?, if◌then◌else◌, Option, none, some, ◌-◌,
}

abbrev pub problem_type_namespace : Text
problem_type_namespace = codes "urn:tinker:error:"

-- problemKindID, a uint8; the constants below are its declared values.
abbrev pub ProblemKindId : Type 0
ProblemKindId = ℕ

abbrev pub bad_request : ProblemKindId
bad_request = 1

abbrev pub unauthorized : ProblemKindId
unauthorized = 2

abbrev pub forbidden : ProblemKindId
forbidden = 3

abbrev pub not_found : ProblemKindId
not_found = 4

abbrev pub conflict : ProblemKindId
conflict = 5

abbrev pub payload_too_large : ProblemKindId
payload_too_large = 6

abbrev pub unsupported_media_type : ProblemKindId
unsupported_media_type = 7

abbrev pub unprocessable_entity : ProblemKindId
unprocessable_entity = 8

abbrev pub too_many_requests : ProblemKindId
too_many_requests = 9

abbrev pub internal : ProblemKindId
internal = 10

pub record ProblemKindDefinition : Type 0 where
  pub code : Text
  pub status : ℕ
  pub title : Text
  pub type_uri : Text

abbrev pub define : Text → ℕ → Text → ProblemKindDefinition
define code status title = record {
  code = code;
  status = status;
  title = title;
  type_uri = problem_type_namespace ++ code;
}

-- The array of `problemDefinition`, but for its entry 0.
abbrev pub declared_definitions : List ProblemKindDefinition
declared_definitions =
    define (codes "bad-request") 400 (codes "Bad Request")
    ∷ define (codes "unauthorized") 401 (codes "Unauthorized")
    ∷ define (codes "forbidden") 403 (codes "Forbidden")
    ∷ define (codes "not-found") 404 (codes "Not Found")
    ∷ define (codes "conflict") 409 (codes "Conflict")
    ∷ define (codes "payload-too-large") 413 (codes "Payload Too Large")
    ∷ define (codes "unsupported-media-type") 415 (codes "Unsupported Media Type")
    ∷ define (codes "validation") 422 (codes "Validation Error")
    ∷ define (codes "too-many-requests") 429 (codes "Too Many Requests")
    ∷ define (codes "server-error") 500 (codes "Internal Server Error")
    ∷ []

-- Its entry 0 is the zero value.
abbrev pub definitions : List ProblemKindDefinition
definitions = record { code = []; status = 0; title = []; type_uri = [] } ∷ declared_definitions

unfoldable pub problem_definition : ProblemKindId → Option ProblemKindDefinition
problem_definition id =
    if leb id 0 || leb (length definitions) id then none else get_elem? definitions id

pub record ProblemKind : Type 0 where
  pub id : ProblemKindId
  pub description : Text

abbrev pub kind_of : ProblemKindId → ProblemKind
kind_of id = record { id = id; description = [] }

unfoldable pub is_valid : ProblemKind → Bool
is_valid k = elim (problem_definition k.id) [ none ↦ false | some _ ↦ true ]

-- The zero definition stands for an unknown kind.
unfoldable pub status : ProblemKind → ℕ
status k = elim (problem_definition k.id) [ none ↦ 0 | some d ↦ d.status ]

unfoldable pub is_same : ProblemKind → ProblemKind → Bool
is_same k other = not (k.id == 0) && k.id == other.id

unfoldable pub described : ProblemKind → Text → ProblemKind
described k prose = record k { description = prose }

pub record ValidationError : Type 0 where
  pub field : Text
  pub message : Text

-- The values of the extension map: an int, the field errors, or another JSON value.
pub data Extension : Type 0 where
  number : ℕ → Extension
  errors : List ValidationError → Extension
  value : Text → Extension

-- A ProblemDetails but for `Err`, which never reaches the wire.
pub record ProblemDetails : Type 0 where
  pub type_uri : Text
  pub title : Text
  pub status : ℕ
  pub detail : Text
  pub instance_of : Text
  pub extensions : List (Text × Extension)
  pub kind : ProblemKindId

abbrev pub details : ProblemKindDefinition → Text → ProblemKindId → ProblemDetails
details d detail kind = record {
  type_uri = d.type_uri;
  title = d.title;
  status = d.status;
  detail = detail;
  instance_of = [];
  extensions = [];
  kind = kind;
}

abbrev pub internal_definition : ProblemKindDefinition
internal_definition = define (codes "server-error") 500 (codes "Internal Server Error")

-- `ProblemKind.New`; an unknown kind becomes the internal one.
unfoldable pub new : ProblemKindId → Text → ProblemDetails
new id detail = elim (problem_definition id) [
  | some d ↦ details d detail id
  | none ↦ details internal_definition (codes "internal error") internal
]

-- time.Second, in nanoseconds.
abbrev pub second : ℕ
second = 1_000_000_000

abbrev pub retry_after_extension : Text
retry_after_extension = codes "retry_after"

-- A duration in nanoseconds as seconds, a started second counted in full.
unfoldable pub ceil_seconds : ℕ → ℕ
ceil_seconds d = if d % second == 0 then d / second else d / second + 1

-- `NewTooManyRequestsError`; a negative duration has the effect of 0.
unfoldable pub new_too_many_requests : Text → ℕ → ProblemDetails
unfolding new ceil_seconds
new_too_many_requests message retry_after =
    let fresh = new too_many_requests message in
    if ltb 0 retry_after
    then record fresh {
      extensions = (retry_after_extension, number (ceil_seconds retry_after)) ∷ [];
    }
    else fresh
