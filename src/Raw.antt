-- ===== src/Raw.antt =====
-- internal/httpx/declaration.go: the documents of raw operations, the defaults that RegisterRaw puts
-- into them, and validateRawDoc.
pub mod Checks
pub mod Complete
mod Tests
use golang_postgres_starter.Base.{
  or_default, unless, ℕ, Text, codes, Bool, true, false, not, ◌&&◌, ◌||◌, leb, ◌==◌, nat_eq,
  text_eq, if◌then◌else◌, List, [], ◌∷◌, ◌++◌, contains, Option, none, some, trim_space, to_lower,
}
use golang_postgres_starter.Success.{status_forbids_body}
use golang_postgres_starter.Route.{path_placeholders}
use golang_postgres_starter.Binding.{ReflectType, Parsers, Setter, compile_setter}
use golang_postgres_starter.Binding.Body.{contains_text}

pub record DocParam : Type 0 where
  pub name : Text
  pub location : Text
  pub required : Bool
  pub type_of : Option ReflectType

-- Of the response type the checks read whether it is set.
pub record RawResponse : Type 0 where
  pub status : ℕ
  pub description : Text
  pub has_type : Bool
  pub no_body : Bool

pub record RawDoc : Type 0 where
  pub has_request : Bool
  pub has_response : Bool
  pub no_body : Bool
  pub params : List DocParam
  pub status : ℕ
  pub produces : Text
  pub success_description : Text
  pub responses : List RawResponse

pub data RawError : Type 0 where
  bad_status : ℕ → RawError
  bad_media_type : Text → RawError
  request_on_method : Text → RawError
  forbidden_body both_bodies no_response : RawError
  name_required bad_location duplicate_param bad_type optional_path : DocParam → RawError
  undocumented unplaced : Text → RawError
  repeated_status description_required : RawResponse → RawError

-- What RegisterRaw fills in.
unfoldable pub with_defaults : RawDoc → RawDoc
with_defaults doc = record doc {
  status = if doc.status == 0 then 200 else doc.status;
  produces = or_default doc.produces (codes "application/json");
  success_description = or_default doc.success_description (codes "Success");
}

abbrev pub is_response_status : ℕ → Bool
is_response_status s = leb 200 s && leb s 399

abbrev pub has_slash : Option Text → Bool
has_slash none = false
has_slash (some media_type) = contains_text media_type (codes "/")

-- `validateRawMediaType`, by whether it succeeds; the argument is mime.ParseMediaType.
unfoldable pub is_raw_media_type : (Text → Option Text) → Text → Bool
is_raw_media_type parse value = (trim_space value == value) && has_slash (parse value)

-- The switch over a status, the type of a body and NoBody.
unfoldable pub check_raw_body : Bool → Bool → Bool → List RawError
check_raw_body forbidden has_type no_body =
    if forbidden && has_type
    then forbidden_body ∷ []
    else (if forbidden && not no_body
        then []
        else (if no_body && has_type
            then both_bodies ∷ []
            else (if not no_body && not has_type then no_response ∷ [] else [])))

-- `path`, `query`, `header` or `cookie`.
abbrev pub is_location : Text → Bool
is_location l =
    l == codes "path" || (l == codes "query" || (l == codes "header" || l == codes "cookie"))

-- The names of headers are compared in lower case.
abbrev pub param_key : DocParam → Text
param_key p = p.location ++ (0 ∷ (if p.location == codes "header" then to_lower p.name else p.name))

module _ {L : Type 0} (lib : Parsers L) where
  abbrev pub settable : Option (Setter L) → Bool
  settable none = false
  settable (some set) = true

  abbrev pub has_setter : Option ReflectType → Bool
  has_setter none = false
  has_setter (some t) = settable (compile_setter lib t)

  -- One parameter, with the keys before it.
  unfoldable pub check_param : List Text → DocParam → List RawError
  check_param seen p =
      unless (not (trim_space p.name == [])) (name_required p)
      ++ (unless (is_location p.location) (bad_location p)
          ++ (unless (not (contains seen (param_key p))) (duplicate_param p)
              ++ (unless (has_setter p.type_of) (bad_type p)
                  ++ unless (not (p.location == codes "path") || p.required) (optional_path p))))

  unfoldable pub check_raw_params : List Text → List DocParam → List RawError
  unfolding check_param
  check_raw_params seen [] = []
  check_raw_params seen (p ∷ ps) = check_param seen p ++ check_raw_params (param_key p ∷ seen) ps

-- A name that the names hold already is not added again.
abbrev pub add_name : Text → List Text → List Text
add_name name names = if contains names name then names else name ∷ names

-- The names of the path parameters, each once.
abbrev pub path_names : List DocParam → List Text
path_names [] = []
path_names (p ∷ ps) =
    let rest = path_names ps in if p.location == codes "path" then add_name p.name rest else rest

-- The names that the list lacks, each with its violation.
unfoldable pub lacking : List Text → (Text → RawError) → List Text → List RawError
lacking names e [] = []
lacking names e (name ∷ rest) = unless (contains names name) (e name) ++ lacking names e rest

-- `validateRawParams`
unfoldable pub validate_raw_params : {L : Type 0} → Parsers L → List DocParam → Text → List RawError
unfolding check_raw_params lacking
validate_raw_params lib params path =
    check_raw_params lib [] params
    ++ (lacking (path_names params) undocumented (path_placeholders path)
        ++ lacking (path_placeholders path) unplaced (path_names params))

-- One further response, with the statuses before it.
unfoldable pub check_response : List ℕ → RawResponse → List RawError
unfolding check_raw_body
check_response seen r =
    unless (is_response_status r.status) (bad_status r.status)
    ++ (unless (not (contains seen r.status)) (repeated_status r)
        ++ (unless (not (trim_space r.description == [])) (description_required r)
            ++ check_raw_body (status_forbids_body r.status) r.has_type r.no_body))

unfoldable pub check_responses : List ℕ → List RawResponse → List RawError
unfolding check_response
check_responses seen [] = []
check_responses seen (r ∷ rs) = check_response seen r ++ check_responses (r.status ∷ seen) rs

-- `validateRawDoc`, of a method and the full path.
unfoldable pub validate_raw_doc :
    {L : Type 0} → Parsers L → (Text → Option Text) → RawDoc → Text → Text → List RawError
unfolding is_raw_media_type check_raw_body validate_raw_params check_responses
validate_raw_doc lib parse doc method path =
    unless (is_response_status doc.status) (bad_status doc.status)
    ++ (unless (is_raw_media_type parse doc.produces) (bad_media_type doc.produces)
        ++ (unless (not ((method == codes "GET" || method == codes "HEAD") && doc.has_request))
              (request_on_method method)
            ++ (check_raw_body (status_forbids_body doc.status) doc.has_response doc.no_body
                ++ (validate_raw_params lib doc.params path
                    ++ check_responses (doc.status ∷ []) doc.responses))))
