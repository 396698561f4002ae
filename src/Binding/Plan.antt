-- ===== src/Binding/Plan.antt =====
-- internal/httpx/request.go: the tags and types of the fields of a request struct.
pub mod Promises
pub mod Compile
pub mod Sound
pub mod Tagged
use golang_postgres_starter.Base.{
  ◌+◌, Text, codes, Bool, true, false, not, ◌&&◌, ◌==◌, nat_eq, text_eq, if◌then◌else◌, List, [],
  ◌∷◌, ◌++◌, Option, none, some, lookup, cut,
}
use golang_postgres_starter.Binding.{
  Source, path, query, header, cookie, ReflectType, pointer, slice, array, string_kind, int_kind,
  uint_kind, struct_kind, RawPayload, Value,
}
use golang_postgres_starter.Binding.Body.{BodyValue}
use golang_postgres_starter.Binding.Bind.{EnumCheck}

-- A reflect.StructField: `documented_required` is requiredByReflectTags of it, `rejects_zero` is
-- validateTagRejectsZero, and the enum checks are those compiled for its type.
pub record StructField (L B : Type 0) : Type 0 where
  pub name : Text
  pub is_exported : Bool
  pub type_of : ReflectType
  pub tags : List (Text × Text)
  pub documented_required : Bool
  pub rejects_zero : Bool
  pub validate_enums : Option (EnumCheck (Value L))
  pub validate_body : Option (EnumCheck (BodyValue B))

pub data RequestViolation : Type 0 where
  not_a_struct : RequestViolation
  retired_source no_binding_tag unexported_binding : Text → RequestViolation
  multiple_sources : Text → List Text → RequestViolation
  second_body : Text → RequestViolation
  bad_body_tag body_on_method : Text → Text → RequestViolation
  raw_pointer pointer_required value_optional anonymous_body : Text → RequestViolation
  empty_name duplicate_binding unenforceable_required : Text → Text → RequestViolation
  unsupported_type : Text → RequestViolation
  binds_nothing : RequestViolation
  later : Text → RequestViolation

abbrev pub tag_of : Source → Text
tag_of path = codes "path"
tag_of query = codes "query"
tag_of header = codes "header"
tag_of cookie = codes "cookie"

abbrev pub body_tag : Text
body_tag = codes "body"

-- `parameterSources`
abbrev pub parameter_sources : List Source
parameter_sources = path ∷ query ∷ header ∷ cookie ∷ []

abbrev pub with_tag : Source → Option Text → List (Source × Text) → List (Source × Text)
with_tag source none rest = rest
with_tag source (some v) rest = (source, v) ∷ rest

-- The parameter tags of a field, in the order of the sources.
unfoldable pub parameter_tags : List Source → List (Text × Text) → List (Source × Text)
parameter_tags [] tags = []
parameter_tags (source ∷ sources) tags =
    with_tag source (lookup (tag_of source) tags) (parameter_tags sources tags)

-- The kind behind pointers and slices.
unfoldable pub base_kind : ReflectType → ReflectType
base_kind (pointer t) = base_kind t
base_kind (slice t) = base_kind t
base_kind t = t

abbrev pub is_string : ReflectType → Bool
is_string string_kind = true
is_string _ = false

abbrev pub is_slice : ReflectType → Bool
is_slice (slice t) = true
is_slice _ = false

abbrev pub is_query : Source → Bool
is_query query = true
is_query _ = false

-- `parameterTypeCanFailBinding`
unfoldable pub parameter_type_can_fail_binding : Source → ReflectType → Bool
unfolding base_kind
parameter_type_can_fail_binding source t =
    if is_query source && not (is_slice t) then true else not (is_string (base_kind t))

abbrev pub head_name : Option (Text × Text) → Text → Text
head_name none whole = whole
head_name (some (name, rest)) whole = name

abbrev pub usable_name : Text → Bool
usable_name name = not (name == []) && not (name == codes "-")

-- `declaresJSONName`
unfoldable pub declares_json_name : Option Text → Bool
declares_json_name none = false
declares_json_name (some tag) = usable_name (head_name (cut tag b',') tag)

abbrev pub is_integer : ReflectType → Bool
is_integer (int_kind bits) = true
is_integer (uint_kind bits) = true
is_integer _ = false

unfoldable pub behind_pointers : ReflectType → ReflectType
behind_pointers (pointer t) = behind_pointers t
behind_pointers t = t

abbrev pub is_path : Source → Bool
is_path path = true
is_path _ = false

-- `compiledBindDetail`
unfoldable pub compiled_bind_detail : Source → Text → ReflectType → List (Text × Text) → Text
unfolding declares_json_name behind_pointers
compiled_bind_detail source name t tags =
    if is_path source
      && (not (declares_json_name (lookup (codes "json") tags)) && is_integer (behind_pointers t))
    then codes "url param " ++ (name ++ codes " must be a valid integer")
    else codes "Invalid request: invalid value for parameter " ++ name

abbrev pub raw_of : ReflectType → Option RawPayload
raw_of (struct_kind s) = s.raw_json
raw_of _ = none

abbrev pub is_raw_pointer : ReflectType → Bool
is_raw_pointer (pointer t) = elim (raw_of t) [ none ↦ false | some payload ↦ true ]
is_raw_pointer _ = false

abbrev pub is_pointer : ReflectType → Bool
is_pointer (pointer t) = true
is_pointer _ = false

-- The element type behind slices and arrays has no name of its own.
unfoldable pub is_anonymous : ReflectType → Bool
is_anonymous (slice t) = is_anonymous t
is_anonymous (array t) = is_anonymous t
is_anonymous (struct_kind s) = elim s.raw_json [
  | none ↦ s.name == []
  | some payload ↦ payload.is_anonymous
]
is_anonymous _ = false

abbrev pub pointed_type : ReflectType → ReflectType
pointed_type (pointer t) = t
pointed_type t = t

-- The check of a body's type by its flavour: a RawJSON, a pointer or a value.
unfoldable pub check_body_type :
    Text → Bool → ReflectType → Option RawPayload → Option RequestViolation
unfolding is_anonymous
check_body_type name required t (some payload) =
    if payload.is_anonymous then some (anonymous_body name) else none
check_body_type name required t none =
    if is_pointer t
    then (if is_raw_pointer t
        then some (raw_pointer name)
        else (if required
            then some (pointer_required name)
            else (if is_anonymous (pointed_type t) then some (anonymous_body name) else none)))
    else (if not required
        then some (value_optional name)
        else (if is_anonymous t then some (anonymous_body name) else none))

abbrev pub rejects_raw_null : Option RawPayload → Bool
rejects_raw_null none = false
rejects_raw_null (some payload) = not payload.allows_null

abbrev pub is_raw : Option RawPayload → Bool
is_raw none = false
is_raw (some payload) = true
