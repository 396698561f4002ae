-- ===== src/Binding.antt =====
-- internal/httpx/request.go: where the parameters of a request come from, and how a text becomes the
-- value of a field.
pub mod Wire
pub mod Body
pub mod Plan
pub mod Settable
pub mod Own
pub mod Filled
pub mod Failure
pub mod Boundary
pub mod Toy
mod Tests
pub mod Bind
use golang_postgres_starter.Base.{
  ℕ, Text, codes, Bool, true, false, ◌||◌, ◌&&◌, if◌then◌else◌, ◌==◌, nat_eq, text_eq, List, [],
  ◌∷◌, Option, none, some, lookup,
}
use golang_postgres_starter.Strconv.{ℤ, pos, parse_int, parse_uint}

-- The payload type of a RawJSON: what `rawJSONPayloadAllowsNull` says of it, and whether it is a
-- struct without a name.
pub record RawPayload : Type 0 where
  pub allows_null : Bool
  pub is_anonymous : Bool

-- What the binder asks of a struct type by reflection. `raw_json` is set of a RawJSON.
pub record StructType : Type 0 where
  pub name : Text
  pub is_time : Bool
  pub unmarshals_text : Bool
  pub unmarshals_json : Bool
  pub is_registered : Bool
  pub raw_json : Option RawPayload

-- A reflect.Type by its kind; the numbers are sizes in bits.
pub data ReflectType : Type 0 where
  pointer slice array : ReflectType → ReflectType
  string_kind bool_kind : ReflectType
  int_kind uint_kind float_kind : ℕ → ReflectType
  struct_kind : StructType → ReflectType
  other_kind : Text → ReflectType

pub data Source : Type 0 where
  path query header cookie : Source

-- A raw value: a string, or a list of strings.
pub data Raw : Type 0 where
  one : Text → Raw
  many : List Text → Raw

-- The values of fields: a nil pointer, what a pointer points to, a slice, and scalars. `zeroed` is
-- the zero value of a float, of a time and of another struct, `parsed` what a library made of a text.
mutual
  pub data Value (L : Type 0) : Type 0 where
    nil_pointer zeroed : Value L
    pointed : Value L → Value L
    slice_of : Values L → Value L
    text : Text → Value L
    flag : Bool → Value L
    integer : ℤ → Value L
    natural : ℕ → Value L
    parsed : L → Value L

  pub data Values (L : Type 0) : Type 0 where
    empty : Values L
    item : Value L → Values L → Values L

-- The parsers of strconv.ParseFloat and time.Parse, and the UnmarshalText and UnmarshalJSON of a
-- named type, as far as they succeed.
pub record Parsers (L : Type 0) : Type 0 where
  pub parse_float : Text → Option L
  pub parse_time : Text → Option L
  pub unmarshal_text : Text → Text → Option L
  pub unmarshal_json : Text → Text → Option L

-- The parts of a request that parameters come from: chi's, the query, the headers by Header.Get and
-- the cookies by Request.Cookie.
pub record Parameters : Type 0 where
  pub params : List (Text × Text)
  pub query : List (Text × List Text)
  pub header_of : Text → Text
  pub cookie_of : Text → Option Text

abbrev pub nonempty : Text → Option Raw
nonempty [] = none
nonempty (c ∷ cs) = some (one (c ∷ cs))

abbrev pub found_text : Option Text → Option Raw
found_text none = none
found_text (some v) = nonempty v

abbrev pub query_values : List Text → Option Raw
query_values [] = none
query_values (v ∷ []) = some (one v)
query_values (v ∷ w ∷ vs) = some (many (v ∷ w ∷ vs))

abbrev pub found_values : Option (List Text) → Option Raw
found_values none = none
found_values (some vs) = query_values vs

-- `compileLookup`: what the closure of a source returns.
unfoldable pub lookup_raw : Source → Text → Parameters → Option Raw
lookup_raw path name r = found_text (lookup name r.params)
lookup_raw query name r = found_values (lookup name r.query)
lookup_raw header name r = nonempty (r.header_of name)
lookup_raw cookie name r = found_text (r.cookie_of name)

-- strconv.ParseBool
unfoldable pub parse_bool : Text → Option Bool
parse_bool s =
    if s == codes "1"
      || (s == codes "t"
          || (s == codes "T" || (s == codes "true" || (s == codes "TRUE" || s == codes "True"))))
    then some true
    else (if s == codes "0"
          || (s == codes "f"
              || (s == codes "F"
                  || (s == codes "false" || (s == codes "FALSE" || s == codes "False"))))
        then some false
        else none)

-- A setter takes the value of the field and the raw value; `none` is an error.
abbrev pub Setter : Type 0 → Type 0
Setter L = Value L → Raw → Option (Value L)

abbrev pub values_of : Raw → List Text
values_of (one s) = s ∷ []
values_of (many ss) = ss

module _ {L : Type 0} where
  -- The zero value of a type.
  unfoldable pub zero_value : ReflectType → Value L
  zero_value (pointer t) = nil_pointer
  zero_value (slice t) = slice_of empty
  zero_value (array t) = zeroed
  zero_value string_kind = text []
  zero_value bool_kind = flag false
  zero_value (int_kind bits) = integer (pos 0)
  zero_value (uint_kind bits) = natural 0
  zero_value (float_kind bits) = zeroed
  zero_value (struct_kind s) = zeroed
  zero_value (other_kind name) = zeroed

  abbrev pub stored : {A : Type 0} → (A → Value L) → Option A → Option (Value L)
  stored f none = none
  stored f (some a) = some (f a)

  -- `rawString` in front of a conversion.
  unfoldable pub with_string : (Value L → Text → Option (Value L)) → Setter L
  with_string convert v (one s) = convert v s
  with_string convert v (many ss) = none

  -- The empty text is a zero value, any other is converted.
  abbrev pub or_zero :
      {A : Type 0} → Value L → (A → Value L) → (Text → Option A) → Text → Option (Value L)
  or_zero zero f convert [] = some zero
  or_zero zero f convert (c ∷ cs) = stored f (convert (c ∷ cs))

  abbrev pub pointee : Value L → Value L → Value L
  pointee zero (pointed v) = v
  pointee zero _ = zero

  unfoldable pub set_pointer : Value L → Setter L → Setter L
  set_pointer zero set v (one []) = some nil_pointer
  set_pointer zero set v (one (c ∷ cs)) = stored pointed (set (pointee zero v) (one (c ∷ cs)))
  set_pointer zero set v (many ss) = stored pointed (set (pointee zero v) (many ss))

  abbrev pub item_of : Option (Value L) → Option (Values L) → Option (Values L)
  item_of none vs = none
  item_of (some v) none = none
  item_of (some v) (some vs) = some (item v vs)

  -- The loop over the values of a slice.
  unfoldable pub set_items : Value L → Setter L → List Text → Option (Values L)
  set_items zero set [] = some empty
  set_items zero set (s ∷ ss) = let rest = set_items zero set ss in item_of (set zero (one s)) rest

  unfoldable pub set_slice : Value L → Setter L → Setter L
  unfolding set_items
  set_slice zero set v raw = stored slice_of (set_items zero set (values_of raw))

  abbrev pub if_settable : (Setter L → Setter L) → Option (Setter L) → Option (Setter L)
  if_settable f none = none
  if_settable f (some set) = some (f set)

  -- The empty text leaves the value of a registered scalar as it is.
  abbrev pub unless_empty : Value L → (Text → Option L) → Text → Option (Value L)
  unless_empty v convert [] = some v
  unless_empty v convert (c ∷ cs) = stored parsed (convert (c ∷ cs))

  unfoldable pub struct_setter : Parsers L → StructType → Option (Setter L)
  unfolding with_string
  struct_setter lib s =
      if s.is_time
      then some (with_string (λ v. or_zero zeroed parsed lib.parse_time))
      else (if s.unmarshals_text
          then some (with_string (λ v str. stored parsed (lib.unmarshal_text s.name str)))
          else (if s.unmarshals_json && s.is_registered
              then some (with_string (λ v. unless_empty v (lib.unmarshal_json s.name)))
              else none))

  -- `compileSetter`; `none` is the error of a type without a conversion.
  unfoldable pub compile_setter : Parsers L → ReflectType → Option (Setter L)
  unfolding with_string set_pointer set_slice struct_setter zero_value parse_bool
  compile_setter lib (pointer t) = if_settable (set_pointer (zero_value t)) (compile_setter lib t)
  compile_setter lib (slice t) = if_settable (set_slice (zero_value t)) (compile_setter lib t)
  compile_setter lib (array t) = none
  compile_setter lib string_kind = some (with_string (λ v s. some (text s)))
  compile_setter lib bool_kind = some (with_string (λ v. or_zero (flag false) flag parse_bool))
  compile_setter lib (int_kind bits) =
      some (with_string (λ v. or_zero (integer (pos 0)) integer (parse_int bits)))
  compile_setter lib (uint_kind bits) =
      some (with_string (λ v. or_zero (natural 0) natural (parse_uint bits)))
  compile_setter lib (float_kind bits) =
      some (with_string (λ v. or_zero zeroed parsed lib.parse_float))
  compile_setter lib (struct_kind s) = struct_setter lib s
  compile_setter lib (other_kind name) = none
