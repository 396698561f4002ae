-- ===== src/Binding/Boundary.antt =====
-- internal/httpx/request.go: validateCrossFieldBoundary, the check of validate tags that refer to
-- fields on the other side of the split between parameters and body.
pub mod Parts
pub mod Written
pub mod Rules
pub mod Read
pub mod Sides
mod Tests
use golang_postgres_starter.Base.{
  Text, codes, ◌==◌, nat_eq, text_eq, if◌then◌else◌, List, [], ◌∷◌, ◌++◌, map, contains, Option,
  none, some, split, cut, trim_space, is_space, grow,
}

-- The tags whose parameter is a list of fields and values, a list of fields, and one field.
abbrev pub pair_tags : List Text
pair_tags =
    codes "required_if"
    ∷ codes "required_unless"
    ∷ codes "excluded_if"
    ∷ codes "excluded_unless"
    ∷ codes "skip_unless"
    ∷ []

abbrev pub list_tags : List Text
list_tags =
    codes "required_with"
    ∷ codes "required_with_all"
    ∷ codes "required_without"
    ∷ codes "required_without_all"
    ∷ codes "excluded_with"
    ∷ codes "excluded_with_all"
    ∷ codes "excluded_without"
    ∷ codes "excluded_without_all"
    ∷ []

abbrev pub single_tags : List Text
single_tags =
    codes "eqfield"
    ∷ codes "nefield"
    ∷ codes "gtfield"
    ∷ codes "gtefield"
    ∷ codes "ltfield"
    ∷ codes "ltefield"
    ∷ codes "fieldcontains"
    ∷ codes "fieldexcludes"
    ∷ codes "eqcsfield"
    ∷ codes "necsfield"
    ∷ codes "gtcsfield"
    ∷ codes "gtecsfield"
    ∷ codes "ltcsfield"
    ∷ codes "ltecsfield"
    ∷ []

-- strings.Fields on ASCII: the parts between white space that are not empty.
abbrev pub add_part : Text → List Text → List Text
add_part [] parts = parts
add_part (c ∷ part) parts = (c ∷ part) ∷ parts

unfoldable pub split_spaces : Text → List Text
split_spaces [] = [] ∷ []
split_spaces (c ∷ s) = let rest = split_spaces s in if is_space c then [] ∷ rest else grow c rest

unfoldable pub nonempty_parts : List Text → List Text
nonempty_parts [] = []
nonempty_parts (part ∷ parts) = add_part part (nonempty_parts parts)

unfoldable pub text_fields : Text → List Text
unfolding split_spaces nonempty_parts
text_fields s = nonempty_parts (split_spaces s)

abbrev pub before_dot : Option (Text × Text) → Text → Text
before_dot none ref = ref
before_dot (some (segment, rest)) ref = segment

-- `firstPathSegment`
unfoldable pub first_path_segment : Text → Text
first_path_segment ref = before_dot (cut ref b'.') ref

-- The tokens with even indexes.
unfoldable pub every_second : List Text → List Text
every_second [] = []
every_second (t ∷ []) = t ∷ []
every_second (t ∷ u ∷ rest) = t ∷ every_second rest

-- The switch over the kinds of tags.
unfoldable pub parameter_targets : Text → Text → List Text
unfolding text_fields first_path_segment every_second
parameter_targets name param =
    if contains pair_tags name
    then map first_path_segment (every_second (text_fields param))
    else (if contains list_tags name
        then map first_path_segment (text_fields param)
        else (if contains single_tags name then first_path_segment param ∷ [] else []))

abbrev pub cut_targets : Option (Text × Text) → List Text
cut_targets none = []
cut_targets (some (name, param)) = if param == [] then [] else parameter_targets name param

unfoldable pub alternative_targets : List Text → List Text
unfolding parameter_targets
alternative_targets [] = []
alternative_targets (alt ∷ alts) =
    cut_targets (cut (trim_space alt) b'=') ++ alternative_targets alts

unfoldable pub entry_targets : List Text → List Text
unfolding alternative_targets
entry_targets [] = []
entry_targets (entry ∷ entries) = alternative_targets (split entry b'|') ++ entry_targets entries

-- `crossFieldTargets`
unfoldable pub cross_field_targets : Text → List Text
unfolding entry_targets
cross_field_targets tag = if tag == [] then [] else entry_targets (split tag b',')

-- A field with its validate tag.
pub record TaggedField : Type 0 where
  pub name : Text
  pub validate : Text

pub data Side : Type 0 where
  param_side body_side : Side

-- A reference that never matches: its side, its field and the name that it refers to.
pub record Crossing : Type 0 where
  pub side : Side
  pub field : Text
  pub target : Text

abbrev pub field_names : List TaggedField → List Text
field_names [] = []
field_names (f ∷ fs) = f.name ∷ field_names fs

-- The fields of the request but for its body.
unfoldable pub other_fields : Text → List TaggedField → List TaggedField
other_fields body [] = []
other_fields body (f ∷ fs) =
    let rest = other_fields body fs in if f.name == body then rest else f ∷ rest

module _ (side : Side) (siblings other : List Text) where
  abbrev pub check_target : Text → Text → List Crossing
  check_target field target =
      if contains siblings target
      then []
      else (if contains other target
          then record { side = side; field = field; target = target } ∷ []
          else [])

  -- `check`, on the targets of one field.
  unfoldable pub check_targets : Text → List Text → List Crossing
  check_targets field [] = []
  check_targets field (target ∷ targets) = check_target field target ++ check_targets field targets

  unfoldable pub check_tagged : List TaggedField → List Crossing
  unfolding check_targets cross_field_targets
  check_tagged [] = []
  check_tagged (f ∷ fs) = check_targets f.name (cross_field_targets f.validate) ++ check_tagged fs

-- `validateCrossFieldBoundary`, on the fields of the request, the name of the body among them, and
-- the fields of the body's type behind its pointers, if that is a struct.
unfoldable pub validate_cross_field_boundary :
    List TaggedField → Text → Option (List TaggedField) → List Crossing
unfolding other_fields check_tagged
validate_cross_field_boundary fields body none = []
validate_cross_field_boundary fields body (some inner) =
    let params = other_fields body fields in
    check_tagged param_side (field_names params) (field_names inner) params
    ++ check_tagged body_side (field_names inner) (field_names params) inner
