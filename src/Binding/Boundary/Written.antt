-- ===== src/Binding/Boundary/Written.antt =====
-- Validate tags as rules, the names of fields that they refer to, and how a tag is written.
use golang_postgres_starter.Base.{
  Text, Bool, true, false, ◌||◌, nat_eq, text_eq, List, [], ◌∷◌, ◌++◌, map, contains, join, ◌≡◌,
  ◌≢◌, All, Lacks,
}
use golang_postgres_starter.Binding.Boundary.{pair_tags, list_tags, single_tags, first_path_segment}
use golang_postgres_starter.Binding.Boundary.Parts.{IsWord}

-- A rule of a tag: fields with values, fields, one field, another rule with its parameter, or a
-- rule with none.
pub data Rule : Type 0 where
  pairs : Text → List (Text × Text) → Rule
  listed : Text → List Text → Rule
  single other : Text → Text → Rule
  bare : Text → Rule

abbrev pub tokens_of : List (Text × Text) → List Text
tokens_of [] = []
tokens_of ((field, value) ∷ ps) = field ∷ value ∷ tokens_of ps

abbrev pub fields_of : List (Text × Text) → List Text
fields_of [] = []
fields_of ((field, value) ∷ ps) = field ∷ fields_of ps

-- The names of fields that a rule refers to.
abbrev pub references : Rule → List Text
references (pairs name ps) = map first_path_segment (fields_of ps)
references (listed name fields) = map first_path_segment fields
references (single name field) = first_path_segment field ∷ []
references (other name param) = []
references (bare name) = []

abbrev pub entry_references : List Rule → List Text
entry_references [] = []
entry_references (rule ∷ rules) = references rule ++ entry_references rules

abbrev pub tag_references : List (List Rule) → List Text
tag_references [] = []
tag_references (entry ∷ entries) = entry_references entry ++ tag_references entries

abbrev pub with_parameter : Text → Text → Text
with_parameter name param = name ++ b'=' ∷ param

abbrev pub write_rule : Rule → Text
write_rule (pairs name ps) = with_parameter name (join (tokens_of ps) 0x20)
write_rule (listed name fields) = with_parameter name (join fields 0x20)
write_rule (single name field) = with_parameter name field
write_rule (other name param) = with_parameter name param
write_rule (bare name) = name

-- Alternatives are separated by bars, entries by commas.
abbrev pub write_entry : List Rule → Text
write_entry rules = join (map write_rule rules) b'|'

abbrev pub write_tag : List (List Rule) → Text
write_tag entries = join (map write_entry entries) b','

abbrev pub IsName : Text → Type 0
IsName name = IsWord name × Lacks b'=' name

abbrev pub IsPair : Text × Text → Type 0
IsPair (field, value) = IsWord field × IsWord value

-- A tag that refers to fields.
abbrev pub refers : Text → Bool
refers name = contains pair_tags name || (contains list_tags name || contains single_tags name)

abbrev pub IsRule : Rule → Type 0
IsRule (pairs name ps) = (contains pair_tags name ≡ true) × (ps ≢ []) × All IsPair ps
IsRule (listed name fields) = (contains list_tags name ≡ true) × (fields ≢ []) × All IsWord fields
IsRule (single name field) = (contains single_tags name ≡ true) × IsWord field
IsRule (other name param) = (refers name ≡ false) × IsName name × IsWord param
IsRule (bare name) = IsName name

abbrev pub IsEntry : List Rule → Type 0
IsEntry rules = (rules ≢ []) × All IsRule rules
