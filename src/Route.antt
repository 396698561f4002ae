-- ===== src/Route.antt =====
-- internal/httpx/compile.go and internal/httpx/openapi.go: route patterns, their normal form,
-- mounts over routes, and generated operation ids.
pub mod Shape
pub mod Mount
pub mod Placeholders
mod Tests
use golang_postgres_starter.Base.{
  is_digit, ℕ, ◌+◌, ◌-◌, Text, codes, Bool, true, false, ◌&&◌, ◌||◌, ltb, leb, ◌==◌, nat_eq,
  text_eq, List, [], ◌∷◌, ◌++◌, map, length, if◌then◌else◌, Option, none, some, split, join,
  has_prefix, has_suffix, trim_suffix, trim_prefix, trim, cut, to_lower,
}

abbrev pub slash : ℕ
slash = b'/'

abbrev pub is_slash : ℕ → Bool
is_slash c = c == slash

abbrev pub open_brace : ℕ
open_brace = b'{'

abbrev pub close_brace : ℕ
close_brace = b'}'

-- `isTemplatedSegment`: a placeholder segment.
unfoldable pub is_templated : Text → Bool
is_templated segment = has_prefix segment (open_brace ∷ []) && has_suffix segment close_brace

-- `dynamicRoutingSegment`
unfoldable pub is_dynamic : Text → Bool
unfolding is_templated
is_dynamic segment = segment == b'*' ∷ [] || is_templated segment

-- `routingSegments` and `splitPathSegments`
unfoldable pub routing_segments : Text → List Text
routing_segments pattern =
    let trimmed = trim is_slash pattern in if trimmed == [] then [] else split trimmed slash

unfoldable pub covers_segments : List Text → List Text → Bool
covers_segments [] routes = true
covers_segments (m ∷ mounts) [] = false
covers_segments (m ∷ mounts) (r ∷ routes) =
    (m == r || (is_dynamic m || is_dynamic r)) && covers_segments mounts routes

unfoldable pub mount_contains_route_pattern : Text → Text → Bool
unfolding covers_segments
mount_contains_route_pattern mount route =
    covers_segments (routing_segments mount) (routing_segments route)

unfoldable pub mount_patterns_overlap : Text → Text → Bool
mount_patterns_overlap left right =
    mount_contains_route_pattern left right || mount_contains_route_pattern right left

abbrev pub anonymous : Text
anonymous = open_brace ∷ close_brace ∷ []

-- One round of the loop of `normalizePath`.
unfoldable pub anonymize : Text → Text
anonymize segment = if is_templated segment then anonymous else segment

-- The end of `normalizePath`: one slash at the end goes, and the empty path is the root.
unfoldable pub root_or : Text → Text
root_or [] = slash ∷ []
root_or (c ∷ s) = c ∷ s

unfoldable pub finish_path : Text → Text
unfolding root_or
finish_path joined = root_or (if ltb 1 (length joined) then trim_suffix joined slash else joined)

unfoldable pub normalize_path : Text → Text
unfolding finish_path anonymize
normalize_path path = finish_path (join (map anonymize (split path slash)) slash)

unfoldable pub join_pattern : Text → Text → Text
join_pattern base pattern =
    if base == []
    then pattern
    else if pattern == [] || pattern == slash ∷ []
    then base
    else trim_suffix base slash ++ pattern

-- Puts a text in front of the others, if it is not empty.
abbrev pub flush : Text → List Text → List Text
flush [] words = words
flush (c ∷ current) words = (c ∷ current) ∷ words

-- `placeholderPattern` finds each `{` with the bytes up to the next `}`, if there is one between;
-- in such a match a further `{` is an ordinary byte.
unfoldable pub find_placeholders : Text → Option Text → List Text
find_placeholders [] inside = []
find_placeholders (c ∷ s) none = find_placeholders s (if c == open_brace then some [] else none)
find_placeholders (c ∷ s) (some inner) =
    let closed = flush inner (find_placeholders s none) in
    let longer = find_placeholders s (some (inner ++ c ∷ [])) in
    if c == close_brace then closed else longer

unfoldable pub placeholder_name : Text → Text
placeholder_name inner = elim (cut inner b':') [ none ↦ inner | some (name, _) ↦ name ]

-- `pathPlaceholders`
unfoldable pub path_placeholders : Text → List Text
unfolding find_placeholders placeholder_name
path_placeholders path = map placeholder_name (find_placeholders path none)

abbrev pub is_brace : ℕ → Bool
is_brace c = c == open_brace || c == close_brace

-- One round of `convertRouteToOpenAPIPath`: the constraint of a parameter goes.
unfoldable pub strip_constraint : Text → Text
strip_constraint part =
    if is_templated part
    then elim (cut (trim is_brace part) b':') [
      | none ↦ part
      | some (before, _) ↦ open_brace ∷ (before ++ close_brace ∷ [])
    ]
    else part

unfoldable pub convert_route : Text → Text
unfolding strip_constraint finish_path
convert_route route = finish_path (join (map strip_constraint (split route slash)) slash)

-- Letters and digits, in ASCII.
abbrev pub is_upper : ℕ → Bool
is_upper c = leb b'A' c && leb c b'Z'

abbrev pub is_lower : ℕ → Bool
is_lower c = leb b'a' c && leb c b'z'

abbrev pub is_word : ℕ → Bool
is_word c = is_upper c || is_lower c || is_digit c

-- `splitIdentifierWords`; the second argument is `current`.
unfoldable pub split_words : Text → Text → List Text
split_words [] current = flush current []
split_words (r ∷ s) current =
    let longer = split_words s (current ++ r ∷ []) in
    let ended = flush current (split_words s []) in if is_word r then longer else ended

abbrev pub upper : ℕ → ℕ
upper c = if is_lower c then c - 32 else c

abbrev pub capitalize : Text → Text
capitalize [] = []
capitalize (r ∷ s) = upper r ∷ s

abbrev pub concat : List Text → Text
concat [] = []
concat (w ∷ ws) = w ++ concat ws

abbrev pub number_first : Text → Text
number_first [] = []
number_first (r ∷ token) = if is_digit r then b'N' ∷ r ∷ token else r ∷ token

unfoldable pub to_pascal_identifier : Text → Text
unfolding split_words to_lower
to_pascal_identifier segment =
    number_first (concat (map (λ word. capitalize (to_lower word)) (split_words segment [])))

-- The token of a placeholder.
unfoldable pub parameter_part : Text → Text
parameter_part segment =
    let inner = trim_suffix (trim_prefix segment (open_brace ∷ [])) close_brace in
    let token = to_pascal_identifier (placeholder_name inner) in
    codes "By" ++ (if token == [] then codes "Param" else token)

-- What one segment adds to the parts of an operation id.
unfoldable pub identifier_parts : Text → List Text
unfolding to_pascal_identifier parameter_part
identifier_parts segment =
    if segment == []
    then []
    else if is_templated segment
    then parameter_part segment ∷ []
    else flush (to_pascal_identifier segment) []

abbrev pub or_root : List Text → List Text
or_root [] = codes "Root" ∷ []
or_root (p ∷ ps) = p ∷ ps

unfoldable pub collect_parts : List Text → List Text
unfolding identifier_parts
collect_parts [] = []
collect_parts (s ∷ ss) = identifier_parts s ++ collect_parts ss

unfoldable pub generate_operation_id : Text → Text → Text
unfolding collect_parts convert_route to_lower
generate_operation_id method route =
    to_lower method
    ++ concat (or_root (collect_parts (split (trim is_slash (convert_route route)) slash)))

-- The loop of `pathsAreAmbiguous`; the last argument is `hasParameterizedDifference`.
unfoldable pub differ_in_names : List Text → List Text → Bool → Bool
differ_in_names [] [] found = found
differ_in_names [] (_ ∷ _) found = false
differ_in_names (_ ∷ _) [] found = false
differ_in_names (a ∷ left) (b ∷ right) found =
    let same = differ_in_names left right found in
    let named = differ_in_names left right true in
    if a == b then same else if is_templated a && is_templated b then named else false

unfoldable pub paths_are_ambiguous : Text → Text → Bool
unfolding differ_in_names
paths_are_ambiguous left right =
    differ_in_names (routing_segments left) (routing_segments right) false
