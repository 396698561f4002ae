-- ===== src/Acl.antt =====
-- pkg/acl/slug.go: permission slugs.
pub mod WellFormed
mod Tests
use golang_postgres_starter.Base.{
  ℕ, Text, Bool, ◌&&◌, not, leb, ◌==◌, nat_eq, text_eq, List, [], ◌∷◌, length, ltb, split,
  if◌then◌else◌, Option, none, some,
}

-- The ways in which a slug is refused; the last carries the byte that is not allowed.
pub data SlugError : Type 0 where
  empty_slug too_few_segments empty_segment : SlugError
  invalid_character : ℕ → SlugError

abbrev pub min_slug_segments : ℕ
min_slug_segments = 2

unfoldable pub is_slug_char : ℕ → Bool
is_slug_char r =
    let is_lower = leb b'a' r && leb r b'z' in
    let is_digit = leb b'0' r && leb r b'9' in not (not is_lower && not is_digit && not (r == b'_'))

unfoldable pub check_chars : Text → Option SlugError
unfolding is_slug_char
check_chars [] = none
check_chars (r ∷ segment) =
    if is_slug_char r then check_chars segment else some (invalid_character r)

unfoldable pub check_segments : List Text → Option SlugError
check_segments [] = none
check_segments ([] ∷ segments) = some empty_segment
check_segments ((c ∷ segment) ∷ segments) = elim (check_chars (c ∷ segment)) [
  | some e ↦ some e
  | none ↦ check_segments segments
]

-- `Slug.Validate`; `none` is the nil error.
unfoldable pub validate : Text → Option SlugError
unfolding check_segments check_chars
validate s =
    if s == []
    then some empty_slug
    else if ltb (length (split s b'.')) min_slug_segments
    then some too_few_segments
    else check_segments (split s b'.')
