-- ===== src/Binding/Boundary/Tests.antt =====
-- A run of the check of the boundary, and its theorem at a concrete request.
use golang_postgres_starter.Base.{
  ℕ, Text, codes, true, false, List, [], ◌∷◌, some, split, join, cut, trim_space, trim, trim_left,
  Bool, ◌&&◌, contains, nat_eq, nat_beq_iff, arith, Lacks, ◌≡◌, ◌↔◌, refl, All,
}
use golang_postgres_starter.Binding.Boundary.{
  TaggedField, param_side, body_side, Crossing, split_spaces, nonempty_parts, text_fields,
  first_path_segment, every_second, parameter_targets, alternative_targets, entry_targets,
  cross_field_targets, other_fields, check_targets, check_tagged, validate_cross_field_boundary,
}
use golang_postgres_starter.Binding.Boundary.Parts.{is_plain, IsWord}
use golang_postgres_starter.Binding.Boundary.Written.{
  IsEntry, IsName, Rule, pairs, listed, single, other, bare,
}
use golang_postgres_starter.Binding.Boundary.Sides.{IsWritten, StaysInside, validate_boundary_iff}

abbrev tagged : Text → Text → TaggedField
tagged n tag = record { name = n; validate = tag }

-- A mode whose tag refers to a parameter and to a path in the body, and the body.
abbrev request : List TaggedField
request =
    tagged (codes "Kind") []
    ∷ tagged (codes "Mode") (codes "omitempty,required_if=Kind bulk Payload.Size 3|max=9")
    ∷ tagged (codes "Body") []
    ∷ []

abbrev body : List TaggedField
body =
    tagged (codes "Payload") (codes "required")
    ∷ tagged (codes "Confirm") (codes "eqfield=Payload,required_with=Payload Kind")
    ∷ []

abbrev request_rules : List (List Rule)
request_rules =
    (bare (codes "omitempty") ∷ [])
    ∷ (pairs (codes "required_if")
          ((codes "Kind", codes "bulk") ∷ (codes "Payload.Size", codes "3") ∷ [])
        ∷ other (codes "max") (codes "9")
        ∷ [])
    ∷ []

abbrev confirm_rules : List (List Rule)
confirm_rules =
    (single (codes "eqfield") (codes "Payload") ∷ [])
    ∷ (listed (codes "required_with") (codes "Payload" ∷ codes "Kind" ∷ []) ∷ [])
    ∷ []

abbrev crossings : List Crossing
crossings =
    record { side = param_side; field = codes "Mode"; target = codes "Payload" }
    ∷ record { side = body_side; field = codes "Confirm"; target = codes "Kind" }
    ∷ []

validate_runs : validate_cross_field_boundary request (codes "Body") (some body) ≡ crossings
unfolding split trim_space trim trim_left cut split_spaces nonempty_parts text_fields
    first_path_segment every_second parameter_targets alternative_targets entry_targets
    cross_field_targets other_fields check_targets check_tagged validate_cross_field_boundary
validate_runs = refl

abbrev all_plain : Text → Bool
all_plain [] = true
all_plain (c ∷ w) = is_plain c && all_plain w

word_tail : (w : Text) → all_plain w ≡ true → All (λ c. is_plain c ≡ true) w
word_tail [] h = tt
word_tail (c ∷ w) h = grind (arith, word_tail w)

-- A plain text that is not empty is a word; one without the byte lacks it.
word_lem : (c : ℕ) (w : Text) → all_plain (c ∷ w) ≡ true → IsWord (c ∷ w)
word_lem c w h = ((λ e. cc), word_tail (c ∷ w) h)

lacks_lem : (c : ℕ) (w : Text) → contains w c ≡ false → Lacks c w
lacks_lem c [] h = tt
lacks_lem c (d ∷ w) h = grind (arith, lacks_lem c w, nat_beq_iff d c)

name_lem :
    (c : ℕ) (w : Text) → all_plain (c ∷ w) ≡ true → contains (c ∷ w) b'=' ≡ false → IsName (c ∷ w)
name_lem c w plain no_sign = (word_lem c w plain, lacks_lem b'=' (c ∷ w) no_sign)

request_IsEntry : All IsEntry request_rules
request_IsEntry = (
  ((λ e. cc), (name_lem _ _ refl refl, tt)),
  (
    (
      (λ e. cc),
      (
        (
          refl,
          (λ e. cc),
          ((word_lem _ _ refl, word_lem _ _ refl), ((word_lem _ _ refl, word_lem _ _ refl), tt)),
        ),
        ((refl, name_lem _ _ refl refl, word_lem _ _ refl), tt),
      ),
    ),
    tt,
  ),
)

confirm_IsEntry : All IsEntry confirm_rules
confirm_IsEntry = (
  ((λ e. cc), ((refl, word_lem _ _ refl), tt)),
  (((λ e. cc), ((refl, (λ e. cc), (word_lem _ _ refl, (word_lem _ _ refl, tt))), tt)), tt),
)

request-IsWritten : All IsWritten request
unfolding join
request-IsWritten =
    (([], (tt, refl)), ((request_rules, (request_IsEntry, refl)), (([], (tt, refl)), tt)))

body-IsWritten : All IsWritten body
unfolding join
body-IsWritten = (
  ((bare (codes "required") ∷ []) ∷ [], ((((λ e. cc), (name_lem _ _ refl refl, tt)), tt), refl)),
  ((confirm_rules, (confirm_IsEntry, refl)), tt),
)

validate_boundary_iff_example :
    (validate_cross_field_boundary request (codes "Body") (some body) ≡ [])
    ↔ StaysInside request (codes "Body") body
validate_boundary_iff_example =
    validate_boundary_iff request (codes "Body") body request-IsWritten body-IsWritten
