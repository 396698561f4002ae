-- ===== src/Acl/WellFormed.antt =====
-- What `Slug.Validate` accepts.
use golang_postgres_starter.Base.{
  ℕ, Text, ◌≡◌, ◌≤◌, ◌↔◌, ◌⊎◌, ◌≢◌, List, [], ◌∷◌, All, All-map, Lacks, split-join, ap, length,
  join, join-split, list_beq_iff, split, none, arith,
}
use golang_postgres_starter.Acl.{check_chars, check_segments, validate, min_slug_segments}

-- A lower-case letter, a digit or an underscore.
abbrev pub IsSlugChar : ℕ → Type 0
IsSlugChar r = ((b'a' ≤ r) × (r ≤ b'z')) ⊎ ((b'0' ≤ r) × (r ≤ b'9')) ⊎ (r ≡ b'_')

abbrev pub IsSegment : Text → Type 0
IsSegment s = (s ≢ []) × All IsSlugChar s

check_chars_iff : (s : Text) → (check_chars s ≡ none) ↔ All IsSlugChar s
unfolding check_chars
check_chars_iff [] = ground arith
check_chars_iff (r ∷ s) = ground (arith, check_chars_iff s)

check_segments_iff : (ss : List Text) → (check_segments ss ≡ none) ↔ All IsSegment ss
unfolding check_segments
check_segments_iff [] = ground arith
check_segments_iff ([] ∷ ss) = ground arith
check_segments_iff ((c ∷ s) ∷ ss) = ground (arith, check_chars_iff (c ∷ s), check_segments_iff ss)

-- The grammar of a slug: at least two segments joined by dots.
pub record IsSlug (s : Text) : Type 0 where
  pub segments : List Text
  pub joined : join segments b'.' ≡ s
  pub enough : min_slug_segments ≤ length segments
  pub fine : All IsSegment segments

IsSlugChar-ne-dot : (r : ℕ) → IsSlugChar r → r ≢ b'.'
IsSlugChar-ne-dot r h = ground arith

IsSegment-Lacks : (s : Text) → IsSegment s → Lacks b'.' s
IsSegment-Lacks s (_, h) = All-map IsSlugChar (λ c. c ≢ b'.') IsSlugChar-ne-dot s h

split-segments : {s : Text} (w : IsSlug s) → split s b'.' ≡ w.segments
split-segments {s} w =
    let some_part : w.segments ≢ [] = λ e. ground (arith, w.enough, ap length e) in
    let no_dots = All-map IsSegment (Lacks b'.') IsSegment-Lacks w.segments w.fine in
    rw (← w.joined) (split-join w.segments b'.' (some_part, no_dots))

IsSlug-ne-nil : {s : Text} → IsSlug s → s ≢ []
unfolding split
IsSlug-ne-nil w e = ground (arith, split-segments w)

-- A slug is accepted exactly if it is two or more non-empty segments of lower-case letters,
-- digits and underscores, joined by dots.
pub validate_iff : (s : Text) → (validate s ≡ none) ↔ IsSlug s
unfolding validate
validate_iff s = (
  λ h. record {
    segments = split s b'.';
    joined = join-split s b'.';
    enough = ground arith;
    fine = (check_segments_iff (split s b'.')).0 (ground arith);
  },
  λ w. ground (
    arith,
    IsSlug-ne-nil w,
    list_beq_iff s [],
    split-segments w,
    w.enough,
    (check_segments_iff (split s b'.')).1 (rw (split-segments w) w.fine),
  ),
)
