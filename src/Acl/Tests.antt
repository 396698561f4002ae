-- ===== src/Acl/Tests.antt =====
-- Runs of `Slug.Validate`, and the theorem about it at a slug.
use golang_postgres_starter.Base.{codes, split, ◌≡◌, refl, ◌↔◌, none, some, []}
use golang_postgres_starter.Acl.{
  empty_slug, too_few_segments, empty_segment, invalid_character, validate,
}
use golang_postgres_starter.Acl.WellFormed.{IsSlug, validate_iff}

validate_tests :
    (validate (codes "user.read") ≡ none)
    × (validate [] ≡ some empty_slug)
    × (validate (codes "admin") ≡ some too_few_segments)
    × (validate (codes "user..read") ≡ some empty_segment)
    × (validate (codes "user.Read") ≡ some (invalid_character b'R'))
unfolding validate split
validate_tests = (refl, refl, refl, refl, refl)

validate_iff_example : (validate (codes "user.read") ≡ none) ↔ IsSlug (codes "user.read")
validate_iff_example = validate_iff (codes "user.read")
