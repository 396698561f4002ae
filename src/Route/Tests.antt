-- ===== src/Route/Tests.antt =====
-- Runs of the route patterns, and the hypotheses of their theorems at concrete paths.
use golang_postgres_starter.Base.{
  contains, text_eq, codes, Text, true, refl, ◌≡◌, ◌↔◌, arith, List, join, split, has_prefix, Bool,
  nat_eq, ◌≢◌, trim_left, All, inl, inr, has_suffix, trim, trim_prefix, trim_suffix, cut, [], ◌∷◌,
}
use golang_postgres_starter.Route.{
  slash, is_templated, placeholder_name, mount_contains_route_pattern, mount_patterns_overlap,
  normalize_path, path_placeholders, convert_route, generate_operation_id, paths_are_ambiguous,
  routing_segments,
}
use golang_postgres_starter.Route.Placeholders.{
  no_field, no_placeholder, cross_check_placeholders, cross_check_placeholders_iff,
}
use golang_postgres_starter.Route.Mount.{
  IsOpen, IsPlain, IsPlain-IsSegment, Share, Matches, Under, mount_contains_iff,
  mount_patterns_overlap_iff,
}
use golang_postgres_starter.Route.Shape.{Alike, normalize_path_iff}

abbrev user_route : Text
user_route = codes "/api/users/{id:[0-9]+}"

abbrev other_route : Text
other_route = codes "/api/users/{name}"

normalize_user : normalize_path user_route ≡ codes "/api/users/{}"
unfolding normalize_path join split is_templated has_prefix has_suffix trim_suffix
normalize_user = refl

normalize_one_slash : normalize_path (codes "/api//") ≡ codes "/api/"
unfolding normalize_path join split is_templated has_prefix has_suffix trim_suffix
normalize_one_slash = refl

placeholders_user : path_placeholders user_route ≡ codes "id" ∷ []
unfolding path_placeholders cut
placeholders_user = refl

convert_user : convert_route user_route ≡ codes "/api/users/{id}"
unfolding convert_route join split is_templated has_prefix has_suffix trim_suffix trim cut
convert_user = refl

operation_id_user : generate_operation_id (codes "GET") user_route ≡ codes "getApiUsersById"
unfolding generate_operation_id placeholder_name join split is_templated has_prefix has_suffix
    trim_prefix trim_suffix trim cut
operation_id_user = refl

ambiguous_user : paths_are_ambiguous (codes "/users/{id}/") (codes "/users/{name}") ≡ true
unfolding paths_are_ambiguous routing_segments split is_templated has_prefix has_suffix trim
ambiguous_user = refl

-- A router that takes any segment for any placeholder.
abbrev lenient : Text → Text → Bool
lenient p s = true

lenient_opens : (p s : Text) → IsOpen p → s ≢ [] → lenient p s ≡ true
lenient_opens p s h named = refl

api_IsPlain : All IsPlain (routing_segments (codes "/api"))
unfolding routing_segments trim trim_left split
api_IsPlain = (inr ((refl, refl), λ e. cc), tt)

any_IsPlain : All IsPlain (routing_segments (codes "/{any}"))
unfolding routing_segments trim trim_left split is_templated has_prefix has_suffix
any_IsPlain = (inl (refl, (codes "any", refl, omega arith, omega arith, omega arith)), tt)

mount_contains_iff_example :
    (mount_contains_route_pattern (codes "/api") (codes "/{any}") ≡ true) ↔ (
      (path : List Text) × Matches lenient (routing_segments (codes "/{any}")) path
      × Under lenient (routing_segments (codes "/api")) path)
mount_contains_iff_example =
    mount_contains_iff lenient lenient_opens (codes "/api") (codes "/{any}") api_IsPlain any_IsPlain

mount_patterns_overlap_iff_example :
    (Share lenient lenient_opens (codes "/{any}") (codes "/api")
      → mount_patterns_overlap (codes "/{any}") (codes "/api") ≡ true)
    × (All IsPlain (routing_segments (codes "/{any}"))
        → All IsPlain (routing_segments (codes "/api"))
        → mount_patterns_overlap (codes "/{any}") (codes "/api") ≡ true
        → Share lenient lenient_opens (codes "/{any}") (codes "/api"))
mount_patterns_overlap_iff_example =
    mount_patterns_overlap_iff lenient lenient_opens (codes "/{any}") (codes "/api")
      (IsPlain-IsSegment (routing_segments (codes "/{any}")) any_IsPlain)
      (IsPlain-IsSegment (routing_segments (codes "/api")) api_IsPlain)

normalize_path_iff_example :
    (normalize_path user_route ≡ normalize_path other_route)
    ↔ Alike (split user_route slash) (split other_route slash)
unfolding has_suffix
normalize_path_iff_example =
    normalize_path_iff user_route other_route ((λ e. ground arith), refl)
      ((λ e. ground arith), refl)

-- A repeated placeholder is reported once.
cross_check_tests :
    (cross_check_placeholders user_route (codes "id" ∷ []) ≡ [])
    × (cross_check_placeholders (codes "/{a}/{a}") (codes "b" ∷ [])
        ≡ no_field (codes "a") ∷ no_placeholder (codes "b") ∷ [])
unfolding cross_check_placeholders path_placeholders cut
cross_check_tests = (refl, refl)

cross_check_placeholders_iff_example :
    (cross_check_placeholders user_route (codes "id" ∷ []) ≡ []) ↔ (
      (name : Text)
      → contains (path_placeholders user_route) name ≡ contains (codes "id" ∷ []) name)
cross_check_placeholders_iff_example = cross_check_placeholders_iff user_route (codes "id" ∷ [])
