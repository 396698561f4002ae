-- ===== src/Success/Tests.antt =====
-- Success modes, and the theorem at one.
use golang_postgres_starter.Base.{codes, [], ◌∷◌, ◌≡◌, refl, ◌↔◌}
use golang_postgres_starter.Success.{
  GoType, no_body, pointer, slice, named_struct, anonymous_struct, mode_page, mode_enveloped,
  mode_message, mode_redirect, body_forbidden, not_a_list, anonymous_payload, not_a_redirect,
  is_redirect_status, status_forbids_body, validate_payload_type, validate_success_mode,
}
use golang_postgres_starter.Success.Coherent.{IsCoherent, validate_success_mode_iff}

abbrev orders : GoType
orders = slice (pointer (named_struct (codes "Order")))

success_tests :
    (validate_success_mode (record { mode = mode_page; status = 200 }) orders ≡ [])
    × (validate_success_mode (record { mode = mode_page; status = 204 }) anonymous_struct
        ≡ not_a_list ∷ body_forbidden ∷ [])
    × (validate_success_mode (record { mode = mode_message; status = 204 }) no_body ≡ [])
    × (validate_success_mode (record { mode = mode_redirect; status = 304 }) no_body
        ≡ not_a_redirect ∷ body_forbidden ∷ [])
    × (validate_success_mode
          (record { mode = mode_enveloped; status = 200 })
          (slice anonymous_struct)
        ≡ anonymous_payload ∷ [])
unfolding validate_success_mode is_redirect_status status_forbids_body validate_payload_type
success_tests = (refl, refl, refl, refl, refl)

validate_success_mode_iff_example :
    (validate_success_mode (record { mode = mode_page; status = 200 }) orders ≡ [])
    ↔ IsCoherent mode_page 200 orders
validate_success_mode_iff_example =
    validate_success_mode_iff (record { mode = mode_page; status = 200 }) orders
