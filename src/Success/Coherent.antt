-- ===== src/Success/Coherent.antt =====
-- Which success modes a typed operation may declare.
use golang_postgres_starter.Base.{ℕ, ◌≤◌, true, nat_eq, [], ◌++◌, ◌≡◌, ◌≢◌, ◌↔◌, ◌⊎◌, arith}
use golang_postgres_starter.Success.{
  GoType, no_body, pointer, slice, array, interface, named_struct, anonymous_struct, other,
  ResponseMode, mode_unset, mode_enveloped, mode_page, mode_message, mode_redirect, SuccessMode,
  is_no_body, is_slice, is_redirect_status, status_forbids_body, validate_payload_type,
  check_mode_status, check_body, validate_success_mode,
}

-- Below its pointers and lists, the payload is no interface and no struct without a name.
abbrev pub HasName : GoType → Type 0
HasName (pointer t) = HasName t
HasName (slice t) = HasName t
HasName (array t) = HasName t
HasName interface = ⊥
HasName anonymous_struct = ⊥
HasName no_body = Unit
HasName (named_struct name) = Unit
HasName (other name) = Unit

abbrev pub IsSlice : GoType → Type 0
IsSlice (slice t) = Unit
IsSlice _ = ⊥

abbrev pub Is2xx : ℕ → Type 0
Is2xx s = (200 ≤ s) × (s ≤ 299)

abbrev pub IsRedirect : ℕ → Type 0
IsRedirect s = (s ≡ 300) ⊎ (s ≡ 301) ⊎ (s ≡ 302) ⊎ (s ≡ 303) ⊎ (s ≡ 307) ⊎ (s ≡ 308)

-- A status that allows a body: not 204 and not 205, the ones of the 2xx that do not.
abbrev pub AllowsBody : ℕ → Type 0
AllowsBody s = (s ≢ 204) × (s ≢ 205)

abbrev pub IsCoherent : ResponseMode → ℕ → GoType → Type 0
IsCoherent mode_unset s t = ⊥
IsCoherent mode_redirect s t = IsRedirect s × (t ≡ no_body)
IsCoherent mode_message s t = Is2xx s × (t ≡ no_body)
IsCoherent mode_page s t = (Is2xx s × AllowsBody s) × (IsSlice t × HasName t)
IsCoherent mode_enveloped s t = (Is2xx s × AllowsBody s) × HasName t

payload_iff : (t : GoType) → (validate_payload_type t ≡ []) ↔ HasName t
unfolding validate_payload_type
payload_iff no_body = ground arith
payload_iff (pointer t) = payload_iff t
payload_iff (slice t) = payload_iff t
payload_iff (array t) = payload_iff t
payload_iff interface = ground arith
payload_iff (named_struct name) = ground arith
payload_iff anonymous_struct = ground arith
payload_iff (other name) = ground arith

no_body_iff : (t : GoType) → (is_no_body t ≡ true) ↔ (t ≡ no_body)
no_body_iff no_body = ground arith
no_body_iff (pointer t) = ground arith
no_body_iff (slice t) = ground arith
no_body_iff (array t) = ground arith
no_body_iff interface = ground arith
no_body_iff (named_struct name) = ground arith
no_body_iff anonymous_struct = ground arith
no_body_iff (other name) = ground arith

slice_iff : (t : GoType) → (is_slice t ≡ true) ↔ IsSlice t
slice_iff no_body = ground arith
slice_iff (pointer t) = ground arith
slice_iff (slice t) = ground arith
slice_iff (array t) = ground arith
slice_iff interface = ground arith
slice_iff (named_struct name) = ground arith
slice_iff anonymous_struct = ground arith
slice_iff (other name) = ground arith

mode_iff :
    (mode : ResponseMode) (s : ℕ) (t : GoType)
    → (check_mode_status mode s t ++ check_body mode s ≡ []) ↔ IsCoherent mode s t
unfolding check_mode_status check_body is_redirect_status status_forbids_body
mode_iff mode_unset s t = ground arith
mode_iff mode_redirect s t = ground (arith, no_body_iff t)
mode_iff mode_message s t = ground (arith, no_body_iff t)
mode_iff mode_page s t = ground (arith, payload_iff t, slice_iff t)
mode_iff mode_enveloped s t = ground (arith, payload_iff t)

-- A success mode is accepted exactly if it is declared, its status is one of the six redirects or
-- of the 2xx as the mode says, a mode with a body has a status that allows one, a page is a list, a
-- message and a redirect have no payload, and a payload has a name for its schema.
pub validate_success_mode_iff :
    (m : SuccessMode) (t : GoType) → (validate_success_mode m t ≡ []) ↔ IsCoherent m.mode m.status t
unfolding validate_success_mode
validate_success_mode_iff m t = mode_iff m.mode m.status t
