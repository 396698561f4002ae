-- ===== src/Success.antt =====
-- internal/httpx/declaration.go, validateSuccessMode: whether the mode, the status and the response
-- type of a typed operation fit together.
pub mod Coherent
mod Tests
use golang_postgres_starter.Base.{
  unless, ℕ, Text, Bool, true, false, not, ◌||◌, if◌then◌else◌, ltb, ◌==◌, nat_eq, List, [], ◌∷◌,
  ◌++◌,
}

-- The kinds of reflect.Type that are told apart: the empty response httpx.NoBody, the types with an
-- element, interfaces, structs with and without a name, and the others.
pub data GoType : Type 0 where
  no_body : GoType
  pointer slice array : GoType → GoType
  interface : GoType
  named_struct : Text → GoType
  anonymous_struct : GoType
  other : Text → GoType

pub data ResponseMode : Type 0 where
  mode_unset mode_enveloped mode_page mode_message mode_redirect : ResponseMode

pub record SuccessMode : Type 0 where
  pub mode : ResponseMode
  pub status : ℕ

pub data SuccessError : Type 0 where
  mode_required not_a_redirect payload_with_redirect : SuccessError
  not_a_success payload_with_message not_a_list : SuccessError
  interface_payload anonymous_payload body_forbidden : SuccessError

unfoldable pub is_redirect_status : ℕ → Bool
is_redirect_status s = s == 300 || s == 301 || s == 302 || s == 303 || s == 307 || s == 308

-- `rawStatusForbidsBody`
unfoldable pub status_forbids_body : ℕ → Bool
status_forbids_body s = s == 204 || s == 205 || s == 304

abbrev pub is_no_body : GoType → Bool
is_no_body no_body = true
is_no_body _ = false

abbrev pub is_slice : GoType → Bool
is_slice (slice t) = true
is_slice _ = false

-- `validatePayloadType`
unfoldable pub validate_payload_type : GoType → List SuccessError
validate_payload_type (pointer t) = validate_payload_type t
validate_payload_type (slice t) = validate_payload_type t
validate_payload_type (array t) = validate_payload_type t
validate_payload_type interface = interface_payload ∷ []
validate_payload_type anonymous_struct = anonymous_payload ∷ []
validate_payload_type no_body = []
validate_payload_type (named_struct name) = []
validate_payload_type (other name) = []

abbrev pub is_2xx : ℕ → Bool
is_2xx s = not (ltb s 200 || ltb 299 s)

-- The switch over the mode.
unfoldable pub check_mode_status : ResponseMode → ℕ → GoType → List SuccessError
unfolding validate_payload_type
check_mode_status mode_unset s t = mode_required ∷ []
check_mode_status mode_redirect s t =
    unless (is_redirect_status s) not_a_redirect ++ unless (is_no_body t) payload_with_redirect
check_mode_status mode_message s t =
    unless (is_2xx s) not_a_success ++ unless (is_no_body t) payload_with_message
check_mode_status mode_page s t =
    unless (is_2xx s) not_a_success
    ++ (if is_slice t then validate_payload_type t else not_a_list ∷ [])
check_mode_status mode_enveloped s t = unless (is_2xx s) not_a_success ++ validate_payload_type t

-- Nothing more is said where the mode is unset.
unfoldable pub check_body : ResponseMode → ℕ → List SuccessError
check_body mode_unset s = []
check_body mode_enveloped s = unless (not (status_forbids_body s)) body_forbidden
check_body mode_page s = unless (not (status_forbids_body s)) body_forbidden
check_body mode_redirect s = unless (not (status_forbids_body s)) body_forbidden
check_body mode_message s = []

unfoldable pub validate_success_mode : SuccessMode → GoType → List SuccessError
unfolding check_mode_status check_body
validate_success_mode m t = check_mode_status m.mode m.status t ++ check_body m.mode m.status
