-- ===== src/Binding/Body.antt =====
-- internal/httpx/request.go and raw.go: the policy on bodies and what is made of their bytes.
pub mod Refusals
pub mod Chunks
pub mod Verdict
use golang_postgres_starter.Base.{
  is_empty, ℕ, Text, codes, Bool, false, ◌&&◌, ◌||◌, not, if◌then◌else◌, ◌==◌, nat_eq, text_eq,
  List, [], ◌∷◌, ◌++◌, Option, none, some, trim_space, trim_prefix, has_prefix,
}
use golang_postgres_starter.Strconv.{ℤ, format_nat, format_int}
use golang_postgres_starter.Problem.{bad_request, payload_too_large}
use golang_postgres_starter.Problem.Errors.{GoError, plain, Result, ok, failed}
use golang_postgres_starter.Binding.Wire.{
  Carrier, End, Stream, Wire, body_present, broken, check_json_media_type, finished, leading_byte,
  limited, max_body_bytes, over_limit, raw_json_body_limit, refuse,
}

-- What errors.As, errors.Is and the text tell of an error of the JSON decoder.
pub record JsonError : Type 0 where
  pub is_too_large : Bool
  pub syntactic : Option ℤ
  pub is_unexpected_eof : Bool
  pub is_unknown_name : Bool
  pub semantic : Option Text
  pub is_eof : Bool
  pub message : Text

pub data Decoding (B : Type 0) : Type 0 where
  decoded : B → Decoding B
  undecodable : JsonError → Decoding B

-- strings.Contains
unfoldable pub contains_text : Text → Text → Bool
contains_text [] sub = has_prefix [] sub
contains_text (c ∷ cs) sub = has_prefix (c ∷ cs) sub || contains_text cs sub

module _ (quote : Text → Text) where
  unfoldable pub unknown_member : Option Text → Text → GoError
  unknown_member (some (c ∷ cs)) message =
      refuse bad_request
        (codes "Invalid request: unknown field " ++ quote (trim_prefix (c ∷ cs) (codes "/")))
  unknown_member _ message = refuse bad_request (
      codes "Invalid request: unknown field " ++ trim_prefix message (codes "json: unknown field "))

  abbrev pub semantic_or : Option Text → GoError → GoError
  semantic_or (some pointer) rest =
      refuse bad_request (codes "Invalid request: incorrect JSON type for field " ++ quote pointer)
  semantic_or none rest = rest

  abbrev pub syntactic_or : Option ℤ → GoError → GoError
  syntactic_or (some offset) rest =
      refuse bad_request
        (codes "Invalid request: malformed JSON at character " ++ format_int offset)
  syntactic_or none rest = rest

  -- The switch of decodeJSONBody.
  unfoldable pub json_problem : JsonError → GoError
  unfolding unknown_member
  json_problem e =
      if e.is_too_large || contains_text e.message (codes "http: request body too large")
      then refuse payload_too_large
          (codes "body must not be larger than " ++ (format_nat max_body_bytes ++ codes " bytes"))
      else syntactic_or e.syntactic (
          if e.is_unexpected_eof
          then refuse bad_request (codes "Invalid request: malformed JSON")
          else (if e.is_unknown_name
              then unknown_member e.semantic e.message
              else semantic_or e.semantic (
                  if e.is_eof
                  then refuse bad_request (codes "Invalid request: body must not be empty")
                  else refuse bad_request (codes "Invalid request: " ++ e.message))))

  unfoldable pub decode_outcome : {B : Type 0} → List ℕ → Decoding B → Result B
  unfolding json_problem
  decode_outcome bytes (undecodable e) = failed (json_problem e)
  decode_outcome bytes (decoded b) =
      if leading_byte bytes == b'n'
      then failed (refuse bad_request (codes "Invalid request: body must not be null"))
      else ok b

module _ {B : Type 0} (quote : Text → Text) (unmarshal : Stream → Decoding B) where
  -- `decodeJSONBody`
  unfoldable pub decode_json_body : Wire → Result B
  unfolding decode_outcome limited
  decode_json_body wire =
      let stream = limited max_body_bytes wire in
      decode_outcome quote stream.bytes (unmarshal stream)

-- `RawJSON`, with the bytes as they came.
pub record RawJson (B : Type 0) : Type 0 where
  pub raw : List ℕ
  pub value : B
  pub err : Option GoError

-- The value of the field of a body.
pub data BodyValue (B : Type 0) : Type 0 where
  absent : BodyValue B
  json : B → BodyValue B
  raw_json : RawJson B → BodyValue B

-- The part of a `bodyPlan` that binding reads.
pub record BodyPlan : Type 0 where
  pub index : ℕ
  pub required : Bool
  pub raw : Bool
  pub reject_raw_null : Bool

abbrev pub body_required : GoError
body_required = refuse bad_request (codes "request body required")

-- The error of a decoding, or that of a null which the payload does not allow.
unfoldable pub raw_error : Bool → List ℕ → Option GoError → Option GoError
raw_error reject_null bytes (some err) = some err
raw_error reject_null bytes none =
    if reject_null && (trim_space bytes == codes "null")
    then some (plain (codes "request body must not be null"))
    else none

abbrev pub wire_of : Option Wire → Wire
wire_of none = record { bytes = []; is_broken = false }
wire_of (some wire) = wire

module _ {B : Type 0} (unmarshal_raw : List ℕ → B × Option GoError) where
  abbrev pub captured : Bool → List ℕ → B × Option GoError → RawJson B
  captured reject_null bytes (value, err) = record {
    raw = bytes;
    value = value;
    err = raw_error reject_null bytes err;
  }

  unfoldable pub capture_outcome : Bool → List ℕ → End → Result (RawJson B)
  unfolding raw_error
  capture_outcome reject_null bytes finished = ok (captured reject_null bytes (unmarshal_raw bytes))
  capture_outcome reject_null bytes over_limit =
      failed (refuse payload_too_large (codes "request body is too large"))
  capture_outcome reject_null bytes broken =
      failed (refuse bad_request (codes "failed to read request body"))

  -- `bindRawBody`
  unfoldable pub bind_raw_body : Bool → Option Wire → Result (RawJson B)
  unfolding capture_outcome limited
  bind_raw_body reject_null body =
      let stream = limited raw_json_body_limit (wire_of body) in
      capture_outcome reject_null stream.bytes stream.end

-- A required body has bytes.
unfoldable pub sized : {B : Type 0} → Bool → Result (RawJson B) → Result (BodyValue B)
sized required (failed err) = failed err
sized required (ok rj) =
    if required && is_empty rj.raw then failed body_required else ok (raw_json rj)

abbrev pub as_json : {B : Type 0} → Result B → Result (BodyValue B)
as_json (ok b) = ok (json b)
as_json (failed err) = failed err

abbrev pub unless_refused :
    {B : Type 0} → Option GoError → Result (BodyValue B) → Result (BodyValue B)
unless_refused (some err) next = failed err
unless_refused none next = next

module _ {B : Type 0} (quote : Text → Text) (unmarshal : Stream → Decoding B)
    (unmarshal_raw : List ℕ → B × Option GoError) where
  -- What is done behind the check of the media type.
  unfoldable pub bind_present : BodyPlan → Option Wire → Bool → Result (BodyValue B)
  unfolding sized bind_raw_body decode_json_body
  bind_present plan body present =
      if plan.raw
      then (if not present && plan.required
          then failed body_required
          else sized plan.required (bind_raw_body unmarshal_raw plan.reject_raw_null body))
      else (if present
          then as_json (decode_json_body quote unmarshal (wire_of body))
          else (if plan.required then failed body_required else ok absent))

  -- `bindBody`
  unfoldable pub bind_body : BodyPlan → Carrier → Result (BodyValue B)
  unfolding bind_present body_present check_json_media_type
  bind_body plan r =
      let present = body_present r in
      let next = bind_present plan r.body present in
      if present then unless_refused (check_json_media_type r.content_type) next else next
