-- ===== src/Binding/Body/Verdict.antt =====
-- What binding a body comes to.
use golang_postgres_starter.Base.{
  is_empty, true≢false, ℕ, Text, true, false, not, ◌&&◌, ◌==◌, nat_eq, text_eq, List, [], Option,
  none, some, ◌≡◌, ◌≢◌, refl, sym, ◌∙◌, ap, inl, inr, subst, Bool-cases, Option-cases, if-both,
  if-cases,
}
use golang_postgres_starter.Problem.Errors.{GoError, Result, ok, failed}
use golang_postgres_starter.Binding.Body.{
  Decoding, decoded, undecodable, BodyPlan, BodyValue, RawJson, absent, json, raw_json,
  decode_outcome, decode_json_body, bind_raw_body, capture_outcome, sized, as_json, bind_present,
  bind_body, wire_of,
}
use golang_postgres_starter.Binding.Wire.{
  Carrier, Stream, End, finished, over_limit, broken, body_present, check_json_media_type,
  leading_byte, max_body_bytes, raw_json_body_limit, limited,
}
use golang_postgres_starter.Binding.Body.Refusals.{
  IsUnreadable, IsWhole, bad_problem, has_bytes, json_problem-IsUnreadable, limited-finished,
  too_large_problem,
}

-- A body that is present declares itself as JSON.
abbrev pub IsTyped : Carrier → Type 0
IsTyped r = body_present r ≡ true → check_json_media_type r.content_type ≡ none

module _ {B : Type 0} (unmarshal : Stream → Decoding B) (plan : BodyPlan) (r : Carrier) where
  -- The outcomes of binding a body.
  pub data BodyOutcome : Result (BodyValue B) → Type 0 where
    left_out :
        body_present r ≡ false → plan.required ≡ false → plan.raw ≡ false → BodyOutcome (ok absent)
    read_json :
        (b : B)
        → body_present r ≡ true
        → IsTyped r
        → plan.raw ≡ false
        → IsWhole max_body_bytes (wire_of r.body)
        → unmarshal (record { bytes = (wire_of r.body).bytes; end = finished }) ≡ decoded b
        → (leading_byte (wire_of r.body).bytes ≢ b'n')
        → BodyOutcome (ok (json b))
    captured_raw :
        (rj : RawJson B)
        → IsTyped r
        → plan.raw ≡ true
        → IsWhole raw_json_body_limit (wire_of r.body)
        → rj.raw ≡ (wire_of r.body).bytes
        → (plan.required ≡ true → rj.raw ≢ [])
        → BodyOutcome (ok (raw_json rj))
    mistyped :
        (err : GoError)
        → body_present r ≡ true
        → check_json_media_type r.content_type ≡ some err
        → BodyOutcome (failed err)
    refused : (err : GoError) → IsTyped r → IsUnreadable err → BodyOutcome (failed err)

module _ {B : Type 0} (quote : Text → Text) (unmarshal : Stream → Decoding B)
    (unmarshal_raw : List ℕ → B × Option GoError)
    (reads_to_end : (s : Stream) (b : B) → unmarshal s ≡ decoded b → s.end ≡ finished)
    (plan : BodyPlan) (r : Carrier) where
  whole-outcome :
      (b : B)
      → IsTyped r
      → body_present r ≡ true
      → plan.raw ≡ false
      → IsWhole max_body_bytes (wire_of r.body)
      → unmarshal (record { bytes = (wire_of r.body).bytes; end = finished }) ≡ decoded b
      → BodyOutcome unmarshal plan r
          (as_json (decode_outcome quote (wire_of r.body).bytes (decoded b)))
  unfolding decode_outcome
  whole-outcome b well present raw whole made =
      elim (Bool-cases (leading_byte (wire_of r.body).bytes == b'n')) [
        | inl null ↦ rw null (refused _ well (bad_problem _))
        | inr other ↦
            rw other (read_json b present well raw whole made (λ e. true≢false (rw e at other)))
      ]

  decode-outcome :
      IsTyped r
      → body_present r ≡ true
      → plan.raw ≡ false
      → BodyOutcome unmarshal plan r (as_json (decode_json_body quote unmarshal (wire_of r.body)))
  unfolding decode_json_body
  decode-outcome well present raw = through (limited max_body_bytes (wire_of r.body)) _ refl refl
    where
      through :
          (s : Stream) (d : Decoding B)
          → limited max_body_bytes (wire_of r.body) ≡ s
          → unmarshal s ≡ d
          → BodyOutcome unmarshal plan r (as_json (decode_outcome quote s.bytes d))
      through s (undecodable e) read made = refused _ well (json_problem-IsUnreadable quote e)
      through s (decoded b) read made =
          let (whole, same) =
            limited-finished max_body_bytes (wire_of r.body)
              (ap (λ (t : Stream). t.end) read ∙ reads_to_end s b made) in
          subst
            (λ (t : Stream).
              BodyOutcome unmarshal plan r (as_json (decode_outcome quote t.bytes (decoded b))))
            (sym same ∙ read)
            (whole-outcome b well present raw whole (ap unmarshal (sym same ∙ read) ∙ made))

  capture-outcome :
      IsTyped r
      → plan.raw ≡ true
      → BodyOutcome unmarshal plan r
          (sized plan.required (bind_raw_body unmarshal_raw plan.reject_raw_null r.body))
  unfolding bind_raw_body sized
  capture-outcome well raw = through (limited raw_json_body_limit (wire_of r.body)) _ refl refl
    where
      through :
          (s : Stream) (end : End)
          → limited raw_json_body_limit (wire_of r.body) ≡ s
          → s.end ≡ end
          → BodyOutcome unmarshal plan r
              (sized plan.required (capture_outcome unmarshal_raw plan.reject_raw_null s.bytes end))
      through s over_limit read made = refused _ well (too_large_problem _)
      through s broken read made = refused _ well (bad_problem _)
      through s finished read made =
          let (whole, same) =
            limited-finished raw_json_body_limit (wire_of r.body)
              (ap (λ (t : Stream). t.end) read ∙ made) in
          subst
            (λ (t : Stream). BodyOutcome unmarshal plan r (
              sized plan.required
                (capture_outcome unmarshal_raw plan.reject_raw_null t.bytes finished)))
            (sym same ∙ read)
            (if-cases (BodyOutcome unmarshal plan r)
              (plan.required && is_empty (wire_of r.body).bytes) _ _
              (λ lacking. refused _ well (bad_problem _))
              (λ enough.
                captured_raw _ well raw whole refl
                  (has_bytes plan.required (wire_of r.body).bytes enough)))

  present-outcome :
      IsTyped r
      → BodyOutcome unmarshal plan r
          (bind_present quote unmarshal unmarshal_raw plan r.body (body_present r))
  unfolding bind_present
  present-outcome well =
      if-cases outcome plan.raw _ _
        (λ raw.
          if-both outcome (not (body_present r) && plan.required) _ _
            (refused _ well (bad_problem _)) (capture-outcome well raw))
        (λ json.
          if-cases outcome (body_present r) _ _ (λ present. decode-outcome well present json)
            (λ lacking.
              if-cases outcome plan.required _ _ (λ needed. refused _ well (bad_problem _))
                (λ optional. left_out lacking optional json)))
    where
      outcome : Result (BodyValue B) → Type 0
      outcome = BodyOutcome unmarshal plan r

  -- Binding a body has one of these outcomes, where the JSON decoder reads to the end of what it
  -- decodes. A body that may be absent is left out; or what the decoder makes of all its bytes, at
  -- most 2^20 of them, that do not lead with an n; or of a RawJSON the bytes as they came, at most
  -- 2^20, and some where the body is required; in each case a body that is present is declared as
  -- JSON. Or the media type is refused; or it is right, and the error is a bad request or a payload
  -- that is too large.
  pub bind_body-BodyOutcome :
      BodyOutcome unmarshal plan r (bind_body quote unmarshal unmarshal_raw plan r)
  unfolding bind_body
  bind_body-BodyOutcome =
      if-cases (BodyOutcome unmarshal plan r) (body_present r) _ _
        (λ present. elim (Option-cases (check_json_media_type r.content_type)) [
          | inl well ↦ rw well (present-outcome (λ p. well))
          | inr (err, wrong) ↦ rw wrong (mistyped err present wrong)
        ])
        (λ lacking. present-outcome (λ present. absurd (true≢false (sym present ∙ lacking))))
