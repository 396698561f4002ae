-- ===== src/Response/Written.antt =====
-- What is written behind the cookies of a reply, or the refusal in its place.
use golang_postgres_starter.Base.{
  ℕ, Text, codes, Bool, true, false, ◌==◌, nat_eq, text_eq, list_beq_iff, List, [], ◌∷◌, ◌++◌, map,
  trim_space, trim, trim_left, Option, none, some, ◌≡◌, ◌≢◌, refl, ◌⊎◌, inl, inr, Bool-cases,
  Option-cases,
}
use golang_postgres_starter.Problem.{ProblemDetails, new, problem_definition}
use golang_postgres_starter.Problem.Errors.{as_problem, as_challenge}
use golang_postgres_starter.Problem.Dispatch.{
  RequestLine, Response, code_of, dispatch_adapter_error, choose,
}
use golang_postgres_starter.Problem.Classify.{
  internal_error, error_to_problem_details, classify_problem, seal, valid_problem_details, is_blank,
}
use golang_postgres_starter.Problem.Dispatch.Plain.{code_of-write}
use golang_postgres_starter.Success.{
  ResponseMode, mode_unset, mode_enveloped, mode_page, mode_message, mode_redirect,
}
use golang_postgres_starter.Response.{
  Cookie, ReplyKind, reply_unset, reply_data, reply_paged, reply_message, reply_redirect, Reply,
  WritePlan, accepts,
}
use golang_postgres_starter.Response.Effects.{
  Envelope, Effect, add_cookie, set_location, set_content_type, write_header, write_body,
  write_problem, refusal, writer_refusal, is_valid_payload, commit_bytes, commit_mode,
}

-- One problem with status 500, and nothing else.
abbrev pub IsRefusal : List Effect → Type 0
IsRefusal trace =
    (response : Response) × (trace ≡ write_problem response ∷ []) × (code_of response ≡ 500)

module _ {T : Type 0} (marshal : Envelope T → Option Text) where
  -- The envelope as JSON, behind its content type and the status.
  abbrev pub IsJson : Envelope T → ℕ → List Effect → Type 0
  IsJson envelope status tail =
      (bytes : Text) × (marshal envelope ≡ some bytes)
      × (tail
          ≡ set_content_type (codes "application/json")
            ∷ write_header status
            ∷ write_body bytes
            ∷ [])

  -- What is written behind the cookies, by the mode of the plan.
  abbrev pub IsTail : ResponseMode → WritePlan T → Reply T → List Effect → Type 0
  IsTail mode_unset p reply tail = ⊥
  IsTail mode_redirect p reply tail =
      (trim_space reply.location ≢ [])
      × (tail ≡ set_location reply.location ∷ write_header p.status ∷ [])
  IsTail mode_message p reply tail =
      ((p.bodiless ≡ true) × (tail ≡ write_header p.status ∷ []))
      ⊎ ((p.bodiless ≡ false)
          × IsJson (record { message = reply.message; meta = none; payload = none }) p.status tail)
  IsTail mode_page p reply tail =
      (is_valid_payload p.validate_payload reply.body ≡ true)
      × IsJson (record { message = reply.message; meta = reply.meta; payload = reply.body })
          p.status tail
  IsTail mode_enveloped p reply tail =
      (is_valid_payload p.validate_payload reply.body ≡ true)
      × IsJson (record { message = reply.message; meta = none; payload = reply.body }) p.status tail

module _ (encodes : ProblemDetails → Bool) where
  writer_refusal-IsRefusal : IsRefusal (writer_refusal encodes)
  unfolding writer_refusal new problem_definition
  writer_refusal-IsRefusal = (_, refl, code_of-write encodes _ refl)

  pub refusal-IsRefusal : (line : RequestLine) → IsRefusal (refusal encodes line)
  unfolding refusal dispatch_adapter_error as_challenge error_to_problem_details as_problem
      classify_problem seal choose new problem_definition valid_problem_details is_blank trim_space
      trim trim_left
  refusal-IsRefusal line = (
    _,
    refl,
    code_of-write encodes (record internal_error { instance_of = line.method ++ 0x20 ∷ line.path })
        refl,
  )

accepts-unset : (k : ReplyKind) → accepts mode_unset k ≢ true
unfolding accepts
accepts-unset reply_unset h = cc
accepts-unset reply_data h = cc
accepts-unset reply_paged h = cc
accepts-unset reply_message h = cc
accepts-unset reply_redirect h = cc

module _ {T : Type 0} (encodes : ProblemDetails → Bool) (marshal : Envelope T → Option Text)
    (p : WritePlan T) (line : RequestLine) (reply : Reply T) where
  -- An envelope is written, or the answer is a refusal.
  commit_bytes-cases :
      (envelope : Envelope T) (cookies : List Cookie) (valid : Bool)
      → ((tail : List Effect) × (valid ≡ true)
          × IsJson marshal envelope p.status tail
          × (commit_bytes encodes (marshal envelope) p.status cookies valid
              ≡ map add_cookie cookies ++ tail))
        ⊎ (((tail : List Effect) → valid ≡ true → ¬ IsJson marshal envelope p.status tail)
            × IsRefusal (commit_bytes encodes (marshal envelope) p.status cookies valid))
  unfolding commit_bytes
  commit_bytes-cases envelope cookies true = elim (Option-cases (marshal envelope)) [
    | inl unmarshaled ↦
        inr ((λ tail _ (bytes, e, _). cc), rw unmarshaled (writer_refusal-IsRefusal encodes))
    | inr (bytes, e) ↦ inl (_, refl, (bytes, e, refl), rw e refl)
  ]
  commit_bytes-cases envelope cookies false = elim (Option-cases (marshal envelope)) [
    | inl unmarshaled ↦ inr ((λ tail h _. cc), rw unmarshaled (writer_refusal-IsRefusal encodes))
    | inr (bytes, e) ↦ inr ((λ tail h _. cc), rw e (writer_refusal-IsRefusal encodes))
  ]

  -- The cookies and the rest, or a refusal.
  abbrev pub IsWritten : ResponseMode → List Cookie → List Effect → Type 0
  IsWritten mode cookies trace =
      ((tail : List Effect) × IsTail marshal mode p reply tail
        × (trace ≡ map add_cookie cookies ++ tail))
      ⊎ (((tail : List Effect) → ¬ IsTail marshal mode p reply tail) × IsRefusal trace)

  pub commit_mode-IsWritten :
      (mode : ResponseMode) (cookies : List Cookie)
      → accepts mode reply.kind ≡ true
      → IsWritten mode cookies (commit_mode encodes marshal mode p line reply cookies)
  unfolding commit_mode
  commit_mode-IsWritten mode_unset cookies h = absurd (accepts-unset reply.kind h)
  commit_mode-IsWritten mode_redirect cookies h =
      elim (Bool-cases (trim_space reply.location == [])) [
        | inl blank ↦ inr (
          (λ tail (named, _). named ((list_beq_iff (trim_space reply.location) []).0 blank)),
          rw blank (refusal-IsRefusal encodes line),
        )
        | inr named ↦ inl (
          _,
          ((λ e. cc (named, (list_beq_iff (trim_space reply.location) []).1 e)), refl),
          rw named refl,
        )
      ]
  commit_mode-IsWritten mode_message cookies h = elim (Bool-cases p.bodiless) [
    | inl bodiless ↦ inl (_, inl (bodiless, refl), rw bodiless refl)
    | inr full ↦
        rw full
          (elim (commit_bytes-cases
            (record { message = reply.message; meta = none; payload = none }) cookies true) [
              | inl (tail, valid, json, same) ↦ inl (tail, inr (refl, json), same)
              | inr (never, refused) ↦ inr (
                (λ tail d. elim d [ inl (e, _) ↦ cc | inr (_, json) ↦ never tail refl json ]),
                refused,
              )
            ])
  ]
  commit_mode-IsWritten mode_page cookies h =
      elim (commit_bytes-cases
        (record { message = reply.message; meta = reply.meta; payload = reply.body }) cookies
        (is_valid_payload p.validate_payload reply.body)) [
          | inl (tail, valid, json, same) ↦ inl (tail, (valid, json), same)
          | inr (never, refused) ↦ inr ((λ tail (valid, json). never tail valid json), refused)
        ]
  commit_mode-IsWritten mode_enveloped cookies h =
      elim (commit_bytes-cases
        (record { message = reply.message; meta = none; payload = reply.body }) cookies
        (is_valid_payload p.validate_payload reply.body)) [
          | inl (tail, valid, json, same) ↦ inl (tail, (valid, json), same)
          | inr (never, refused) ↦ inr ((λ tail (valid, json). never tail valid json), refused)
        ]
