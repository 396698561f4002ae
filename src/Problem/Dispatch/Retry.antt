-- ===== src/Problem/Dispatch/Retry.antt =====
-- The Retry-After header, the separation of the adapter's and the handler's errors, and wrapping.
use golang_postgres_starter.Base.{
  ℕ, ◌+◌, ◌*◌, ◌≤◌, ◌<◌, Text, trim_space, trim, trim_left, codes, lt→ltb, Bool, true, false,
  nat_eq, text_eq, [], ◌∷◌, ◌++◌, Option, none, some, ◌≡◌, refl, ap, sym, subst, arith, lookup,
  List, contains, zero, suc, ◌⊎◌, inl, inr, Bool-cases,
}
use golang_postgres_starter.Problem.{
  ceil_seconds, problem_definition, too_many_requests, ProblemDetails, details, define, new,
  new_too_many_requests, second, retry_after_extension, Extension, number,
}
use golang_postgres_starter.Problem.Errors.{
  GoError, problem, wrap, as_problem, as_challenge, as_validation, as_pg_error, is_error,
}
use golang_postgres_starter.Problem.Dispatch.{
  Body, ProblemPlan, RequestLine, reported, encoded, write_valid, write_problem_details, write_for,
  choose, answer, dispatch_resolved_error, dispatch_adapter_error, dispatch_error, code_of, permits,
  retry_after_header,
}
use golang_postgres_starter.Problem.Dispatch.Plain.{code_of-write}
use golang_postgres_starter.Problem.Classify.{
  valid_problem_details, is_blank, classify_database_error, seal, classify_untyped, classify_as,
  classify_rest, classify_problem, internal_error, error_to_problem_details,
}

pub ceil_seconds_bounds :
    (d : ℕ) → (d ≤ ceil_seconds d * second) × (ceil_seconds d * second < d + second)
unfolding ceil_seconds
ceil_seconds_bounds d = ground arith

ceil_seconds_pos : (d : ℕ) → 0 < d → 0 < ceil_seconds d
ceil_seconds_pos d h = omega (arith, ceil_seconds_bounds d)

abbrev wait_extension : Option ℕ → List (Text × Extension)
wait_extension none = []
wait_extension (some n) = (retry_after_extension, number n) ∷ []

-- The problem of a limit that ends in so many seconds, or at once.
abbrev limited : Text → Option ℕ → ProblemDetails
limited message wait =
    record (details (define (codes "too-many-requests") 429 (codes "Too Many Requests")) message
      too_many_requests) { extensions = wait_extension wait }

-- The header for a wait: none for none, and otherwise whole seconds, as few as cover it.
abbrev pub IsHeader : ℕ → Option ℕ → Type 0
IsHeader wait none = wait ≡ 0
IsHeader wait (some seconds) =
    (0 < wait) × (wait ≤ seconds * second) × (seconds * second < wait + second)

abbrev IsPositive : Option ℕ → Type 0
IsPositive none = Unit
IsPositive (some n) = 0 < n

-- Every wait has its header, and its problem.
told :
    (message : Text) (wait : ℕ)
    → (o : Option ℕ) × IsHeader wait o
      × IsPositive o
      × (new_too_many_requests message wait ≡ limited message o)
unfolding new_too_many_requests new problem_definition
told message zero = (none, refl, tt, refl)
told message (suc d) = (
  some (ceil_seconds (suc d)),
  (omega arith, (ceil_seconds_bounds (suc d)).0, (ceil_seconds_bounds (suc d)).1),
  ceil_seconds_pos (suc d) (omega arith),
  rw (lt→ltb 0 (suc d) (omega arith)) refl,
)

limited-valid :
    (message line : Text) (o : Option ℕ)
    → valid_problem_details (record (limited message o) { instance_of = line }) ≡ true
unfolding valid_problem_details is_blank trim_space trim trim_left
limited-valid message line none = refl
limited-valid message line (some n) = refl

seal-limited : (message : Text) (o : Option ℕ) → seal (limited message o) ≡ limited message o
unfolding seal problem_definition
seal-limited message none = refl
seal-limited message (some n) = refl

classify-limited :
    (message : Text) (o : Option ℕ) (fields : Bool)
    → error_to_problem_details (problem (limited message o)) fields
      ≡ record { details = limited message o; typed = true; kind = too_many_requests }
unfolding error_to_problem_details as_problem classify_problem
classify-limited message o fields = rw (seal-limited message o, limited-valid message [] o)

retry_after_header-limited :
    (message line : Text) (o : Option ℕ)
    → IsPositive o
    → retry_after_header (record (limited message o) { instance_of = line }) ≡ o
unfolding retry_after_header lookup
retry_after_header-limited message line none h = refl
retry_after_header-limited message line (some n) h = rw (lt→ltb 0 n h)

write_for-limited :
    (encodes : ProblemDetails → Bool) (r : Option RequestLine) (message : Text) (o : Option ℕ)
    → ((q : ProblemDetails) → encodes q ≡ true)
    → IsPositive o
    → (body : Body) × (write_for encodes r (limited message o) ≡ reported 429 o body)
unfolding write_for write_problem_details write_valid
write_for-limited encodes none message o total h = (
  encoded (limited message o),
  rw (
    limited-valid message [] o,
    total (limited message o),
    retry_after_header-limited message [] o h,
  ),
)
write_for-limited encodes (some line) message o total h =
    let at = line.method ++ 0x20 ∷ line.path in
    let shown : ProblemDetails = record (limited message o) { instance_of = at } in
    (
      encoded shown,
      rw (limited-valid message at o, total shown, retry_after_header-limited message at o h),
    )

write_for-internal :
    (encodes : ProblemDetails → Bool) (r : Option RequestLine)
    → code_of (write_for encodes r internal_error) ≡ 500
unfolding write_for
write_for-internal encodes none = code_of-write encodes internal_error refl
write_for-internal encodes (some line) =
    code_of-write encodes (record internal_error { instance_of = line.method ++ 0x20 ∷ line.path })
      refl

classify-wrap :
    (message : Text) (err : GoError) (fields : Bool)
    → error_to_problem_details (wrap message err) fields ≡ error_to_problem_details err fields
unfolding error_to_problem_details as_problem
classify-wrap message err fields = by_found (as_problem err)
  where
    rest : (fields : Bool) → classify_rest (wrap message err) fields ≡ classify_rest err fields
    rest true =
        unfold as_validation classify_untyped classify_database_error is_error as_pg_error in refl
    rest false = unfold classify_untyped classify_database_error is_error as_pg_error in refl

    by_found :
        (found : Option (Option ProblemDetails))
        → classify_as found (wrap message err) fields ≡ classify_as found err fields
    by_found (some (some p)) = refl
    by_found (some none) = rest fields
    by_found none = rest fields

-- fmt.Errorf with %w is transparent: a wrapped error gets the response of the error itself, under
-- every plan, from a handler, a guard and the adapter alike.
pub dispatch-wrap :
    (encodes : ProblemDetails → Bool) (r : Option RequestLine) (message : Text) (err : GoError)
    (plan : Option ProblemPlan) (typed fields : Bool)
    → dispatch_resolved_error encodes r (wrap message err) plan typed fields
      ≡ dispatch_resolved_error encodes r err plan typed fields
unfolding dispatch_resolved_error as_challenge
dispatch-wrap encodes r message err plan typed fields = by_challenge (as_challenge err)
  where
    by_challenge :
        (found : Option Text)
        → answer encodes found r (wrap message err) plan typed fields
          ≡ answer encodes found r err plan typed fields
    by_challenge none =
        ap (λ c. write_for encodes r (choose plan typed c)) (classify-wrap message err fields)
    by_challenge (some c) = refl

-- What the response to the problem is: 429 with the header from the adapter, and from a handler or a
-- guard whose plan allows the kind; 500 where the plan does not.
abbrev pub IsLimitReply :
    (ProblemDetails → Bool)
    → Option RequestLine
    → ProblemPlan
    → ProblemDetails
    → Option ℕ
    → Body
    → Type 0
IsLimitReply encodes r plan p header body =
    (dispatch_adapter_error encodes r (problem p) ≡ reported 429 header body)
    × (((contains plan.allowed too_many_requests ≡ true)
          × (dispatch_error encodes r (problem p) plan ≡ reported 429 header body))
        ⊎ ((contains plan.allowed too_many_requests ≡ false)
            × (code_of (dispatch_error encodes r (problem p) plan) ≡ 500)))

limit-reply :
    (encodes : ProblemDetails → Bool) (r : Option RequestLine) (plan : ProblemPlan) (message : Text)
    (o : Option ℕ) (body : Body)
    → write_for encodes r (limited message o) ≡ reported 429 o body
    → IsLimitReply encodes r plan (limited message o) o body
unfolding dispatch_adapter_error dispatch_error as_challenge choose permits
limit-reply encodes r plan message o body written = (
  rw (classify-limited message o true) written,
  elim (Bool-cases (contains plan.allowed too_many_requests)) [
    | inl declared ↦ inl (declared, rw (classify-limited message o false, declared) written)
    | inr undeclared ↦ inr (
      undeclared,
      rw (classify-limited message o false, undeclared) (write_for-internal encodes r),
    )
  ],
)

-- Where JSON encoding succeeds, a rate limit's error reaches the client as 429 if it is the adapter's
-- own, or that of a handler or a guard whose plan allows the kind, and as 500 if the plan does not.
-- The 429 has no Retry-After where there is nothing to wait for, and otherwise one of whole seconds
-- that is at least the wait and less than a second above it.
pub dispatch-new_too_many_requests :
    (encodes : ProblemDetails → Bool) (r : Option RequestLine) (plan : ProblemPlan) (message : Text)
    (wait : ℕ)
    → ((q : ProblemDetails) → encodes q ≡ true)
    → (header : Option ℕ) × (body : Body) × IsHeader wait header
      × IsLimitReply encodes r plan (new_too_many_requests message wait) header body
dispatch-new_too_many_requests encodes r plan message wait total =
    let (o, is, positive, same) = told message wait in
    let (body, written) = write_for-limited encodes r message o total positive in
    (
      o,
      body,
      is,
      subst (λ p. IsLimitReply encodes r plan p o body) (sym same)
          (limit-reply encodes r plan message o body written),
    )
