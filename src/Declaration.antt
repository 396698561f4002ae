-- ===== src/Declaration.antt =====
-- internal/httpx/declaration.go and the head of internal/httpx/compile.go: the declaration tree,
-- the compiled form of an operation, and the `prepare` step that builds its handler.
use golang_postgres_starter.Base.{
  ℕ, Text, codes, Bool, List, [], ◌∷◌, ◌++◌, map, Option, none, some,
}
use golang_postgres_starter.Credential.{RequirementSet, RequirementError}
use golang_postgres_starter.Problem.{
  ProblemKindId, ProblemKind, ProblemDetails, internal, kind_of, new,
}
use golang_postgres_starter.Problem.Errors.{GoError, problem}
use golang_postgres_starter.Problem.Dispatch.{
  ProblemPlan, new_problem_plan, allow, allow_all, RequestLine, dispatch_error,
  dispatch_adapter_error,
}
use golang_postgres_starter.Guard.{Guard, Served, rejected, replied, wrap_route_guards}

-- What `Build` reports; the first text is the label or the prefix at which it is found.
pub data Violation : Type 0 where
  nil_group group_cycle zero_group_guard : Text → Violation
  relative_mount : Text → Text → Violation
  invalid_mount : Text → Text → Text → Violation
  duplicate_mount : Text → Text → Violation
  overlapping_mounts : Text → Text → Text → Violation
  route_below_mount : Text → Text → Bool → Text → Violation
  unsupported_method : Text → Text → Violation
  relative_pattern invalid_pattern : Text → Text → Violation
  zero_guard unknown_problem : Text → Violation
  problem_status : Text → ProblemKindId → ℕ → Violation
  repeated_problem : Text → ProblemKindId → Violation
  bad_security : Text → RequirementError → Violation
  invalid_cookie : Text → Text → Text → Violation
  repeated_cookie : Text → Text → Violation
  nil_handler : Text → Violation
  contract : Text → Text → Violation
  duplicate_id : Text → Text → Text → Violation
  duplicate_route : Text → Text → Text → Text → Violation
  -- The model's own: the recursion over the groups was cut off.
  out_of_fuel : Violation

-- The fields of an operationModel that do not depend on reflected types.
pub record OperationModel (R A : Type 0) : Type 0 where
  pub method : Text
  pub path : Text
  pub raw : Bool
  pub id : Text
  pub summary : Text
  pub description : Text
  pub tags : List Text
  pub body_description : Text
  pub success_description : Text
  pub produces : Text
  pub problems : List ProblemKind
  pub security : RequirementSet
  pub guards : List (Guard R)
  pub route_guards : List (Guard R)
  pub handler : Option (R → Served A)

abbrev pub label_of : Text → Text → Text
label_of method path = method ++ 0x20 ∷ path

-- What the request binder makes of a request.
pub data Bound (Req : Type 0) : Type 0 where
  unbound : GoError → Bound Req
  bound : Req → Bound Req

-- What a typed handler returns: a reply, which may be nil, and an error, which may be nil.
pub record Handled (Rep : Type 0) : Type 0 where
  pub reply : Option Rep
  pub err : Option GoError

-- What `prepare` closes over. The checks take the method and the path: for a typed operation those
-- of the success mode and those of the request type, for a raw one those of its RawDoc. `commit`
-- writes a reply.
pub data Contract (R A Req Rep : Type 0) : Type 0 where
  typed :
      (success_checks request_checks : Text → Text → List Text) (bind : R → Bound Req)
      (handler : Option (Req → Handled Rep)) (commit : Rep → R → A)
      → Contract R A Req Rep
  raw_doc :
      (doc_checks : Text → Text → List Text) (handler : Option (R → Served A))
      → Contract R A Req Rep

pub record EndpointDecl (R A Req Rep : Type 0) : Type 0 where
  pub method : Text
  pub path : Text
  pub raw : Bool
  pub id : Text
  pub summary : Text
  pub description : Text
  pub tags : List Text
  pub body_description : Text
  pub success_description : Text
  pub problems : List ProblemKind
  pub guards : List (Guard R)
  pub security : RequirementSet
  pub response_cookies : List Text
  pub contract : Contract R A Req Rep

pub record InfraDecl (R A : Type 0) : Type 0 where
  pub method : Text
  pub path : Text
  pub handler : Option (R → Served A)

-- A child, by its number in the store of groups; `none` is a nil group.
pub record GroupChild : Type 0 where
  pub pattern : Text
  pub node : Option ℕ

pub record Group (R A Req Rep : Type 0) : Type 0 where
  pub default_tags : List Text
  pub guards : List (Guard R)
  pub children : List GroupChild
  pub endpoints : List (EndpointDecl R A Req Rep)
  pub infra : List (InfraDecl R A)

-- `compileProblemPlan`
unfoldable pub compile_problem_plan : {R A : Type 0} → OperationModel R A → ProblemPlan
compile_problem_plan m =
    allow_all (allow (new_problem_plan (label_of m.method m.path)) (kind_of internal)) m.problems

-- What `prepare` leaves: the handler it sets on the model, and its violations.
pub record Prepared (R A : Type 0) : Type 0 where
  pub handler : Option (R → Served A)
  pub violations : List Violation

abbrev pub missing_handler {ℓ} : {H : Type ℓ} → Text → Option H → List Violation
missing_handler label none = nil_handler label ∷ []
missing_handler label (some _) = []

-- A handler is set only where nothing was found.
abbrev pub hand_over : {R A : Type 0} → List Violation → Option (R → Served A) → Prepared R A
hand_over [] h = record { handler = h; violations = [] }
hand_over (v ∷ vs) h = record { handler = none; violations = v ∷ vs }

-- `nilReply`
unfoldable pub nil_reply : {A : Type 0} (encodes : ProblemDetails → Bool) → Served A
nil_reply encodes =
    rejected (dispatch_adapter_error encodes none (problem (new internal (codes "internal error"))))

module _ {R A : Type 0} (encodes : ProblemDetails → Bool) (line : R → RequestLine) where
  abbrev pub wrapped : List (Guard R) → Option (R → Served A) → Option (R → Served A)
  wrapped guards none = none
  wrapped guards (some h) = some (wrap_route_guards encodes line h guards)

  -- What is done with the handler's results.
  unfoldable pub finish : {Rep : Type 0} → ProblemPlan → (Rep → R → A) → R → Handled Rep → Served A
  unfolding nil_reply
  finish plan commit r handled = elim handled.err [
    | some err ↦ rejected (dispatch_error encodes (some (line r)) err plan)
    | none ↦ elim handled.reply [ none ↦ nil_reply encodes | some reply ↦ replied (commit reply r) ]
  ]

  -- The closure `bound`.
  unfoldable pub serve :
      {Req Rep : Type 0}
      → ProblemPlan
      → (R → Bound Req)
      → (Req → Handled Rep)
      → (Rep → R → A)
      → R
      → Served A
  unfolding finish
  serve plan bind handler commit r = elim (bind r) [
    | unbound err ↦ rejected (dispatch_adapter_error encodes (some (line r)) err)
    | bound req ↦ finish plan commit r (handler req)
  ]

  unfoldable pub served_by :
      {Req Rep : Type 0}
      → ProblemPlan
      → (R → Bound Req)
      → Option (Req → Handled Rep)
      → (Rep → R → A)
      → Option (R → Served A)
  unfolding serve
  served_by plan bind none commit = none
  served_by plan bind (some handler) commit = some (serve plan bind handler commit)

  -- The `prepare` of Register and RegisterRaw.
  unfoldable pub prepare :
      {Req Rep : Type 0} → Contract R A Req Rep → OperationModel R A → Prepared R A
  unfolding served_by compile_problem_plan
  prepare (typed success_checks request_checks bind handler commit) m =
      let label = label_of m.method m.path in
      hand_over
        (map (contract label) (success_checks m.method m.path)
          ++ (missing_handler label handler
              ++ map (contract label) (request_checks m.method m.path)))
        (wrapped m.route_guards (served_by (compile_problem_plan m) bind handler commit))
  prepare (raw_doc doc_checks handler) m =
      let label = label_of m.method m.path in
      hand_over (missing_handler label handler ++ map (contract label) (doc_checks m.method m.path))
        (wrapped m.route_guards handler)
