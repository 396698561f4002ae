-- ===== src/Compile/Operation.antt =====
-- internal/httpx/compile.go: the compiler's state, the claims of routes and operation ids, and the
-- compilation of one endpoint and of one infrastructure route.
use golang_postgres_starter.Base.{
  or_default, Text, codes, Bool, if◌then◌else◌, ltb, nat_eq, text_eq, List, [], ◌∷◌, ◌++◌, Option,
  none, some, length, lookup, insert,
}
use golang_postgres_starter.Problem.{ProblemDetails}
use golang_postgres_starter.Problem.Dispatch.{RequestLine}
use golang_postgres_starter.Guard.{Guard, Served}
use golang_postgres_starter.Route.{join_pattern, normalize_path, generate_operation_id}
use golang_postgres_starter.Declaration.{
  Violation, zero_guard, duplicate_id, duplicate_route, OperationModel, EndpointDecl, InfraDecl,
  label_of, prepare, missing_handler,
}
use golang_postgres_starter.Compile.Checks.{
  check_method, valid_guards, check_guards, check_declared_problems, check_security, check_pattern,
  check_cookies,
}

-- The compiler without its set of active groups, which the recursion passes down.
pub record Compiler (R A : Type 0) : Type 0 where
  pub ops : List (OperationModel R A)
  pub violations : List Violation
  pub seen : List (Text × Text)
  pub op_ids : List (Text × Text)

pub record MatEndpoint (R A : Type 0) : Type 0 where
  pub method : Text
  pub path : Text
  pub handler : R → Served A

abbrev pub claim_key : Text → Text → Text
claim_key method full_path = method ++ 0x20 ∷ normalize_path full_path

abbrev pub json_type : Text
json_type = codes "application/json"

abbrev pub or_tags : List Text → List Text → List Text
or_tags [] tags = tags
or_tags (t ∷ ts) tags = t ∷ ts

-- `m.id`, generated where the declaration has none.
unfoldable pub settle_id : Text → Text → Text → Text
settle_id [] method path = generate_operation_id method path
settle_id (c ∷ id) method path = c ∷ id

abbrev pub infra_suffix : Text
infra_suffix = codes " (infrastructure)"

module _ {R A : Type 0} where
  abbrev pub report : List Violation → Compiler R A → Compiler R A
  report found c = record c { violations = c.violations ++ found }

  -- The claims, by what the map holds for the key.
  abbrev pub take_id : Text → Text → Compiler R A → Option Text → Compiler R A
  take_id label id c (some first) = report (duplicate_id label id first ∷ []) c
  take_id label id c none = record c { op_ids = insert id label c.op_ids }

  unfoldable pub claim_id : Text → Text → Compiler R A → Compiler R A
  claim_id label id c = take_id label id c (lookup id c.op_ids)

  abbrev pub take_route : Text → Text → Text → Compiler R A → Option Text → Compiler R A
  take_route method full_path label c (some first) =
      report (duplicate_route label method first (claim_key method full_path) ∷ []) c
  take_route method full_path label c none = record c {
    seen = insert (claim_key method full_path) full_path c.seen;
  }

  unfoldable pub claim_route : Text → Text → Text → Compiler R A → Compiler R A
  claim_route method full_path label c =
      take_route method full_path label c (lookup (claim_key method full_path) c.seen)

  -- The last lines of `endpoint`: the operation is kept if nothing was reported meanwhile.
  unfoldable pub keep :
      Compiler R A
      → Compiler R A
      → OperationModel R A
      → Option (R → Served A)
      → Compiler R A × Option (OperationModel R A)
  keep before c m none = (c, none)
  keep before c m (some h) =
      let kept = record m { handler = some h } in
      if ltb (length before.violations) (length c.violations)
      then (c, none)
      else (record c { ops = c.ops ++ kept ∷ [] }, some kept)

  -- The model that `endpoint` builds, up to what `prepare` sets.
  unfoldable pub model :
      {Req Rep : Type 0}
      → EndpointDecl R A Req Rep
      → Text
      → List (Guard R)
      → List Text
      → OperationModel R A
  unfolding valid_guards
  model ep full_path chain tags = record {
    method = ep.method;
    path = full_path;
    raw = ep.raw;
    id = ep.id;
    summary = ep.summary;
    description = ep.description;
    tags = or_tags ep.tags tags;
    body_description = ep.body_description;
    success_description = or_default ep.success_description (codes "Success");
    produces = json_type;
    problems = ep.problems;
    security = ep.security;
    guards = chain ++ valid_guards ep.guards;
    route_guards = valid_guards ep.guards;
    handler = none;
  }

  -- The last lines of `infrastructure`.
  unfoldable pub keep_infra :
      Compiler R A
      → Compiler R A
      → InfraDecl R A
      → Option (R → Served A)
      → Compiler R A × List (MatEndpoint R A)
  keep_infra before c decl none = (c, [])
  keep_infra before c decl (some h) =
      if ltb (length before.violations) (length c.violations)
      then (c, [])
      else (c, record { method = decl.method; path = decl.path; handler = h } ∷ [])

module _ {R A : Type 0} (encodes : ProblemDetails → Bool) (line : R → RequestLine)
    (endpoint_fault cookie_fault : Text → Option Text) where
  -- What is reported of an endpoint before `prepare` runs.
  unfoldable pub check_endpoint :
      {Req Rep : Type 0} → EndpointDecl R A Req Rep → Text → Text → List Violation
  unfolding check_method check_guards check_declared_problems check_security check_pattern
      check_cookies
  check_endpoint ep label full_path =
      check_method label ep.method
      ++ (check_pattern endpoint_fault label ep.path full_path
          ++ (check_guards (zero_guard label) ep.guards
              ++ (check_declared_problems label [] ep.problems
                  ++ (check_security label ep.security
                      ++ check_cookies cookie_fault label [] ep.response_cookies))))

  -- `endpoint`
  unfoldable pub endpoint :
      {Req Rep : Type 0}
      → EndpointDecl R A Req Rep
      → Text
      → List (Guard R)
      → List Text
      → Compiler R A
      → Compiler R A × Option (OperationModel R A)
  unfolding check_endpoint claim_id claim_route keep model settle_id
  endpoint ep prefix chain tags c =
      let full_path = join_pattern prefix ep.path in
      let label = label_of ep.method full_path in
      let m = model ep full_path chain tags in
      let prepared = prepare encodes line ep.contract m in
      let id = settle_id ep.id ep.method full_path in
      let reported = report (check_endpoint ep label full_path ++ prepared.violations) c in
      keep c (claim_route ep.method full_path label (claim_id label id reported))
        (record m { id = id }) prepared.handler

module _ {R A : Type 0} (endpoint_fault : Text → Option Text) where
  -- `infrastructure`; a nil handler is reported, so that nothing is kept for it.
  unfoldable pub infrastructure :
      InfraDecl R A → Text → Compiler R A → Compiler R A × List (MatEndpoint R A)
  unfolding check_method check_pattern claim_route keep_infra
  infrastructure decl prefix c =
      let full_path = join_pattern prefix decl.path in
      let label = label_of decl.method full_path ++ infra_suffix in
      let found =
        check_method label decl.method
        ++ (check_pattern endpoint_fault label decl.path full_path
            ++ missing_handler label decl.handler) in
      keep_infra c (claim_route decl.method full_path label (report found c)) decl decl.handler
