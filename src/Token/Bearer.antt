-- ===== src/Token/Bearer.antt =====
-- The bearer guards in front of a handler.
use golang_postgres_starter.Base.{
  Text, codes, Bool, true, false, nat_eq, text_eq, [], ◌∷◌, ◌++◌, none, some, has_prefix,
  trim_prefix, lookup, insert, sort, has_prefix-append, trim_prefix-append, append-trim_prefix, ◌≡◌,
  ◌≢◌, ◌⊎◌, refl, sym, ◌∙◌, ap, inl, inr, Bool-cases,
}
use golang_postgres_starter.Problem.{
  ProblemDetails, new, unauthorized, problem_definition, define, is_valid, status, is_same,
}
use golang_postgres_starter.Problem.Errors.{GoError, problem, Result, Result-cases, ok, failed}
use golang_postgres_starter.Problem.Dispatch.{
  Response, reported, code_of, dispatch_error, Body, allow, allow_all,
}
use golang_postgres_starter.Problem.Dispatch.Plain.{
  shown_at, dispatch_error-new, dispatch_error-unencoded,
}
use golang_postgres_starter.Credential.{
  requires, check_scheme, is_known_security_scheme, scopes_of, check_scopes, check_schemes,
  validate_requirement_set,
}
use golang_postgres_starter.Guard.{
  Guard, Served, rejected, guard_plan, new_guard, check_config, check_problems, check_problem,
  check_permissions, check_mode, settle_mode, check_known_mode, wrap_route_guards, guard_middleware,
}
use golang_postgres_starter.Token.{Claims}
use golang_postgres_starter.Token.Guards.{
  Request, bearer, invalid_auth_header, publish, bearer_config, bearer_guard,
}

-- The guard that a bearer configuration becomes.
abbrev pub bearer_guard_of : Text → (Text → Result Claims) → Guard Request
bearer_guard_of id parse = bearer_config id parse

-- A bearer guard with an identity is always built: the construction does not panic.
pub bearer_guard-built :
    (id : Text) (parse : Text → Result Claims)
    → id ≢ []
    → bearer_guard id parse ≡ some (bearer_guard_of id parse)
unfolding bearer_guard new_guard check_config check_problems check_problem check_permissions
    check_mode settle_mode check_known_mode validate_requirement_set requires check_schemes
    problem_definition is_valid is_same status lookup insert sort check_scheme
    is_known_security_scheme scopes_of check_scopes
bearer_guard-built [] parse h = absurd (h refl)
bearer_guard-built (c ∷ id) parse h = refl

-- The request shows a token that the parser accepts, with these claims.
abbrev pub Presents : (Text → Result Claims) → Request → Claims → Type 0
Presents parse r c = (token : Text) × (r.authorization ≡ bearer ++ token) × (parse token ≡ ok c)

pub Presents-header :
    (parse : Text → Result Claims) (r : Request) (c : Claims)
    → Presents parse r c
    → (has_prefix r.authorization bearer ≡ true)
      × (parse (trim_prefix r.authorization bearer) ≡ ok c)
Presents-header parse r c (token, shown, accepted) = (
  ap (λ s. has_prefix s bearer) shown ∙ has_prefix-append bearer token,
  ap (λ s. parse (trim_prefix s bearer)) shown
      ∙ ap parse (trim_prefix-append bearer token)
      ∙ accepted,
)

-- The answer is 401, or, where a problem could not be encoded, 500.
abbrev pub IsDenial : (ProblemDetails → Bool) → Response → Type 0
IsDenial encodes response =
    ((body : Body) × (response ≡ reported 401 none body))
    ⊎ ((q : ProblemDetails) × (encodes q ≡ false) × (code_of response ≡ 500))

module _ (encodes : ProblemDetails → Bool) (id : Text) (parse : Text → Result Claims) where
  abbrev pub guarded : {A : Type 0} → (Request → Served A) → Request → Served A
  guarded h = wrap_route_guards encodes (λ r. r.line) h (bearer_guard_of id parse ∷ [])

  abbrev response_to : Request → Text → Response
  response_to r message =
      dispatch_error encodes (some r.line) (problem (new unauthorized message))
        (guard_plan (bearer_guard_of id parse))

  denied : (r : Request) (message : Text) → IsDenial encodes (response_to r message)
  unfolding problem_definition allow allow_all bearer_config is_valid
  denied r message =
      let d = define (codes "unauthorized") 401 (codes "Unauthorized") in
      let shown = shown_at d unauthorized message (r.line.method ++ 0x20 ∷ r.line.path) in
      let plan = guard_plan (bearer_guard_of id parse) in
      elim (Bool-cases (encodes shown)) [
        | inl fine ↦
            inl (_, dispatch_error-new encodes unauthorized d refl message r.line plan refl fine)
        | inr bad ↦ inr (
          shown,
          bad,
          dispatch_error-unencoded encodes unauthorized d refl message r.line plan refl bad,
        )
      ]

  -- What a bearer guard does with a request, whatever the handler: it hands on the request with the
  -- claims of the accepted token that it presents, or, if it presents none, denies it.
  pub data Admission (A : Type 0) (r : Request) : Type 0 where
    admitted :
        (c : Claims)
        → Presents parse r c
        → ((h : Request → Served A) → guarded h r ≡ h (record r { claims = some c }))
        → Admission A r
    turned_away :
        (response : Response)
        → IsDenial encodes response
        → ((c : Claims) → ¬ Presents parse r c)
        → ((h : Request → Served A) → guarded h r ≡ rejected response)
        → Admission A r

  admit :
      (A : Type 0) (r : Request) (c : Claims)
      → has_prefix r.authorization bearer ≡ true
      → parse (trim_prefix r.authorization bearer) ≡ ok c
      → (h : Request → Served A) → guarded h r ≡ h (record r { claims = some c })
  unfolding wrap_route_guards guard_middleware bearer_config publish
  admit A r c shown accepted h = rw (shown, accepted)

  refuse :
      (A : Type 0) (r : Request) (err : GoError)
      → has_prefix r.authorization bearer ≡ true
      → parse (trim_prefix r.authorization bearer) ≡ failed err
      → (h : Request → Served A)
      → guarded h r ≡ rejected (response_to r (codes "invalid or expired token"))
  unfolding wrap_route_guards guard_middleware bearer_config publish
  refuse A r err shown failing h = rw (shown, failing)

  refuse_header :
      (A : Type 0) (r : Request)
      → has_prefix r.authorization bearer ≡ false
      → (h : Request → Served A) → guarded h r ≡ rejected (response_to r invalid_auth_header)
  unfolding wrap_route_guards guard_middleware bearer_config
  refuse_header A r missing h = rw missing

  -- Every request is admitted or turned away by a bearer guard.
  pub guarded-Admission : (A : Type 0) (r : Request) → Admission A r
  guarded-Admission A r = elim (Bool-cases (has_prefix r.authorization bearer)) [
    | inl shown ↦ elim (Result-cases (parse (trim_prefix r.authorization bearer))) [
      | inl (c, accepted) ↦
          admitted c
            (
              trim_prefix r.authorization bearer,
              sym (append-trim_prefix r.authorization bearer shown),
              accepted,
            )
            (admit A r c shown accepted)
      | inr (err, failing) ↦
          turned_away (response_to r (codes "invalid or expired token"))
            (denied r (codes "invalid or expired token"))
            (λ c p. cc (failing, (Presents-header parse r c p).1)) (refuse A r err shown failing)
    ]
    | inr missing ↦
        turned_away (response_to r invalid_auth_header) (denied r invalid_auth_header)
          (λ c p. cc (missing, (Presents-header parse r c p).0)) (refuse_header A r missing)
  ]

  -- A request that presents a token of the parser reaches the handler with the token's claims.
  pub guarded-Presents :
      (A : Type 0) (r : Request) (c : Claims)
      → Presents parse r c
      → (h : Request → Served A) → guarded h r ≡ h (record r { claims = some c })
  guarded-Presents A r c p =
      admit A r c (Presents-header parse r c p).0 (Presents-header parse r c p).1

  -- A request whose token the parser accepts with no claims does not.
  pub guarded-rejected :
      (A : Type 0) (r : Request) (token : Text)
      → r.authorization ≡ bearer ++ token
      → ((c : Claims) → parse token ≢ ok c)
      → (response : Response) × IsDenial encodes response
        × ((h : Request → Served A) → guarded h r ≡ rejected response)
  guarded-rejected A r token shown unaccepted = elim (guarded-Admission A r) [
    | admitted c p same ↦ absurd (
        unaccepted c (
          ap parse
            (sym (trim_prefix-append bearer token) ∙ ap (λ s. trim_prefix s bearer) (sym shown))
          ∙ (Presents-header parse r c p).1))
    | turned_away response denial none_shown same ↦ (response, denial, same)
  ]
