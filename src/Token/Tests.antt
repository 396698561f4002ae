-- ===== src/Token/Tests.antt =====
-- Runs of the token service over a library whose tokens are the claims written out, and the
-- theorems at a session.
use golang_postgres_starter.Base.{
  ◌≤◌, ℕ, codes, Text, Bool, true, [], ◌∷◌, ◌++◌, none, some, ◌≡◌, ◌≢◌, refl, arith, ◌<◌, ◌+◌, ◌*◌,
  lookup, insert, sort,
}
use golang_postgres_starter.Strconv.{pos, digits, parse_digits, parse_int, format_int}
use golang_postgres_starter.Problem.{
  ProblemDetails, second, problem_definition, is_valid, is_same, status,
}
use golang_postgres_starter.Problem.Errors.{is_error, invalid_claims, sentinel, wrap, ok, failed}
use golang_postgres_starter.Credential.{
  requires, check_scheme, is_known_security_scheme, scopes_of, check_scopes, check_schemes,
  validate_requirement_set,
}
use golang_postgres_starter.Guard.{
  new_guard, check_config, check_problems, check_problem, check_permissions, check_mode,
  settle_mode, check_known_mode,
}
use golang_postgres_starter.Token.{
  Claims, Tokens, JwtService, issue_token_pair, parse_access_token, parse_refresh_token, claims_for,
  access_issuer,
}
use golang_postgres_starter.Token.Guards.{
  parse_claims_ctx, Request, access_guard, refresh_guard, bearer,
}
use golang_postgres_starter.Token.Pair.{issue_token_pair-parse, issue_token_pair-apart}
use golang_postgres_starter.Token.Bearer.{bearer_guard_of}
use golang_postgres_starter.Token.Session.{Reaches, IsTurnedAway, session}
use golang_postgres_starter.Token.Written.{written, written-Promises}

abbrev minutes : ℕ
minutes = 60 * second

abbrev service : JwtService (Unit {0}) (Unit {0})
service = record {
  private_key = tt;
  public_key = tt;
  access_time = 15 * minutes;
  refresh_time = 600 * minutes;
  clock_skew = 10 * second;
}

abbrev email : Text
email = codes "a@b"

abbrev role : Text
role = codes "admin"

abbrev issued : ℕ
issued = 1000 * second

-- What the issue for user 7 returns.
abbrev pair : Tokens
pair = record {
  access_token =
      1000000000000 ∷ 1000000000000 ∷ 1900000000000 ∷ 1 ∷ b'7' ∷ 11 ∷ codes "auth-access"
      ++ 3 ∷ email
      ++ 5 ∷ role;
  refresh_token =
      1000000000000 ∷ 1000000000000 ∷ 37000000000000 ∷ 1 ∷ b'7' ∷ 12 ∷ codes "auth-refresh"
      ++ 3 ∷ email
      ++ 0 ∷ [];
  expires_in = 900;
}

token_runs : Unit {0}
unfolding issue_token_pair parse_access_token parse_refresh_token parse_claims_ctx format_int
    parse_int digits parse_digits written is_error
token_runs = tt

issued_pair : issue_token_pair written service (pos 7) email role issued ≡ ok pair
unfolding token_runs
issued_pair = refl

refusals :
    (issue_token_pair written service (pos 0) email role issued
      ≡ failed (wrap (codes "user ID cannot be zero") (sentinel invalid_claims)))
    × (issue_token_pair written service (pos 7) [] role issued
        ≡ failed (wrap (codes "email cannot be empty") (sentinel invalid_claims)))
    × (issue_token_pair written service (pos 7) email [] issued
        ≡ failed (wrap (codes "role cannot be empty") (sentinel invalid_claims)))
unfolding token_runs
refusals = (refl, refl, refl)

abbrev request : Text → Request
request authorization = record {
  line = record { method = codes "GET"; path = codes "/me" };
  authorization = authorization;
  claims = none;
}

abbrev now : ℕ
now = issued + 5 * minutes

issue_token_pair-parse_example :
    (now + second ≤ issued + service.access_time + service.clock_skew
      → (access : Claims) × (parse_access_token written service now pair.access_token ≡ ok access)
        × (parse_claims_ctx (record (request []) { claims = some access }) ≡ ok (access, pos 7))
        × (access.subject ≡ email)
        × (access.role ≡ role))
    × (now + second ≤ issued + service.refresh_time + service.clock_skew
        → (refresh : Claims) × (parse_refresh_token written service now pair.refresh_token
            ≡ ok refresh)
          × (parse_claims_ctx (record (request []) { claims = some refresh }) ≡ ok (refresh, pos 7))
          × (refresh.subject ≡ email)
          × (refresh.role ≡ []))
issue_token_pair-parse_example =
    issue_token_pair-parse written service written-Promises (pos 7) email role issued now pair
      (request []) (omega arith) issued_pair (omega arith)

issue_token_pair-apart_example :
    let c = claims_for written access_issuer (pos 7) email role issued (15 * minutes) in
    (parse_access_token written service now pair.refresh_token ≢ ok c)
    × (parse_refresh_token written service now pair.access_token ≢ ok c)
    × (parse_access_token written service now pair.access_token ≡ ok c
        → now < issued + 15 * minutes + 10 * second)
    × (parse_refresh_token written service now pair.refresh_token ≡ ok c
        → now < issued + 600 * minutes + 10 * second)
issue_token_pair-apart_example =
    issue_token_pair-apart written service written-Promises (pos 7) email role issued now pair
      (claims_for written access_issuer (pos 7) email role issued (15 * minutes)) issued_pair

abbrev always : ProblemDetails → Bool
always p = true

always_total : (p : ProblemDetails) → always p ≡ true
always_total p = refl

guard_runs : Unit {0}
unfolding access_guard refresh_guard new_guard check_config check_problems check_problem
    check_permissions check_mode settle_mode check_known_mode validate_requirement_set requires
    check_schemes problem_definition is_valid is_same status lookup insert sort check_scheme
    is_known_security_scheme scopes_of check_scopes
guard_runs = tt

guards_built :
    (access_guard written service now
      ≡ some (bearer_guard_of (codes "access-token") (parse_access_token written service now)))
    × (refresh_guard written service now
        ≡ some (bearer_guard_of (codes "refresh-token") (parse_refresh_token written service now)))
unfolding guard_runs
guards_built = (refl, refl)

session_example :
    let access = bearer_guard_of (codes "access-token") (parse_access_token written service now) in
    let refresh =
      bearer_guard_of (codes "refresh-token") (parse_refresh_token written service now) in
    ((r : Request)
      → r.authorization ≡ bearer ++ pair.access_token
      → Reaches always email (pos 7) ℕ access r × IsTurnedAway always ℕ refresh r)
    × ((r : Request)
        → r.authorization ≡ bearer ++ pair.refresh_token
        → Reaches always email (pos 7) ℕ refresh r × IsTurnedAway always ℕ access r)
session_example =
    session written service written-Promises always (pos 7) email role issued now pair (omega arith)
      issued_pair (omega arith) (omega arith) (omega arith) ℕ
      (bearer_guard_of (codes "access-token") (parse_access_token written service now))
      (bearer_guard_of (codes "refresh-token") (parse_refresh_token written service now))
      guards_built.0 guards_built.1
