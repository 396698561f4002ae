-- ===== src/Token/Guards.antt =====
-- internal/jwt/guards.go and tokens.go: the guards that ask for tokens, and the claims in the context.
use golang_postgres_starter.Base.{
  ℕ, Text, codes, false, not, if◌then◌else◌, nat_eq, text_eq, [], ◌∷◌, Option, none, some,
  has_prefix, trim_prefix,
}
use golang_postgres_starter.Strconv.{ℤ, parse_int}
use golang_postgres_starter.Credential.{requires}
use golang_postgres_starter.Problem.{new, unauthorized, kind_of}
use golang_postgres_starter.Problem.Errors.{
  problem, sentinel, wrap, plain, token_not_found, Result, ok, failed,
}
use golang_postgres_starter.Problem.Dispatch.{RequestLine}
use golang_postgres_starter.Guard.{Checked, Guard, GuardConfig, NewGuard, built, refused, new_guard}
use golang_postgres_starter.Token.{Claims, Jwt, JwtService, parse_access_token, parse_refresh_token}

-- The part of a request that the guards read, and the value that they put into its context.
pub record Request : Type 0 where
  pub line : RequestLine
  pub authorization : Text
  pub claims : Option Claims

-- `ParseClaimsCtx`: the claims of the context and the user that they name.
unfoldable pub parse_claims_ctx : Request → Result (Claims × ℤ)
parse_claims_ctx r = elim r.claims [
  | none ↦ failed (sentinel token_not_found)
  | some claims ↦ (elim (parse_int 64 claims.id) [
    | none ↦ failed (wrap (codes "invalid user ID in token claims: ") (plain (codes "strconv")))
    | some uid ↦ ok (claims, uid)
  ])
]

abbrev pub bearer : Text
bearer = codes "Bearer "

abbrev pub invalid_auth_header : Text
invalid_auth_header = codes "authorization header format must be 'Bearer {token}'"

-- The check of a bearer guard; both ways to fail return the request as it was.
unfoldable pub publish : Request → Result Claims → Checked Request
publish r (failed err) = record {
  request = some r;
  err = some (problem (new unauthorized (codes "invalid or expired token")));
}
publish r (ok claims) = record { request = some (record r { claims = some claims }); err = none }

unfoldable pub check_bearer : (Text → Result Claims) → Request → Checked Request
unfolding publish
check_bearer parse r =
    if not (has_prefix r.authorization bearer)
    then record { request = some r; err = some (problem (new unauthorized invalid_auth_header)) }
    else publish r (parse (trim_prefix r.authorization bearer))

unfoldable pub bearer_config : Text → (Text → Result Claims) → GuardConfig Request
unfolding check_bearer
bearer_config id parse = record {
  id = id;
  check = some (check_bearer parse);
  credentials = requires (codes "BearerAuth" ∷ []);
  problems = kind_of unauthorized ∷ [];
  permissions = [];
  permission_mode = [];
  note = [];
  fallback_note = [];
  challenge = false;
}

-- `panic(err)` is no guard.
unfoldable pub or_panic : NewGuard Request → Option (Guard Request)
or_panic (built g) = some g
or_panic (refused e) = none

unfoldable pub bearer_guard : Text → (Text → Result Claims) → Option (Guard Request)
unfolding bearer_config or_panic
bearer_guard id parse = or_panic (new_guard (bearer_config id parse))

module _ {S V : Type 0} (lib : Jwt S V) (j : JwtService S V) where
  -- `AccessGuard` at a time.
  unfoldable pub access_guard : ℕ → Option (Guard Request)
  unfolding bearer_guard
  access_guard now = bearer_guard (codes "access-token") (parse_access_token lib j now)

  -- `RefreshGuard` at a time.
  unfoldable pub refresh_guard : ℕ → Option (Guard Request)
  unfolding bearer_guard
  refresh_guard now = bearer_guard (codes "refresh-token") (parse_refresh_token lib j now)
