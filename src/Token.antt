-- ===== src/Token.antt =====
-- internal/jwt: the service that issues and checks tokens, and the guards that ask for them.
pub mod Guards
pub mod Pair
pub mod Issue
pub mod Bearer
pub mod Session
pub mod Once
pub mod Written
mod Tests
use golang_postgres_starter.Base.{
  ℕ, ◌+◌, ◌*◌, ◌/◌, Text, codes, Bool, true, false, if◌then◌else◌, ◌==◌, nat_eq, text_eq, [], ◌++◌,
  Option, none, some,
}
use golang_postgres_starter.Strconv.{ℤ, pos, negsuc, format_int}
use golang_postgres_starter.Problem.{second}
use golang_postgres_starter.Problem.Errors.{
  GoError, sentinel, wrap, wrap_two, invalid_token, invalid_claims, Result, ok, failed, or_fail,
}

abbrev pub access_issuer : Text
access_issuer = codes "auth-access"

abbrev pub refresh_issuer : Text
refresh_issuer = codes "auth-refresh"

-- Times and durations are in nanoseconds. The pointer to the registered claims is not nil in what
-- the service makes, nor in what passes the library's check of the issuer.
pub record Claims : Type 0 where
  pub id : Text
  pub issuer : Text
  pub subject : Text
  pub issued_at : ℕ
  pub not_before : ℕ
  pub expires_at : ℕ
  pub role : Text

pub record Tokens : Type 0 where
  pub access_token : Text
  pub refresh_token : Text
  pub expires_in : ℕ

-- The functions of github.com/golang-jwt/jwt that are called, over its private and public keys:
-- NewNumericDate, SignedString with ES256, and the parser with its leeway and its issuer at a time.
-- The parser returns the claims and whether the token is valid.
pub record Jwt (S V : Type 0) : Type 0 where
  pub numeric_date : ℕ → ℕ
  pub sign : S → Claims → Result Text
  pub parse : V → ℕ → Text → ℕ → Text → Result (Claims × Bool)

pub record JwtService (S V : Type 0) : Type 0 where
  pub private_key : S
  pub public_key : V
  pub access_time : ℕ
  pub refresh_time : ℕ
  pub clock_skew : ℕ

-- The part of config.Jwt that is read.
pub record JwtConfig : Type 0 where
  pub public_key_path : Text
  pub private_key_path : Text
  pub access_expiry_time : ℕ
  pub refresh_expiry_time : ℕ
  pub clock_skew : ℕ

-- jwtOnce, jwtSvc and initErr.
pub record Singleton (S V : Type 0) : Type 0 where
  pub done : Bool
  pub service : Option (JwtService S V)
  pub init_error : Option GoError

abbrev pub default_clock_skew : ℕ
default_clock_skew = 10 * second

abbrev pub init_outcome : Option GoError → Option GoError
init_outcome none = none
init_outcome (some err) = some (wrap (codes "failed to initialize jwt service: ") err)

module _ {S V : Type 0} where
  abbrev pub fresh_singleton : Singleton S V
  fresh_singleton = record { done = false; service = none; init_error = none }

  -- What `loadKeys` asks of os.ReadFile and of the two parsers.
  unfoldable pub load_keys :
      (read_file : Text → Result Text) (parse_private : Text → Result S)
      (parse_public : Text → Result V)
      → Text
      → Text
      → Result (S × V)
  load_keys read_file parse_private parse_public public_path private_path =
      or_fail (read_file private_path)
        (wrap (codes "failed to read private key from " ++ private_path ++ codes ": "))
        λ private_pem.
          or_fail (parse_private private_pem) (wrap (codes "failed to parse ECDSA private key: "))
            λ private_key.
              or_fail (read_file public_path)
                (wrap (codes "failed to read public key from " ++ public_path ++ codes ": "))
                λ public_pem.
                  or_fail (parse_public public_pem)
                    (wrap (codes "failed to parse ECDSA public key: "))
                    λ public_key. ok (private_key, public_key)

  -- The function that the once runs.
  unfoldable pub initialize : JwtConfig → Result (S × V) → Singleton S V
  initialize c (failed err) = record { done = true; service = none; init_error = some err }
  initialize c (ok (private_key, public_key)) = record {
    done = true;
    service = some (record {
      private_key = private_key;
      public_key = public_key;
      access_time = c.access_expiry_time;
      refresh_time = c.refresh_expiry_time;
      clock_skew = if c.clock_skew == 0 then default_clock_skew else c.clock_skew;
    });
    init_error = none;
  }

  -- `InitJWT`: the new state and the error it returns. `load` is `loadKeys` on the two paths.
  unfoldable pub init_jwt :
      (Text → Text → Result (S × V)) → JwtConfig → Singleton S V → Singleton S V × Option GoError
  unfolding initialize
  init_jwt load c s =
      let after = if s.done then s else initialize c (load c.public_key_path c.private_key_path) in
      (after, init_outcome after.init_error)

abbrev pub is_zero : ℤ → Bool
is_zero (pos n) = n == 0
is_zero (negsuc n) = false

-- The three checks of the arguments, in their order.
unfoldable pub check_identity : ℤ → Text → Text → Option GoError
check_identity user_id email role =
    if is_zero user_id
    then some (wrap (codes "user ID cannot be zero") (sentinel invalid_claims))
    else if email == []
    then some (wrap (codes "email cannot be empty") (sentinel invalid_claims))
    else if role == []
    then some (wrap (codes "role cannot be empty") (sentinel invalid_claims))
    else none

-- What `parseTokenClaims` does with the parser's result.
unfoldable pub accept_parsed : Result (Claims × Bool) → Result Claims
accept_parsed (failed err) = failed (wrap_two (sentinel invalid_token) err)
accept_parsed (ok (claims, valid)) = if valid then ok claims else failed (sentinel invalid_token)

-- The pair of two tokens, either of which may not have been signed.
unfoldable pub pair_of : ℕ → Result Text → Result Text → Result Tokens
pair_of lifetime (failed err) refresh = failed (wrap (codes "failed to create access token: ") err)
pair_of lifetime (ok access) (failed err) =
    failed (wrap (codes "failed to create refresh token: ") err)
pair_of lifetime (ok access) (ok refresh) =
    ok (record { access_token = access; refresh_token = refresh; expires_in = lifetime })

module _ {S V : Type 0} (lib : Jwt S V) where
  abbrev pub claims_for : Text → ℤ → Text → Text → ℕ → ℕ → Claims
  claims_for issuer user_id email role now lifetime = record {
    id = format_int user_id;
    issuer = issuer;
    subject = email;
    issued_at = lib.numeric_date now;
    not_before = lib.numeric_date now;
    expires_at = lib.numeric_date (now + lifetime);
    role = role;
  }

  -- What `IssueTokenPair` does once its arguments are checked.
  unfoldable pub issue_checked : JwtService S V → ℤ → Text → Text → ℕ → Result Tokens
  unfolding pair_of
  issue_checked j user_id email role now =
      pair_of (j.access_time / second)
        (lib.sign j.private_key (claims_for access_issuer user_id email role now j.access_time))
        (lib.sign j.private_key (claims_for refresh_issuer user_id email [] now j.refresh_time))

  -- `IssueTokenPair` at a time.
  unfoldable pub issue_token_pair : JwtService S V → ℤ → Text → Text → ℕ → Result Tokens
  unfolding check_identity issue_checked
  issue_token_pair j user_id email role now = elim (check_identity user_id email role) [
    | some err ↦ failed err
    | none ↦ issue_checked j user_id email role now
  ]

  unfoldable pub parse_token_claims : JwtService S V → Text → ℕ → Text → Result Claims
  unfolding accept_parsed
  parse_token_claims j issuer now token =
      accept_parsed (lib.parse j.public_key j.clock_skew issuer now token)

  unfoldable pub parse_access_token : JwtService S V → ℕ → Text → Result Claims
  unfolding parse_token_claims
  parse_access_token j = parse_token_claims j access_issuer

  unfoldable pub parse_refresh_token : JwtService S V → ℕ → Text → Result Claims
  unfolding parse_token_claims
  parse_refresh_token j = parse_token_claims j refresh_issuer
