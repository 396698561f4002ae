-- ===== src/Auth/Session.antt =====
-- From the registration to the answer about oneself.
use golang_postgres_starter.Base.{
  ℕ, ◌^◌, ◌<◌, Text, codes, Bool, nat_eq, text_eq, length, List, [], ◌∷◌, some, ◌≡◌, All,
}
use golang_postgres_starter.Base64.RoundTrip.{IsByte}
use golang_postgres_starter.Problem.{ProblemDetails}
use golang_postgres_starter.Problem.Errors.{Result, ok}
use golang_postgres_starter.Guard.{Guard, Served, wrap_route_guards}
use golang_postgres_starter.Password.{Argon2}
use golang_postgres_starter.Password.RoundTrip.{DerivesKeys}
use golang_postgres_starter.Response.{reply_with}
use golang_postgres_starter.Token.{Claims, Jwt, JwtService}
use golang_postgres_starter.Token.Guards.{Request}
use golang_postgres_starter.Token.Pair.{Promises}
use golang_postgres_starter.Auth.Users.{Database}
use golang_postgres_starter.Auth.{RegisterRequest, user_response, handle_me}
use golang_postgres_starter.Auth.Registered.{row_of}

-- The answer to a request with the token: the guard lets it through to the handler, which replies
-- with the user.
abbrev pub Answers :
    (ProblemDetails → Bool)
    → Database
    → RegisterRequest
    → Type 0
    → Guard Request
    → Database
    → Request
    → Type 0
Answers encodes db user A g after r =
    (c : Claims) × ((h : Request → Served A)
      → wrap_route_guards encodes (λ q. q.line) h (g ∷ []) r ≡ h (record r { claims = some c }))
    × (handle_me after (record r { claims = some c })
        ≡ ok (
            reply_with (codes "User details fetched successfully")
              (user_response (row_of db user []))))

-- The parts that are not the program's: the key derivation, the randomness for the salt, and a
-- library of tokens that signs.
pub record Surroundings {S V : Type 0} (argon : Argon2) (random : ℕ → Result (List ℕ))
    (lib : Jwt S V) (j : JwtService S V) : Type 0 where
  pub version_fits : argon.version < 2 ^ 63
  pub derives : DerivesKeys argon
  pub salt : List ℕ
  pub drawn : random 16 ≡ ok salt
  pub salt_length : length salt ≡ 16
  pub salt_bytes : All IsByte salt
  pub signs : (c : Claims) → (token : Text) × (lib.sign j.private_key c ≡ ok token)
  pub keeps : Promises lib j.private_key j.public_key
