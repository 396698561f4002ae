-- ===== src/Token/Pair.antt =====
-- What a pair of tokens is good for: each is accepted as what it is, until it expires, and names
-- the user; neither is accepted as the other.
use golang_postgres_starter.Base.{
  ℕ, ◌+◌, ◌/◌, ◌≤◌, ◌<◌, Text, Bool, true, false, nat_eq, text_eq, [], none, some, ◌≡◌, ◌≢◌, refl,
  sym, inl, inr, arith, Option-cases,
}
use golang_postgres_starter.Strconv.{ℤ, parse_int}
use golang_postgres_starter.Strconv.RoundTrip.{IsInt, parse_int-format_int}
use golang_postgres_starter.Problem.{second}
use golang_postgres_starter.Problem.Errors.{Result, ok, failed}
use golang_postgres_starter.Token.{
  Claims, Tokens, Jwt, JwtService, access_issuer, refresh_issuer, claims_for, check_identity,
  pair_of, issue_checked, issue_token_pair, accept_parsed, parse_token_claims, parse_access_token,
  parse_refresh_token,
}
use golang_postgres_starter.Token.Guards.{Request, parse_claims_ctx}

module _ {S V : Type 0} (lib : Jwt S V) where
  -- The dates of the claims are ones that a token can carry.
  pub record IsDated (c : Claims) : Type 0 where
    pub issued : lib.numeric_date c.issued_at ≡ c.issued_at
    pub started : lib.numeric_date c.not_before ≡ c.not_before
    pub expiring : lib.numeric_date c.expires_at ≡ c.expires_at

  -- What the library documents of a private key and the public key that belongs to it: dates are
  -- cut to seconds; a token that it signed is accepted for its issuer between its dates, the leeway
  -- allowed for; and what it accepts of a token that it signed is the claims, for their issuer and
  -- before they expire.
  pub record Promises (sk : S) (vk : V) : Type 0 where
    pub numeric_date-numeric_date :
        (t : ℕ) → lib.numeric_date (lib.numeric_date t) ≡ lib.numeric_date t
    pub numeric_date_bounds : (t : ℕ) → (lib.numeric_date t ≤ t) × (t < lib.numeric_date t + second)
    pub accepts :
        (c : Claims) (token : Text) (skew now : ℕ)
        → lib.sign sk c ≡ ok token
        → IsDated c
        → c.not_before ≤ now + skew
        → now < c.expires_at + skew
        → lib.parse vk skew c.issuer now token ≡ ok (c, true)
    pub faithful :
        (c : Claims) (token issuer : Text) (skew now : ℕ) (c' : Claims) (valid : Bool)
        → lib.sign sk c ≡ ok token
        → IsDated c
        → lib.parse vk skew issuer now token ≡ ok (c', valid)
        → (c' ≡ c) × (c.issuer ≡ issuer) × (now < c.expires_at + skew)

-- What a successful issue has signed.
pub record Signed {S V : Type 0} (lib : Jwt S V) (j : JwtService S V) (user_id : ℤ)
    (email role : Text) (now : ℕ) (tokens : Tokens) : Type 0 where
  pub identified : check_identity user_id email role ≡ none
  pub access_signed :
      lib.sign j.private_key (claims_for lib access_issuer user_id email role now j.access_time)
      ≡ ok tokens.access_token
  pub refresh_signed :
      lib.sign j.private_key (claims_for lib refresh_issuer user_id email [] now j.refresh_time)
      ≡ ok tokens.refresh_token
  pub lifetime : tokens.expires_in ≡ j.access_time / second

pair_of-ok :
    (lifetime : ℕ) (access refresh : Result Text) {tokens : Tokens}
    → pair_of lifetime access refresh ≡ ok tokens
    → (access ≡ ok tokens.access_token)
      × (refresh ≡ ok tokens.refresh_token)
      × (lifetime ≡ tokens.expires_in)
unfolding pair_of
pair_of-ok lifetime (failed err) refresh h = cc
pair_of-ok lifetime (ok a) (failed err) h = cc
pair_of-ok lifetime (ok a) (ok b) h = ground arith

parse_claims_ctx-names :
    (r : Request) (c : Claims) (user_id : ℤ)
    → parse_int 64 c.id ≡ some user_id
    → parse_claims_ctx (record r { claims = some c }) ≡ ok (c, user_id)
unfolding parse_claims_ctx
parse_claims_ctx-names r c user_id read = ground arith

-- Whatever the parser returns, the accepted claims are its own, and it has called the token valid.
accept_parsed-ok :
    (parsed : Result (Claims × Bool)) (c : Claims)
    → accept_parsed parsed ≡ ok c
    → parsed ≡ ok (c, true)
unfolding accept_parsed
accept_parsed-ok (failed err) c h = cc
accept_parsed-ok (ok (c', true)) c h = ground arith
accept_parsed-ok (ok (c', false)) c h = cc

module _ {S V : Type 0} (lib : Jwt S V) (j : JwtService S V) (user_id : ℤ) (email role : Text)
    (now : ℕ) where
  pub issue_token_pair-Signed :
      (tokens : Tokens)
      → issue_token_pair lib j user_id email role now ≡ ok tokens
      → Signed lib j user_id email role now tokens
  unfolding issue_token_pair issue_checked
  issue_token_pair-Signed tokens h = elim (Option-cases (check_identity user_id email role)) [
    | inl found ↦
        let (access, refresh, lifetime) = pair_of-ok _ _ _ (rw (found, issue_token_pair) at h) in
        record {
          identified = found;
          access_signed = access;
          refresh_signed = refresh;
          lifetime = sym lifetime;
        }
    | inr (e, bad) ↦ absurd (ground arith)
  ]

  claims_for-IsDated :
      (issuer : Text) (lifetime : ℕ)
      → ((t : ℕ) → lib.numeric_date (lib.numeric_date t) ≡ lib.numeric_date t)
      → IsDated lib (claims_for lib issuer user_id email role now lifetime)
  claims_for-IsDated issuer lifetime same = record {
    issued = same now;
    started = same now;
    expiring = same (now + lifetime);
  }

issuers-apart : access_issuer ≢ refresh_issuer
issuers-apart e = cc

module _ {S V : Type 0} (lib : Jwt S V) (j : JwtService S V)
    (keeps : Promises lib j.private_key j.public_key) where
  -- A token that was signed for its issuer is accepted until a second before it expires.
  pub parse-signed :
      (issuer : Text) (user_id : ℤ) (email role : Text) (issued now lifetime : ℕ) (token : Text)
      → lib.sign j.private_key (claims_for lib issuer user_id email role issued lifetime) ≡ ok token
      → issued ≤ now + j.clock_skew
      → now + second ≤ issued + lifetime + j.clock_skew
      → parse_token_claims lib j issuer now token
        ≡ ok (claims_for lib issuer user_id email role issued lifetime)
  unfolding parse_token_claims accept_parsed
  parse-signed issuer user_id email role issued now lifetime token signed started alive = rw (
      keeps.accepts (claims_for lib issuer user_id email role issued lifetime) token j.clock_skew
        now signed
        (claims_for-IsDated lib j user_id email role issued issuer lifetime
          keeps.numeric_date-numeric_date)
        (omega (arith, keeps.numeric_date_bounds issued))
        (omega (arith, keeps.numeric_date_bounds (issued + lifetime))))

  -- A token that was signed for an issuer is accepted for no other, and by no time past its expiry.
  pub parse-signed_only :
      (issuer expected : Text) (user_id : ℤ) (email role : Text) (issued now lifetime : ℕ)
      (token : Text) (c : Claims)
      → lib.sign j.private_key (claims_for lib issuer user_id email role issued lifetime) ≡ ok token
      → parse_token_claims lib j expected now token ≡ ok c
      → (c ≡ claims_for lib issuer user_id email role issued lifetime)
        × (issuer ≡ expected)
        × (now < issued + lifetime + j.clock_skew)
  unfolding parse_token_claims
  parse-signed_only issuer expected user_id email role issued now lifetime token c signed accepted =
      let (same, for_it, alive) =
        keeps.faithful (claims_for lib issuer user_id email role issued lifetime) token expected
          j.clock_skew now c true signed
          (claims_for-IsDated lib j user_id email role issued issuer lifetime
            keeps.numeric_date-numeric_date)
          (accept_parsed-ok _ c accepted) in
      (same, for_it, omega (arith, keeps.numeric_date_bounds (issued + lifetime)))

  -- The access token of an issued pair is accepted by the parser of access tokens, with the role,
  -- from the moment of the issue until a second before the access time is over, and the refresh
  -- token by the parser of refresh tokens, without a role, until a second before the refresh time is
  -- over, whether or not the other one still lives; the clock skew is allowed for. The claims of
  -- both lead back to the user's number and email. The user's number is an int64.
  pub issue_token_pair-parse :
      (user_id : ℤ) (email role : Text) (issued now : ℕ) (tokens : Tokens) (r : Request)
      → IsInt 64 user_id
      → issue_token_pair lib j user_id email role issued ≡ ok tokens
      → issued ≤ now + j.clock_skew
      → (now + second ≤ issued + j.access_time + j.clock_skew
          → (access : Claims) × (parse_access_token lib j now tokens.access_token ≡ ok access)
            × (parse_claims_ctx (record r { claims = some access }) ≡ ok (access, user_id))
            × (access.subject ≡ email)
            × (access.role ≡ role))
        × (now + second ≤ issued + j.refresh_time + j.clock_skew
            → (refresh : Claims) × (parse_refresh_token lib j now tokens.refresh_token ≡ ok refresh)
              × (parse_claims_ctx (record r { claims = some refresh }) ≡ ok (refresh, user_id))
              × (refresh.subject ≡ email)
              × (refresh.role ≡ []))
  unfolding parse_access_token parse_refresh_token
  issue_token_pair-parse user_id email role issued now tokens r int done started =
      let s = issue_token_pair-Signed lib j user_id email role issued tokens done in
      let read = parse_int-format_int 64 user_id int in
      (
        (λ alive. (
          claims_for lib access_issuer user_id email role issued j.access_time,
          parse-signed access_issuer user_id email role issued now j.access_time tokens.access_token
              s.access_signed started alive,
          parse_claims_ctx-names r _ user_id read,
          refl,
          refl,
        )),
        (λ alive. (
          claims_for lib refresh_issuer user_id email [] issued j.refresh_time,
          parse-signed refresh_issuer user_id email [] issued now j.refresh_time
              tokens.refresh_token s.refresh_signed started alive,
          parse_claims_ctx-names r _ user_id read,
          refl,
          refl,
        )),
      )

  -- The two kinds of token are never taken for each other: at no time is an issued access token
  -- accepted as a refresh token or an issued refresh token as an access token; and no issued token
  -- is accepted once its time and the clock skew are over.
  pub issue_token_pair-apart :
      (user_id : ℤ) (email role : Text) (issued now : ℕ) (tokens : Tokens) (c : Claims)
      → issue_token_pair lib j user_id email role issued ≡ ok tokens
      → (parse_access_token lib j now tokens.refresh_token ≢ ok c)
        × (parse_refresh_token lib j now tokens.access_token ≢ ok c)
        × (parse_access_token lib j now tokens.access_token ≡ ok c
            → now < issued + j.access_time + j.clock_skew)
        × (parse_refresh_token lib j now tokens.refresh_token ≡ ok c
            → now < issued + j.refresh_time + j.clock_skew)
  unfolding parse_access_token parse_refresh_token
  issue_token_pair-apart user_id email role issued now tokens c done =
      let s = issue_token_pair-Signed lib j user_id email role issued tokens done in
      (
        (λ h. absurd (
            issuers-apart (
              sym
                (parse-signed_only refresh_issuer access_issuer user_id email [] issued now
                  j.refresh_time tokens.refresh_token c s.refresh_signed h).1))),
        (λ h. absurd (
            issuers-apart
              (parse-signed_only access_issuer refresh_issuer user_id email role issued now
                j.access_time tokens.access_token c s.access_signed h).1)),
        (λ h.
            (parse-signed_only access_issuer access_issuer user_id email role issued now
              j.access_time tokens.access_token c s.access_signed h).2),
        (λ h.
            (parse-signed_only refresh_issuer refresh_issuer user_id email [] issued now
              j.refresh_time tokens.refresh_token c s.refresh_signed h).2),
      )
