-- ===== src/Token/Session.antt =====
-- A session: the tokens of a pair at the two guards.
use golang_postgres_starter.Base.{
  ℕ, ◌+◌, ◌≤◌, Text, Bool, [], ◌∷◌, ◌++◌, some, subst, ◌≡◌, ◌≢◌, sym, ◌∙◌,
}
use golang_postgres_starter.Strconv.{ℤ}
use golang_postgres_starter.Strconv.RoundTrip.{IsInt}
use golang_postgres_starter.Problem.{ProblemDetails, second}
use golang_postgres_starter.Problem.Errors.{Result, ok}
use golang_postgres_starter.Problem.Dispatch.{Response}
use golang_postgres_starter.Guard.{Guard, Served, rejected, wrap_route_guards}
use golang_postgres_starter.Token.{
  Claims, Tokens, Jwt, JwtService, parse_access_token, parse_refresh_token, issue_token_pair,
}
use golang_postgres_starter.Token.Guards.{
  Request, bearer, bearer_guard, access_guard, refresh_guard, parse_claims_ctx,
}
use golang_postgres_starter.Token.Pair.{Promises, issue_token_pair-parse, issue_token_pair-apart}
use golang_postgres_starter.Token.Bearer.{
  IsDenial, bearer_guard_of, bearer_guard-built, guarded-Presents, guarded-rejected,
}

module _ (encodes : ProblemDetails → Bool) (email : Text) (user_id : ℤ) (A : Type 0) where
  -- Any handler behind the guard alone is asked, with claims of the user.
  abbrev pub Reaches : Guard Request → Request → Type 0
  Reaches g r =
      (c : Claims) × ((h : Request → Served A)
        → wrap_route_guards encodes (λ q. q.line) h (g ∷ []) r ≡ h (record r { claims = some c }))
      × (c.subject ≡ email)
      × (parse_claims_ctx (record r { claims = some c }) ≡ ok (c, user_id))

module _ (encodes : ProblemDetails → Bool) (A : Type 0) where
  -- No handler behind the guard is asked: the answer is 401, or, where the problem cannot be encoded,
  -- 500.
  abbrev pub IsTurnedAway : Guard Request → Request → Type 0
  IsTurnedAway g r =
      (response : Response) × IsDenial encodes response
      × ((h : Request → Served A)
          → wrap_route_guards encodes (λ q. q.line) h (g ∷ []) r ≡ rejected response)

module _ (encodes : ProblemDetails → Bool) (A : Type 0) (id : Text) (parse : Text → Result Claims)
    (g : Guard Request) (r : Request) (token : Text) where
  same_guard : id ≢ [] → bearer_guard id parse ≡ some g → bearer_guard_of id parse ≡ g
  same_guard named a = cc (sym (bearer_guard-built id parse named) ∙ a)

  pub reaches :
      (email : Text) (user_id : ℤ) (c : Claims)
      → id ≢ []
      → bearer_guard id parse ≡ some g
      → r.authorization ≡ bearer ++ token
      → parse token ≡ ok c
      → c.subject ≡ email
      → parse_claims_ctx (record r { claims = some c }) ≡ ok (c, user_id)
      → Reaches encodes email user_id A g r
  reaches email user_id c named a shown accepted subject names =
      subst (λ h. Reaches encodes email user_id A h r) (same_guard named a)
        (c, guarded-Presents encodes id parse A r c (token, shown, accepted), subject, names)

  turns_away :
      id ≢ []
      → bearer_guard id parse ≡ some g
      → r.authorization ≡ bearer ++ token
      → ((c : Claims) → parse token ≢ ok c)
      → IsTurnedAway encodes A g r
  turns_away named a shown unaccepted =
      subst (λ h. IsTurnedAway encodes A h r) (same_guard named a)
        (guarded-rejected encodes id parse A r token shown unaccepted)

module _ {S V : Type 0} (lib : Jwt S V) (j : JwtService S V)
    (keeps : Promises lib j.private_key j.public_key) (encodes : ProblemDetails → Bool)
    (user_id : ℤ) (email role : Text) (issued now : ℕ) (tokens : Tokens) (int : IsInt 64 user_id)
    (done : issue_token_pair lib j user_id email role issued ≡ ok tokens)
    (started : issued ≤ now + j.clock_skew)
    (access_alive : now + second ≤ issued + j.access_time + j.clock_skew)
    (refresh_alive : now + second ≤ issued + j.refresh_time + j.clock_skew) (A : Type 0) where
  -- With a pair that was issued to a user and has not expired, the access guard lets the access
  -- token through to the handler and turns the refresh token away, and the refresh guard does the
  -- reverse; the handler finds the user's number and email in the context. A token is turned away
  -- with 401, or, where the problem cannot be encoded as JSON, with 500.
  pub session :
      (access refresh : Guard Request)
      → access_guard lib j now ≡ some access
      → refresh_guard lib j now ≡ some refresh
      → ((r : Request)
          → r.authorization ≡ bearer ++ tokens.access_token
          → Reaches encodes email user_id A access r × IsTurnedAway encodes A refresh r)
        × ((r : Request)
            → r.authorization ≡ bearer ++ tokens.refresh_token
            → Reaches encodes email user_id A refresh r × IsTurnedAway encodes A access r)
  unfolding access_guard refresh_guard
  session access refresh a b =
      let pair = λ (r : Request).
        issue_token_pair-parse lib j keeps user_id email role issued now tokens r int done
          started in
      let apart = λ (c : Claims).
        issue_token_pair-apart lib j keeps user_id email role issued now tokens c done in
      (
        (λ r shown.
            let (c, accepted, names, subject, _) = (pair r).0 access_alive in
            (
              reaches encodes A _ (parse_access_token lib j now) access r tokens.access_token email
                  user_id c (λ e. cc) a shown accepted subject names,
              turns_away encodes A _ (parse_refresh_token lib j now) refresh r tokens.access_token
                  (λ e. cc) b shown (λ k. (apart k).1),
            )),
        (λ r shown.
            let (d, accepted, names, subject, _) = (pair r).1 refresh_alive in
            (
              reaches encodes A _ (parse_refresh_token lib j now) refresh r tokens.refresh_token
                  email user_id d (λ e. cc) b shown accepted subject names,
              turns_away encodes A _ (parse_access_token lib j now) access r tokens.refresh_token
                  (λ e. cc) a shown (λ k. (apart k).0),
            )),
      )
