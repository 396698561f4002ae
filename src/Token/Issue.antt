-- ===== src/Token/Issue.antt =====
-- When the issue of tokens is refused.
use golang_postgres_starter.Base.{
  true≢false, ℕ, zero, suc, ◌/◌, Text, codes, true, false, nat_eq, text_eq, [], ◌∷◌, Option, none,
  some, ◌≡◌, refl, sym, ◌∙◌, ap₂, ◌⊎◌, inl, inr, ◌↔◌, arith,
}
use golang_postgres_starter.Strconv.{ℤ, pos, negsuc}
use golang_postgres_starter.Problem.{second}
use golang_postgres_starter.Problem.Errors.{
  GoError, sentinel, wrap, invalid_claims, is_error, Result, ok, failed,
}
use golang_postgres_starter.Token.{
  Claims, Tokens, Jwt, claims_for, access_issuer, refresh_issuer, JwtService, check_identity,
  pair_of, issue_checked, issue_token_pair,
}

abbrev pub IsNobody : ℤ → Text → Text → Type 0
IsNobody user_id email role = (user_id ≡ pos 0) ⊎ ((email ≡ []) ⊎ (role ≡ []))

abbrev IsRefusal : Option GoError → Type 0
IsRefusal found = (err : GoError) × (found ≡ some err) × (is_error invalid_claims err ≡ true)

check_identity-cases :
    (user_id : ℤ) (email role : Text)
    → ((check_identity user_id email role ≡ none) × ¬ IsNobody user_id email role)
      ⊎ (IsRefusal (check_identity user_id email role) × IsNobody user_id email role)
unfolding check_identity is_error
check_identity-cases (pos zero) email role = inr ((_, refl, refl), inl refl)
check_identity-cases (pos (suc n)) [] role = inr (
  (wrap (codes "email cannot be empty") (sentinel invalid_claims), ground arith, refl),
  inr (inl refl),
)
check_identity-cases (pos (suc n)) (c ∷ email) [] = inr (
  (wrap (codes "role cannot be empty") (sentinel invalid_claims), ground arith, refl),
  inr (inr refl),
)
check_identity-cases (pos (suc n)) (c ∷ email) (d ∷ role) = inl (ground arith, λ h. ground arith)
check_identity-cases (negsuc n) [] role = inr ((_, refl, refl), inr (inl refl))
check_identity-cases (negsuc n) (c ∷ email) [] = inr ((_, refl, refl), inr (inr refl))
check_identity-cases (negsuc n) (c ∷ email) (d ∷ role) = inl (refl, λ h. ground arith)

abbrev Unclaimed : Result Text → Type 0
Unclaimed signed = (err : GoError) → signed ≡ failed err → is_error invalid_claims err ≡ false

pair_of-Unclaimed :
    (lifetime : ℕ) (access refresh : Result Text) (err : GoError)
    → Unclaimed access
    → Unclaimed refresh
    → pair_of lifetime access refresh ≡ failed err
    → is_error invalid_claims err ≡ false
unfolding pair_of is_error
pair_of-Unclaimed lifetime (failed e) refresh err a b h = ground (arith, a e refl)
pair_of-Unclaimed lifetime (ok t) (failed e) err a b h = ground (arith, b e refl)
pair_of-Unclaimed lifetime (ok t) (ok u) err a b h = cc

issue_token_pair-passed :
    {S V : Type 0} (lib : Jwt S V) (j : JwtService S V) (user_id : ℤ) (email role : Text) (now : ℕ)
    (err : GoError)
    → ((c : Claims) → Unclaimed (lib.sign j.private_key c))
    → check_identity user_id email role ≡ none
    → issue_token_pair lib j user_id email role now ≡ failed err
    → is_error invalid_claims err ≡ false
unfolding issue_token_pair issue_checked
issue_token_pair-passed lib j user_id email role now err other passed h =
    pair_of-Unclaimed _ _ _ err (other _) (other _) (rw (passed, issue_token_pair) at h)

issue_token_pair-refused :
    {S V : Type 0} (lib : Jwt S V) (j : JwtService S V) (user_id : ℤ) (email role : Text) (now : ℕ)
    (err : GoError)
    → check_identity user_id email role ≡ some err
    → issue_token_pair lib j user_id email role now ≡ failed err
unfolding issue_token_pair
issue_token_pair-refused lib j user_id email role now err refused = ground arith

-- The issue is refused for invalid claims exactly if the user's number is zero, or the email or the
-- role is empty; otherwise a pair is issued if both tokens can be signed. The signer's errors are
-- not those of invalid claims.
pub issue_token_pair_iff :
    {S V : Type 0} (lib : Jwt S V) (j : JwtService S V) (user_id : ℤ) (email role : Text) (now : ℕ)
    → ((c : Claims) (err : GoError)
        → lib.sign j.private_key c ≡ failed err
        → is_error invalid_claims err ≡ false)
    → ((err : GoError) × (issue_token_pair lib j user_id email role now ≡ failed err)
        × (is_error invalid_claims err ≡ true))
      ↔ ((user_id ≡ pos 0) ⊎ ((email ≡ []) ⊎ (role ≡ [])))
issue_token_pair_iff lib j user_id email role now other =
    elim (check_identity-cases user_id email role) [
      | inl (passed, somebody) ↦ (
        (λ (err, h, claimed). absurd (
            true≢false (
              sym claimed
              ∙ issue_token_pair-passed lib j user_id email role now err other passed h))),
        (λ nobody. absurd (somebody nobody)),
      )
      | inr ((err, refused, claimed), nobody) ↦ (
        (λ h. nobody),
        (λ h. (err, issue_token_pair-refused lib j user_id email role now err refused, claimed)),
      )
    ]

pair_of-tokens :
    (lifetime : ℕ) (access refresh : Text)
    → pair_of lifetime (ok access) (ok refresh)
      ≡ ok (record { access_token = access; refresh_token = refresh; expires_in = lifetime })
unfolding pair_of
pair_of-tokens lifetime access refresh = refl

-- With a signer that signs, the issue succeeds for anybody.
pub issue_token_pair-total :
    {S V : Type 0} (lib : Jwt S V) (j : JwtService S V) (user_id : ℤ) (email role : Text) (now : ℕ)
    → ((c : Claims) → (token : Text) × (lib.sign j.private_key c ≡ ok token))
    → ¬ IsNobody user_id email role
    → (tokens : Tokens) × (issue_token_pair lib j user_id email role now ≡ ok tokens)
unfolding issue_token_pair issue_checked
issue_token_pair-total lib j user_id email role now signs somebody =
    elim (check_identity-cases user_id email role) [
      | inl (passed, _) ↦
          let (access, a) =
            signs (claims_for lib access_issuer user_id email role now j.access_time) in
          let (refresh, b) =
            signs (claims_for lib refresh_issuer user_id email [] now j.refresh_time) in
          (
            record {
              access_token = access;
              refresh_token = refresh;
              expires_in = j.access_time / second;
            },
            rw (passed, issue_token_pair)
                (ap₂ (pair_of (j.access_time / second)) a b ∙ pair_of-tokens _ access refresh),
          )
      | inr (_, nobody) ↦ absurd (somebody nobody)
    ]
