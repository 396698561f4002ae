-- ===== src/Guard/Construction.antt =====
-- Which configurations `NewGuard` accepts, and what an accepted guard can answer.
use golang_postgres_starter.Base.{
  ℕ, zero, suc, ◌≤◌, Text, Bool, true, false, nat_eq, text_eq, List, [], ◌∷◌, length, contains,
  none, ◌≡◌, ◌≢◌, ◌⊎◌, All,
}
use golang_postgres_starter.Acl.WellFormed.{IsSlug}
use golang_postgres_starter.Credential.Validation.{IsAcceptable}
use golang_postgres_starter.Problem.{ProblemKindId, ProblemKind, status, unauthorized}
use golang_postgres_starter.Guard.{Guard, GuardConfig, mode_single, mode_any, mode_all}

abbrev pub IsClientError : ProblemKind → Type 0
IsClientError p = (400 ≤ status p) × (status p ≤ 499)

-- No kind of the list has an identity of the other list.
abbrev Avoids : List ProblemKindId → List ProblemKind → Type 0
Avoids ids = All (λ p. contains ids p.id ≡ false)

abbrev pub IsDistinct : List ProblemKind → Type 0
IsDistinct [] = Unit
IsDistinct (p ∷ ps) = All (λ q. q.id ≢ p.id) ps × IsDistinct ps

abbrev pub IsUnchallenged : Bool → ProblemKind → Type 0
IsUnchallenged challenge p = challenge ≡ true → p.id ≢ unauthorized

-- No mode without permissions, any known mode or none for one, and "any" or "all" for more.
abbrev pub HasMode : ℕ → Text → Type 0
HasMode zero mode = mode ≡ []
HasMode (suc zero) mode = (mode ≡ []) ⊎ (mode ≡ mode_single) ⊎ (mode ≡ mode_any) ⊎ (mode ≡ mode_all)
HasMode (suc (suc n)) mode = (mode ≡ mode_any) ⊎ (mode ≡ mode_all)

abbrev IsKnownMode : Text → Type 0
IsKnownMode mode = (mode ≡ []) ⊎ (mode ≡ mode_single) ⊎ (mode ≡ mode_any) ⊎ (mode ≡ mode_all)

-- The mode of a guard with such permissions.
abbrev pub implied_mode : List Text → Text → Text
implied_mode (permission ∷ []) [] = mode_single
implied_mode permissions mode = mode

module _ {R : Type 0} where
  -- What a configuration must be.
  pub record IsConfig (cfg : GuardConfig R) : Type 0 where
    pub named : cfg.id ≢ []
    pub checked : cfg.check ≢ none
    pub credentials : All IsAcceptable cfg.credentials.alternatives
    pub client_errors : All IsClientError cfg.problems
    pub distinct : IsDistinct cfg.problems
    pub unchallenged : All (IsUnchallenged cfg.challenge) cfg.problems
    pub permitted : All IsSlug cfg.permissions
    pub mode : HasMode (length cfg.permissions) cfg.permission_mode

  -- The configuration with "single" for the mode that a single permission leaves blank.
  abbrev pub settled : GuardConfig R → Guard R
  settled cfg = record cfg { permission_mode = implied_mode cfg.permissions cfg.permission_mode }
