-- ===== src/Token/Once.antt =====
-- The one initialization of the token service.
use golang_postgres_starter.Base.{
  ℕ, Text, true, List, [], ◌∷◌, Option, none, some, inl, inr, nat_eq, ◌==◌, if◌then◌else◌, ◌<◌,
  subst, ◌≡◌, refl, sym, ◌∙◌, ap, arith,
}
use golang_postgres_starter.Problem.Errors.{GoError, Result, Result-cases}
use golang_postgres_starter.Token.{
  JwtService, JwtConfig, Singleton, fresh_singleton, default_clock_skew, initialize, init_jwt,
}

-- A call of the initialization: what loads the keys, and the configuration.
abbrev pub Call : Type 0 → Type 0 → Type 0
Call S V = (Text → Text → Result (S × V)) × JwtConfig

skew_pos : (n : ℕ) → 0 < (if n == 0 then default_clock_skew else n)
skew_pos n = ground arith

module _ {S V : Type 0} where
  unfoldable pub init_all : List (Call S V) → Singleton S V → Singleton S V
  init_all [] s = s
  init_all ((load, c) ∷ calls) s = init_all calls (init_jwt load c s).0

  init_jwt-done :
      (load : Text → Text → Result (S × V)) (c : JwtConfig) (s : Singleton S V)
      → s.done ≡ true
      → (init_jwt load c s).0 ≡ s
  unfolding init_jwt
  init_jwt-done load c s h = rw h

  init_all-done :
      (calls : List (Call S V)) (s : Singleton S V) → s.done ≡ true → init_all calls s ≡ s
  unfolding init_all
  init_all-done [] s h = refl
  init_all-done ((load, c) ∷ calls) s h =
      ap (init_all calls) (init_jwt-done load c s h) ∙ init_all-done calls s h

  init_jwt-is_done :
      (load : Text → Text → Result (S × V)) (c : JwtConfig)
      → (init_jwt load c fresh_singleton).0.done ≡ true
  unfolding init_jwt initialize
  init_jwt-is_done load c = elim (Result-cases (load c.public_key_path c.private_key_path)) [
    | inl (keys, e) ↦ rw e
    | inr (err, e) ↦ rw e
  ]

  init_jwt-again :
      (load load' : Text → Text → Result (S × V)) (c c' : JwtConfig)
      → init_jwt load' c' (init_jwt load c fresh_singleton).0 ≡ init_jwt load c fresh_singleton
  unfolding init_jwt initialize
  init_jwt-again load load' c c' = elim (Result-cases (load c.public_key_path c.private_key_path)) [
    | inl (keys, e) ↦ rw e
    | inr (err, e) ↦ rw e
  ]

  -- A service is there exactly if the call returned no error, and it has the configured lifetimes
  -- and some clock skew.
  abbrev pub IsSettled : JwtConfig → Singleton S V → Option GoError → Type 0
  IsSettled c s none =
      (j : JwtService S V) × (s.service ≡ some j)
      × (j.access_time ≡ c.access_expiry_time)
      × (j.refresh_time ≡ c.refresh_expiry_time)
      × (0 < j.clock_skew)
  IsSettled c s (some _) = s.service ≡ none

  init_jwt-IsSettled :
      (load : Text → Text → Result (S × V)) (c : JwtConfig)
      → IsSettled c (init_jwt load c fresh_singleton).0 (init_jwt load c fresh_singleton).1
  unfolding init_jwt initialize
  init_jwt-IsSettled load c = elim (Result-cases (load c.public_key_path c.private_key_path)) [
    | inl (keys, e) ↦ rw e (_, refl, refl, refl, skew_pos c.clock_skew)
    | inr (err, e) ↦ rw e refl
  ]

  -- The first call of the initialization decides: whatever calls follow, with whatever keys and
  -- configurations, the state stays that of the first call and each of them returns the error of
  -- the first; and there is a service exactly if that is none, with the lifetimes of the first
  -- configuration.
  pub init_jwt-once :
      (load : Text → Text → Result (S × V)) (c : JwtConfig) (later : List (Call S V))
      (load' : Text → Text → Result (S × V)) (c' : JwtConfig)
      → let (first, err) = init_jwt load c fresh_singleton in
        let s = init_all later first in
        (s ≡ first) × (init_jwt load' c' s ≡ (first, err)) × IsSettled c s err
  init_jwt-once load c later load' c' =
      let same =
        init_all-done later (init_jwt load c fresh_singleton).0 (init_jwt-is_done load c) in
      (
        same,
        ap (init_jwt load' c') same ∙ init_jwt-again load load' c c',
        subst (λ s. IsSettled c s (init_jwt load c fresh_singleton).1) (sym same)
            (init_jwt-IsSettled load c),
      )
