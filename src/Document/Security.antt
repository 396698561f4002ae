-- ===== src/Document/Security.antt =====
-- What the security of an operation in the document asks of a caller.
use golang_postgres_starter.Base.{
  Text, Bool, if◌then◌else◌, List, [], ◌∷◌, Option, none, some, refl, ◌↔◌, inl, inr, All, Any,
}
use golang_postgres_starter.Credential.{CredentialSet, RequirementSet, unstated}
use golang_postgres_starter.Credential
use golang_postgres_starter.Credential.Meaning.{Holds, Meets, and-Meets, stated_cases}
use golang_postgres_starter.Guard.{Guard}
use golang_postgres_starter.Document.{conjoin, operation_security}

-- No security asks for nothing; a list asks for one of its alternatives.
abbrev pub MeetsDocument : (Text → Bool) → Option (List CredentialSet) → Type 0
MeetsDocument held none = Unit {0}
MeetsDocument held (some alternatives) = Any (Holds held) alternatives

published_iff :
    (held : Text → Bool) (r : RequirementSet)
    → MeetsDocument held (if unstated r then none else some r.alternatives) ↔ Meets held r
published_iff held r = elim (stated_cases r) [
  | inl (empty, e) ↦ rw e ((λ m. inl empty), λ m. tt)
  | inr (some_r, e) ↦
      rw e ((λ m. inr m), λ m. elim m [ inl empty ↦ absurd (some_r empty) | inr any ↦ any ])
]

module _ {R : Type 0} (held : Text → Bool) where
  conjoin_iff :
      (required : RequirementSet) (guards : List (Guard R))
      → Meets held (conjoin required guards)
        ↔ (Meets held required × All (λ g. Meets held g.credentials) guards)
  unfolding conjoin
  conjoin_iff required [] = ((λ m. (m, tt)), λ m. m.0)
  conjoin_iff required (g ∷ gs) =
      let rest = conjoin_iff (Credential.and required g.credentials) gs in
      let here = and-Meets held required g.credentials in
      (
        (λ m. let (both, are) = rest.0 m in let (r, is) = here.0 both in (r, (is, are))),
        λ (r, (is, are)). rest.1 (here.1 (r, is), are),
      )

  -- A caller meets the security that the document gives an operation exactly if the caller meets the
  -- credentials of every guard on it and the operation's own requirement.
  pub operation_security-Meets :
      (guards : List (Guard R)) (security : RequirementSet)
      → MeetsDocument held (operation_security guards security)
        ↔ (All (λ g. Meets held g.credentials) guards × Meets held security)
  unfolding operation_security
  operation_security-Meets guards security =
      let nothing : RequirementSet = record { alternatives = [] } in
      let chain = conjoin_iff nothing guards in
      let all = and-Meets held (conjoin nothing guards) security in
      let document = published_iff held (Credential.and (conjoin nothing guards) security) in
      (
        (λ m. let (guarded, own) = all.0 (document.0 m) in ((chain.0 guarded).1, own)),
        λ (are, own). document.1 (all.1 (chain.1 (inl refl, are), own)),
      )
