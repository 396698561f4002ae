-- ===== src/Credential/Tests.antt =====
-- Runs of the credential algebra, and its theorems at inputs.
use golang_postgres_starter.Base.{
  Text, codes, Bool, true, false, ◌==◌, text_eq, ◌≡◌, refl, ◌↔◌, none, some, [], ◌∷◌, lookup,
  insert, sort,
}
use golang_postgres_starter.Credential.{
  and, any_of, requires, no_credential, allows_anonymous, validate_requirement_set, unknown_scheme,
  scoped_scheme, merge_row, merge_table, merge_credentials, or, is_listed, same_credentials,
  unstated, check_schemes, check_scheme, scopes_of, is_known_security_scheme, check_scopes,
}
use golang_postgres_starter.Credential.Meaning.{Meets, and-Meets}

abbrev bearer : Text
bearer = codes "BearerAuth"

abbrev basic : Text
basic = codes "BasicAuth"

algebra : Unit {0}
unfolding and merge_row merge_table merge_credentials or is_listed same_credentials unstated lookup
    insert requires any_of allows_anonymous
algebra = tt

algebra_tests :
    (requires (bearer ∷ [] ∷ bearer ∷ []) ≡ record { alternatives = ((bearer, []) ∷ []) ∷ [] })
    × (and (requires (bearer ∷ [])) (requires (basic ∷ []))
        ≡ record { alternatives = ((bearer, []) ∷ (basic, []) ∷ []) ∷ [] })
    × (and no_credential (requires []) ≡ no_credential)
    × (allows_anonymous no_credential ≡ true)
    × (allows_anonymous (and no_credential (requires (basic ∷ []))) ≡ false)
unfolding algebra
algebra_tests = (refl, refl, refl, refl, refl)

validation_tests :
    (validate_requirement_set (requires (bearer ∷ [])) ≡ none)
    × (validate_requirement_set (requires (codes "x" ∷ [])) ≡ some (unknown_scheme 0 (codes "x")))
    × (validate_requirement_set (record { alternatives = [] ∷ ((basic, codes "s" ∷ []) ∷ []) ∷ [] })
        ≡ some (scoped_scheme basic (codes "s" ∷ [])))
unfolding algebra validate_requirement_set check_schemes check_scheme scopes_of
    is_known_security_scheme check_scopes sort
validation_tests = (refl, refl, refl)

abbrev holds_bearer : Text → Bool
holds_bearer scheme = scheme == bearer

and-Meets_example :
    Meets holds_bearer (and (requires (bearer ∷ [])) no_credential)
    ↔ (Meets holds_bearer (requires (bearer ∷ [])) × Meets holds_bearer no_credential)
and-Meets_example = and-Meets holds_bearer (requires (bearer ∷ [])) no_credential
