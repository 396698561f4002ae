-- ===== src/Credential.antt =====
-- internal/httpx/guard.go: the credential algebra (CredentialSet, RequirementSet).
pub mod Meaning
pub mod Validation
mod Tests
use golang_postgres_starter.Base.{
  ℕ, ◌+◌, Text, codes, Bool, true, false, not, ◌&&◌, ◌||◌, ltb, ◌==◌, nat_eq, text_eq, List, [],
  ◌∷◌, ◌++◌, length, contains, lookup, insert, sort, if◌then◌else◌, Option, none, some,
}

-- map[string][]string, from a security scheme to its scopes.
abbrev pub CredentialSet : Type 0
CredentialSet = List (Text × List Text)

-- The alternatives are or-ed, the schemes of one alternative are and-ed.
pub record RequirementSet : Type 0 where
  pub alternatives : List CredentialSet

abbrev pub known_security_schemes : List Text
known_security_schemes =
    codes "BearerAuth" ∷ codes "RefreshTokenCookieAuth" ∷ codes "BasicAuth" ∷ []

unfoldable pub is_known_security_scheme : Text → Bool
is_known_security_scheme name = contains known_security_schemes name

-- The loop of `Requires`.
unfoldable pub add_schemes : CredentialSet → List Text → CredentialSet
add_schemes set [] = set
add_schemes set (scheme ∷ schemes) =
    add_schemes
      (if scheme == []
        then set
        else elim (lookup scheme set) [ some _ ↦ set | none ↦ insert scheme [] set ])
      schemes

-- The end of `Requires`: an empty set states nothing.
unfoldable pub of_set : CredentialSet → RequirementSet
of_set [] = record { alternatives = [] }
of_set (entry ∷ set) = record { alternatives = (entry ∷ set) ∷ [] }

unfoldable pub requires : List Text → RequirementSet
unfolding add_schemes of_set
requires schemes = of_set (add_schemes [] schemes)

abbrev pub no_credential : RequirementSet
no_credential = record { alternatives = [] ∷ [] }

unfoldable pub same_scopes : List Text → List Text → Bool
same_scopes [] [] = true
same_scopes [] (_ ∷ _) = false
same_scopes (_ ∷ _) [] = false
same_scopes (s ∷ scopes) (o ∷ other) = s == o && same_scopes scopes other

-- The loop of `sameCredentials`.
unfoldable pub covered : CredentialSet → CredentialSet → Bool
unfolding same_scopes
covered [] b = true
covered ((scheme, scopes) ∷ a) b = elim (lookup scheme b) [
  | none ↦ false
  | some other ↦ same_scopes scopes other && covered a b
]

unfoldable pub same_credentials : CredentialSet → CredentialSet → Bool
unfolding covered
same_credentials a b = length a == length b && covered a b

unfoldable pub is_listed : CredentialSet → List CredentialSet → Bool
is_listed alt [] = false
is_listed alt (existing ∷ alts) = same_credentials existing alt || is_listed alt alts

-- `RequirementSet.or`
unfoldable pub or : RequirementSet → CredentialSet → RequirementSet
unfolding is_listed
or r alt =
    if is_listed alt r.alternatives then r else record { alternatives = r.alternatives ++ alt ∷ [] }

-- `AnyOf`
unfoldable pub or_all : RequirementSet → List CredentialSet → RequirementSet
or_all out [] = out
or_all out (alt ∷ alts) = or_all (or out alt) alts

unfoldable pub any_of : List CredentialSet → RequirementSet
unfolding or_all
any_of alternatives = or_all (record { alternatives = [] }) alternatives

unfoldable pub unstated : RequirementSet → Bool
unstated r = elim r.alternatives [ [] ↦ true | _ ∷ _ ↦ false ]

unfoldable pub has_empty : List CredentialSet → Bool
has_empty [] = false
has_empty ([] ∷ alts) = true
has_empty ((_ ∷ _) ∷ alts) = has_empty alts

unfoldable pub allows_anonymous : RequirementSet → Bool
unfolding has_empty
allows_anonymous r = has_empty r.alternatives

unfoldable pub add_scopes : List Text → List Text → List Text
add_scopes existing [] = existing
add_scopes existing (scope ∷ scopes) =
    add_scopes (if contains existing scope then existing else existing ++ scope ∷ []) scopes

unfoldable pub merge_credentials : CredentialSet → CredentialSet → CredentialSet
merge_credentials out [] = out
merge_credentials out ((scheme, scopes) ∷ b) =
    merge_credentials
      (elim (lookup scheme out) [
        | none ↦ insert scheme scopes out
        | some existing ↦ insert scheme (add_scopes existing scopes) out
      ])
      b

-- The inner and the outer loop of `And`.
unfoldable pub merge_row : CredentialSet → List CredentialSet → RequirementSet → RequirementSet
merge_row left [] out = out
merge_row left (right ∷ rights) out = merge_row left rights (or out (merge_credentials left right))

unfoldable pub merge_table :
    List CredentialSet → List CredentialSet → RequirementSet → RequirementSet
merge_table [] rights out = out
merge_table (left ∷ lefts) rights out = merge_table lefts rights (merge_row left rights out)

unfoldable pub and : RequirementSet → RequirementSet → RequirementSet
and r other =
    if unstated other
    then r
    else if unstated r
    then other
    else merge_table r.alternatives other.alternatives (record { alternatives = [] })

-- The errors of `validateRequirementSet`; an alternative goes by its index.
pub data RequirementError : Type 0 where
  unknown_scheme : ℕ → Text → RequirementError
  scoped_scheme repeated_scope : Text → List Text → RequirementError

-- `none` where no scope stands twice; `seen` are the scopes before.
unfoldable pub check_scopes : Text → List Text → List Text → Option RequirementError
check_scopes scheme seen [] = none
check_scopes scheme seen (scope ∷ scopes) =
    if contains seen scope
    then some (repeated_scope scheme (scope ∷ []))
    else check_scopes scheme (scope ∷ seen) scopes

-- Reading a missing key of a Go map gives the zero value.
unfoldable pub scopes_of : Text → CredentialSet → List Text
scopes_of scheme set = elim (lookup scheme set) [ none ↦ [] | some scopes ↦ scopes ]

unfoldable pub check_scheme : ℕ → CredentialSet → Text → Option RequirementError
check_scheme index alternative scheme =
    if not (is_known_security_scheme scheme)
    then some (unknown_scheme index scheme)
    else if ltb 0 (length (scopes_of scheme alternative))
    then some (scoped_scheme scheme (scopes_of scheme alternative))
    else check_scopes scheme [] (scopes_of scheme alternative)

unfoldable pub check_schemes : ℕ → CredentialSet → List Text → Option RequirementError
check_schemes index alternative [] = none
check_schemes index alternative (scheme ∷ schemes) = elim (check_scheme index alternative scheme) [
  | some e ↦ some e
  | none ↦ check_schemes index alternative schemes
]

abbrev pub keys : CredentialSet → List Text
keys [] = []
keys ((scheme, _) ∷ set) = scheme ∷ keys set

unfoldable pub check_alternatives : ℕ → List CredentialSet → Option RequirementError
check_alternatives index [] = none
check_alternatives index (alternative ∷ alts) =
    elim (check_schemes index alternative (sort (keys alternative))) [
      | some e ↦ some e
      | none ↦ check_alternatives (index + 1) alts
    ]

-- `validateRequirementSet`; `none` is the nil error.
unfoldable pub validate_requirement_set : RequirementSet → Option RequirementError
unfolding check_alternatives
validate_requirement_set requirement = check_alternatives 0 requirement.alternatives
