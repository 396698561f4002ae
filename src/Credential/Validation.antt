-- ===== src/Credential/Validation.antt =====
-- What `validateRequirementSet` accepts, and that composition repeats no alternative.
use golang_postgres_starter.Base.{
  ℕ, ◌+◌, Text, Bool, true, false, ◌==◌, text_eq, list_beq_iff, List, [], ◌∷◌, ◌++◌, append-nil,
  append_assoc, none, ◌≡◌, refl, ◌↔◌, ◌⊎◌, inl, inr, All, arith, lookup, insert, Bool-cases,
  Option-cases, nat_eq, All-sort, sort,
}
use golang_postgres_starter.Credential.{
  CredentialSet, RequirementSet, is_listed, or, or_all, any_of, unstated, merge_credentials,
  merge_row, merge_table, and, is_known_security_scheme, check_scopes, scopes_of, check_scheme,
  check_schemes, keys, check_alternatives, validate_requirement_set, requires, add_schemes, of_set,
}
use golang_postgres_starter.Credential.Meaning.{Holds, Meets, Holds-lookup, Holds-insert}

-- A scheme of an alternative is known and declares no scope.
abbrev pub IsPlain : CredentialSet → Text → Type 0
IsPlain set scheme = (is_known_security_scheme scheme ≡ true) × (scopes_of scheme set ≡ [])

check_scheme_iff :
    (index : ℕ) (set : CredentialSet) (scheme : Text)
    → (check_scheme index set scheme ≡ none) ↔ IsPlain set scheme
unfolding check_scheme
check_scheme_iff index set scheme = by_scopes (scopes_of scheme set) refl
  where
    by_scopes :
        (scopes : List Text)
        → scopes_of scheme set ≡ scopes
        → (check_scheme index set scheme ≡ none) ↔ IsPlain set scheme
    by_scopes [] e = unfold check_scopes in rw e (ground arith)
    by_scopes (scope ∷ scopes) e = rw e (ground arith)

check_schemes_iff :
    (index : ℕ) (set : CredentialSet) (schemes : List Text)
    → (check_schemes index set schemes ≡ none) ↔ All (IsPlain set) schemes
unfolding check_schemes
check_schemes_iff index set [] = ground arith
check_schemes_iff index set (scheme ∷ schemes) =
    ground (arith, check_scheme_iff index set scheme, check_schemes_iff index set schemes)

abbrev pub IsAcceptable : CredentialSet → Type 0
IsAcceptable set = All (IsPlain set) (keys set)

check_alternatives_iff :
    (index : ℕ) (alts : List CredentialSet)
    → (check_alternatives index alts ≡ none) ↔ All IsAcceptable alts
unfolding check_alternatives
check_alternatives_iff index [] = ground arith
check_alternatives_iff index (set ∷ alts) = ground (
  arith,
  check_schemes_iff index set (sort (keys set)),
  All-sort (IsPlain set) (keys set),
  check_alternatives_iff (index + 1) alts,
)

-- A requirement is accepted exactly if every scheme of every alternative is known and has no scope.
pub validate_requirement_set_iff :
    (r : RequirementSet) → (validate_requirement_set r ≡ none) ↔ All IsAcceptable r.alternatives
unfolding validate_requirement_set
validate_requirement_set_iff r = check_alternatives_iff 0 r.alternatives

-- No alternative repeats one before it.
abbrev pub IsNew : List CredentialSet → List CredentialSet → Type 0
IsNew before [] = Unit
IsNew before (alt ∷ alts) = (is_listed alt before ≡ false) × IsNew (before ++ alt ∷ []) alts

IsNew-append :
    (before alts : List CredentialSet) (alt : CredentialSet)
    → IsNew before alts
    → is_listed alt (before ++ alts) ≡ false
    → IsNew before (alts ++ alt ∷ [])
IsNew-append before [] alt h e = (rw append-nil at e, tt)
IsNew-append before (a ∷ alts) alt (ha, h) e =
    (ha, IsNew-append (before ++ a ∷ []) alts alt h (rw append_assoc e))

abbrev pub IsDeduped : RequirementSet → Type 0
IsDeduped r = IsNew [] r.alternatives

or-IsDeduped : (r : RequirementSet) (alt : CredentialSet) → IsDeduped r → IsDeduped (or r alt)
unfolding or
or-IsDeduped r alt h = elim (Bool-cases (is_listed alt r.alternatives)) [
  | inl old ↦ rw old h
  | inr new ↦ rw new (IsNew-append [] r.alternatives alt h new)
]

or_all-IsDeduped :
    (out : RequirementSet) (alts : List CredentialSet) → IsDeduped out → IsDeduped (or_all out alts)
unfolding or_all
or_all-IsDeduped out [] h = h
or_all-IsDeduped out (alt ∷ alts) h = or_all-IsDeduped (or out alt) alts (or-IsDeduped out alt h)

merge_row-IsDeduped :
    (left : CredentialSet) (rights : List CredentialSet) (out : RequirementSet)
    → IsDeduped out
    → IsDeduped (merge_row left rights out)
unfolding merge_row
merge_row-IsDeduped left [] out h = h
merge_row-IsDeduped left (right ∷ rights) out h =
    merge_row-IsDeduped left rights _ (or-IsDeduped out (merge_credentials left right) h)

merge_table-IsDeduped :
    (lefts rights : List CredentialSet) (out : RequirementSet)
    → IsDeduped out
    → IsDeduped (merge_table lefts rights out)
unfolding merge_table
merge_table-IsDeduped [] rights out h = h
merge_table-IsDeduped (left ∷ lefts) rights out h =
    merge_table-IsDeduped lefts rights _ (merge_row-IsDeduped left rights out h)

-- Composition keeps the alternatives free of repetition: of requirements without a repeated
-- alternative, `And` makes one without, and what `AnyOf` builds never has one.
pub composition-IsDeduped :
    (r other : RequirementSet) (alts : List CredentialSet)
    → IsDeduped r
    → IsDeduped other
    → IsDeduped (and r other) × IsDeduped (any_of alts)
unfolding and any_of
composition-IsDeduped r other alts h k = (
  elim (Bool-cases (unstated other)) [
    | inl e ↦ rw e h
    | inr e ↦ elim (Bool-cases (unstated r)) [
      | inl e' ↦ rw (e, e') k
      | inr e' ↦ rw (e, e') (merge_table-IsDeduped r.alternatives other.alternatives _ tt)
    ]
  ],
  or_all-IsDeduped _ alts tt,
)

Holds-add_schemes :
    (held : Text → Bool) (set : CredentialSet) (schemes : List Text)
    → Holds held (add_schemes set schemes)
      ↔ (Holds held set × All (λ scheme. (scheme ≡ []) ⊎ (held scheme ≡ true)) schemes)
unfolding add_schemes
Holds-add_schemes held set [] = ground arith
Holds-add_schemes held set (scheme ∷ schemes) = elim (Bool-cases (scheme == [])) [
  | inl blank ↦
      rw blank (ground (arith, Holds-add_schemes held set schemes, list_beq_iff scheme []))
  | inr named ↦ elim (Option-cases (lookup scheme set)) [
    | inl missing ↦
        rw (named, missing)
          (ground (
            arith,
            Holds-add_schemes held (insert scheme [] set) schemes,
            Holds-insert held scheme [] set,
            list_beq_iff scheme [],
          ))
    | inr (scopes, found) ↦
        rw (named, found)
          (ground (
            arith,
            Holds-add_schemes held set schemes,
            Holds-lookup held scheme set scopes,
            list_beq_iff scheme [],
          ))
  ]
]

of_set-Meets : (held : Text → Bool) (set : CredentialSet) → Meets held (of_set set) ↔ Holds held set
unfolding of_set
of_set-Meets held [] = ground arith
of_set-Meets held (entry ∷ set) = ground arith

-- `Requires` asks for every scheme that it names, the empty name aside.
pub requires-Meets :
    (held : Text → Bool) (schemes : List Text)
    → Meets held (requires schemes) ↔ All (λ scheme. (scheme ≡ []) ⊎ (held scheme ≡ true)) schemes
unfolding requires
requires-Meets held schemes =
    let (to, from) = of_set-Meets held (add_schemes [] schemes) in
    let (to', from') = Holds-add_schemes held [] schemes in
    ((λ m. (to' (to m)).1), λ h. from (from' (tt, h)))
