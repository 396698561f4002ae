-- ===== src/Credential/Meaning.antt =====
-- The algebra against its meaning: which callers meet a requirement.
use golang_postgres_starter.Base.{
  Text, Bool, true, false, text_eq, list_beq_iff, List, [], ◌∷◌, some, ◌≡◌, refl, ◌↔◌, ◌⊎◌, ◌≢◌,
  inl, inr, All, Any, Any-append_left, Any-append_right, Any-append_cases, arith, lookup, insert,
  Bool-cases, Option-cases, nat_eq,
}
use mathlib.Core.List.{concat-ne-nil}
use golang_postgres_starter.Credential.{
  CredentialSet, RequirementSet, covered, same_credentials, is_listed, or, or_all, any_of, unstated,
  has_empty, allows_anonymous, merge_credentials, merge_row, merge_table, and, add_scopes,
}

module _ (held : Text → Bool) where
  -- The caller holds a credential for every scheme of the alternative.
  abbrev pub Holds : CredentialSet → Type 0
  Holds = All (λ entry. held entry.0 ≡ true)

  -- A requirement that states nothing asks for nothing.
  abbrev pub Meets : RequirementSet → Type 0
  Meets r = (r.alternatives ≡ []) ⊎ Any Holds r.alternatives

  pub Holds-lookup :
      (scheme : Text) (b : CredentialSet) (scopes : List Text)
      → Holds b
      → lookup scheme b ≡ some scopes
      → held scheme ≡ true
  unfolding lookup
  Holds-lookup scheme [] scopes h e = cc
  Holds-lookup scheme ((other, s) ∷ b) scopes (ho, h) e =
      ground (arith, list_beq_iff scheme other, Holds-lookup scheme b scopes h)

  Holds-covered : (a b : CredentialSet) → covered a b ≡ true → Holds b → Holds a
  unfolding covered
  Holds-covered [] b e h = tt
  Holds-covered ((scheme, scopes) ∷ a) b e h = elim (Option-cases (lookup scheme b)) [
    | inl missing ↦ absurd (ground arith)
    | inr (other, found) ↦ (Holds-lookup scheme b other h found, Holds-covered a b (ground arith) h)
  ]

  Holds-is_listed :
      (alt : CredentialSet) (alts : List CredentialSet)
      → is_listed alt alts ≡ true
      → Holds alt
      → Any Holds alts
  unfolding is_listed same_credentials
  Holds-is_listed alt [] e h = cc
  Holds-is_listed alt (existing ∷ alts) e h = elim (Bool-cases (covered existing alt)) [
    | inl c ↦ elim (Bool-cases (is_listed alt alts)) [
      | inl l ↦ inr (Holds-is_listed alt alts l h)
      | inr n ↦ inl (Holds-covered existing alt c h)
    ]
    | inr n ↦ inr (Holds-is_listed alt alts (ground arith) h)
  ]

  -- Adding an alternative adds exactly the callers who hold it.
  pub Any-or :
      (r : RequirementSet) (alt : CredentialSet)
      → Any Holds (or r alt).alternatives ↔ (Any Holds r.alternatives ⊎ Holds alt)
  unfolding or
  Any-or r alt = elim (Bool-cases (is_listed alt r.alternatives)) [
    | inl old ↦ rw old (inl, λ c. elim c [ inl h ↦ h | inr h ↦ Holds-is_listed alt _ old h ])
    | inr new ↦ rw new (
      (λ h. elim (Any-append_cases Holds r.alternatives (alt ∷ []) h) [
        | inl a ↦ inl a
        | inr (inl b) ↦ inr b
        | inr (inr b) ↦ absurd b
      ]),
      λ c. elim c [
        | inl h ↦ Any-append_left Holds r.alternatives _ h
        | inr h ↦ Any-append_right Holds r.alternatives _ (inl h)
      ],
    )
  ]

  pub Holds-insert :
      (scheme : Text) (scopes : List Text) (m : CredentialSet)
      → Holds (insert scheme scopes m) ↔ ((held scheme ≡ true) × Holds m)
  unfolding insert
  Holds-insert scheme scopes [] = ground arith
  Holds-insert scheme scopes ((other, s) ∷ m) =
      ground (arith, list_beq_iff scheme other, Holds-insert scheme scopes m)

  -- A merged alternative is held by exactly the callers who hold both.
  pub Holds-merge_credentials :
      (a b : CredentialSet) → Holds (merge_credentials a b) ↔ (Holds a × Holds b)
  unfolding merge_credentials
  Holds-merge_credentials a [] = ground arith
  Holds-merge_credentials a ((scheme, scopes) ∷ b) = elim (Option-cases (lookup scheme a)) [
    | inl missing ↦ rw missing (
        ground
          (arith, Holds-merge_credentials (insert scheme scopes a) b, Holds-insert scheme scopes a))
    | inr (existing, found) ↦ rw found (
        ground (
          arith,
          Holds-merge_credentials (insert scheme (add_scopes existing scopes) a) b,
          Holds-insert scheme (add_scopes existing scopes) a,
        ))
  ]

  Any-merge_row :
      (left : CredentialSet) (rights : List CredentialSet) (out : RequirementSet)
      → Any Holds (merge_row left rights out).alternatives
        ↔ (Any Holds out.alternatives ⊎ (Holds left × Any Holds rights))
  unfolding merge_row
  Any-merge_row left [] out = ground arith
  Any-merge_row left (right ∷ rights) out = ground (
    arith,
    Any-merge_row left rights (or out (merge_credentials left right)),
    Any-or out (merge_credentials left right),
    Holds-merge_credentials left right,
  )

  Any-merge_table :
      (lefts rights : List CredentialSet) (out : RequirementSet)
      → Any Holds (merge_table lefts rights out).alternatives
        ↔ (Any Holds out.alternatives ⊎ (Any Holds lefts × Any Holds rights))
  unfolding merge_table
  Any-merge_table [] rights out = ground arith
  Any-merge_table (left ∷ lefts) rights out = ground (
    arith,
    Any-merge_table lefts rights (merge_row left rights out),
    Any-merge_row left rights out,
  )

or-ne-nil : (r : RequirementSet) (alt : CredentialSet) → (or r alt).alternatives ≢ []
unfolding or is_listed
or-ne-nil r alt = elim (Bool-cases (is_listed alt r.alternatives)) [
  | inl old ↦ rw old (λ e. cc (listed_in_nil r.alternatives e old))
  | inr new ↦ rw new (concat-ne-nil alt r.alternatives)
]
  where
    listed_in_nil :
        (alts : List CredentialSet) → alts ≡ [] → is_listed alt alts ≡ true → false ≡ true
    listed_in_nil [] e h = h
    listed_in_nil (a ∷ alts) e h = cc

merge_row-ne-nil :
    (left : CredentialSet) (rights : List CredentialSet) (out : RequirementSet)
    → (out.alternatives ≢ []) ⊎ (rights ≢ [])
    → (merge_row left rights out).alternatives ≢ []
unfolding merge_row
merge_row-ne-nil left [] out h = ground arith
merge_row-ne-nil left (right ∷ rights) out h =
    merge_row-ne-nil left rights (or out (merge_credentials left right)) (inl (or-ne-nil out _))

merge_table-ne-nil :
    (lefts rights : List CredentialSet) (out : RequirementSet)
    → (out.alternatives ≢ []) ⊎ (lefts ≢ [])
    → rights ≢ []
    → (merge_table lefts rights out).alternatives ≢ []
unfolding merge_table
merge_table-ne-nil [] rights out h k = ground arith
merge_table-ne-nil (left ∷ lefts) rights out h k =
    merge_table-ne-nil lefts rights (merge_row left rights out)
      (inl (merge_row-ne-nil left rights out (inr k))) k

pub stated_cases :
    (r : RequirementSet)
    → ((r.alternatives ≡ []) × (unstated r ≡ true)) ⊎ ((r.alternatives ≢ []) × (unstated r ≡ false))
unfolding unstated
stated_cases r = by_list r.alternatives refl
  where
    by_list :
        (alts : List CredentialSet)
        → r.alternatives ≡ alts
        → ((r.alternatives ≡ []) × (unstated r ≡ true))
          ⊎ ((r.alternatives ≢ []) × (unstated r ≡ false))
    by_list [] e = ground arith
    by_list (a ∷ alts) e = ground arith

-- Composing two guards' requirements is conjunction: a caller meets the combined requirement
-- exactly if the caller meets both, where an unstated requirement asks for nothing.
pub and-Meets :
    (held : Text → Bool) (r other : RequirementSet)
    → Meets held (and r other) ↔ (Meets held r × Meets held other)
unfolding and
and-Meets held r other = elim (stated_cases other) [
  | inl (none_o, e) ↦ rw e ((λ m. (m, inl none_o)), λ m. m.0)
  | inr (some_o, e) ↦ elim (stated_cases r) [
    | inl (none_r, e') ↦ rw (e, e') ((λ m. (inl none_r, m)), λ m. m.1)
    | inr (some_r, e') ↦
        rw (e, e')
          (ground (
            arith,
            Any-merge_table held r.alternatives other.alternatives (record { alternatives = [] }),
            merge_table-ne-nil r.alternatives other.alternatives (record { alternatives = [] })
                (inr some_r) some_o,
          ))
  ]
]

Any-or_all :
    (held : Text → Bool) (out : RequirementSet) (alts : List CredentialSet)
    → Any (Holds held) (or_all out alts).alternatives
      ↔ (Any (Holds held) out.alternatives ⊎ Any (Holds held) alts)
unfolding or_all
Any-or_all held out [] = ground arith
Any-or_all held out (alt ∷ alts) =
    ground (arith, Any-or_all held (or out alt) alts, Any-or held out alt)

or_all-ne-nil :
    (out : RequirementSet) (alts : List CredentialSet)
    → out.alternatives ≢ []
    → (or_all out alts).alternatives ≢ []
unfolding or_all
or_all-ne-nil out [] h = h
or_all-ne-nil out (alt ∷ alts) h = or_all-ne-nil (or out alt) alts (or-ne-nil out alt)

-- `AnyOf` asks for one of the listed alternatives, and for nothing where none is listed.
pub any_of-Meets :
    (held : Text → Bool) (alts : List CredentialSet)
    → Meets held (any_of alts) ↔ ((alts ≡ []) ⊎ Any (Holds held) alts)
unfolding any_of or_all
any_of-Meets held [] = ground arith
any_of-Meets held (alt ∷ alts) = ground (
  arith,
  Any-or_all held (or (record { alternatives = [] }) alt) alts,
  Any-or held (record { alternatives = [] }) alt,
  or_all-ne-nil (or (record { alternatives = [] }) alt) alts (or-ne-nil _ alt),
)

-- Nobody: a caller with no credential at all.
abbrev pub nobody : Text → Bool
nobody _ = false

has_empty_iff : (alts : List CredentialSet) → (has_empty alts ≡ true) ↔ Any (Holds nobody) alts
unfolding has_empty
has_empty_iff [] = ground arith
has_empty_iff ([] ∷ alts) = ground arith
has_empty_iff (((scheme, scopes) ∷ set) ∷ alts) = ground (arith, has_empty_iff alts)

-- The test for anonymous access is right: it holds exactly of a stated requirement that a caller
-- with no credential meets.
pub allows_anonymous_iff :
    (r : RequirementSet) → (allows_anonymous r ≡ true) ↔ ((r.alternatives ≢ []) × Meets nobody r)
unfolding allows_anonymous
allows_anonymous_iff r = by_list r.alternatives
  where
    by_list :
        (alts : List CredentialSet)
        → (has_empty alts ≡ true) ↔ ((alts ≢ []) × ((alts ≡ []) ⊎ Any (Holds nobody) alts))
    by_list [] = ground arith
    by_list (a ∷ alts) = ground (arith, has_empty_iff (a ∷ alts))
