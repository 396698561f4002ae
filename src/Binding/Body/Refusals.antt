-- ===== src/Binding/Body/Refusals.antt =====
-- The errors of a body that cannot be read, and the bodies that can.
use golang_postgres_starter.Base.{
  is_empty, ℕ, Text, Bool, true, false, ◌&&◌, ltb, if◌then◌else◌, nat_eq, text_eq, List, [], ◌∷◌,
  length, ◌≤◌, Option, none, some, ◌≡◌, ◌≢◌, refl, inl, inr, ◌⊎◌, Bool-cases, arith, if-both,
}
use golang_postgres_starter.Strconv.{ℤ}
use golang_postgres_starter.Problem.{ProblemKindId, bad_request, payload_too_large}
use golang_postgres_starter.Problem.Errors.{GoError}
use golang_postgres_starter.Binding.Body.{
  JsonError, json_problem, unknown_member, semantic_or, syntactic_or,
}
use golang_postgres_starter.Binding.Wire.{Wire, End, finished, over_limit, broken, refuse, limited}

-- A problem with one of two statuses: a bad request or a payload that is too large.
abbrev pub IsUnreadable : GoError → Type 0
IsUnreadable err =
    (kind : ProblemKindId) × (detail : Text) × (err ≡ refuse kind detail)
    × ((kind ≡ bad_request) ⊎ (kind ≡ payload_too_large))

pub too_large_problem : (detail : Text) → IsUnreadable (refuse payload_too_large detail)
too_large_problem detail = (payload_too_large, detail, refl, inr refl)

pub bad_problem : (detail : Text) → IsUnreadable (refuse bad_request detail)
bad_problem detail = (bad_request, detail, refl, inl refl)

unknown_member-IsUnreadable :
    (quote : Text → Text) (pointer : Option Text) (message : Text)
    → IsUnreadable (unknown_member quote pointer message)
unfolding unknown_member
unknown_member-IsUnreadable quote none message = bad_problem _
unknown_member-IsUnreadable quote (some []) message = bad_problem _
unknown_member-IsUnreadable quote (some (c ∷ cs)) message = bad_problem _

semantic_or-IsUnreadable :
    (quote : Text → Text) (pointer : Option Text) (rest : GoError)
    → IsUnreadable rest
    → IsUnreadable (semantic_or quote pointer rest)
semantic_or-IsUnreadable quote none rest h = h
semantic_or-IsUnreadable quote (some pointer) rest h = bad_problem _

syntactic_or-IsUnreadable :
    (quote : Text → Text) (offset : Option ℤ) (rest : GoError)
    → IsUnreadable rest
    → IsUnreadable (syntactic_or quote offset rest)
syntactic_or-IsUnreadable quote none rest h = h
syntactic_or-IsUnreadable quote (some offset) rest h = bad_problem _

pub json_problem-IsUnreadable :
    (quote : Text → Text) (e : JsonError) → IsUnreadable (json_problem quote e)
unfolding json_problem
json_problem-IsUnreadable quote e = if-both IsUnreadable _ _ _ (too_large_problem _) (
    syntactic_or-IsUnreadable quote e.syntactic _ (
      if-both IsUnreadable e.is_unexpected_eof _ _ (bad_problem _) (
        if-both IsUnreadable e.is_unknown_name _ _
          (unknown_member-IsUnreadable quote e.semantic e.message)
          (semantic_or-IsUnreadable quote e.semantic _
            (if-both IsUnreadable e.is_eof _ _ (bad_problem _) (bad_problem _))))))

-- What a stream that ends well says of the wire.
pub record IsWhole (limit : ℕ) (wire : Wire) : Type 0 where
  pub within : length wire.bytes ≤ limit
  pub intact : wire.is_broken ≡ false

whole_end : (b : Bool) → ◌≡◌ {A = End} (if b then broken else finished) finished → b ≡ false
whole_end true h = cc
whole_end false h = refl

pub has_bytes :
    (required : Bool) (bytes : List ℕ)
    → (required && is_empty bytes) ≡ false
    → required ≡ true
    → bytes ≢ []
has_bytes true [] h needed = cc
has_bytes true (b ∷ bs) h needed = λ e. cc
has_bytes false bytes h needed = cc

over-ne-finished : over_limit ≢ finished
over-ne-finished h = cc

pub limited-finished :
    (limit : ℕ) (wire : Wire)
    → (limited limit wire).end ≡ finished
    → IsWhole limit wire × (limited limit wire ≡ record { bytes = wire.bytes; end = finished })
unfolding limited
limited-finished limit wire h = elim (Bool-cases (ltb limit (length wire.bytes))) [
  | inl more ↦ absurd (over-ne-finished (rw more at h))
  | inr fits ↦
      let intact = whole_end wire.is_broken (rw fits at h) in
      (record { within = ground (arith, fits); intact = intact }, rw fits (rw intact refl))
]
