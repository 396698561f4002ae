-- ===== src/Binding/Plan/Promises.antt =====
-- What a plan of a request promises of its fields, and how that grows with a field.
use golang_postgres_starter.Base.{
  ℕ, suc, ◌≤◌, ◌<◌, Bool, true, false, ◌||◌, nat_eq, text_eq, List, [], ◌∷◌, ◌++◌, none, some, ◌≡◌,
  refl, arith, All,
}
use golang_postgres_starter.Binding.{Raw, Value, Parameters, lookup_raw}
use golang_postgres_starter.Binding.Bind.{FieldBinder, RequestPlan}
use golang_postgres_starter.Binding.Plan.{is_query}

-- The fields have indexes from `low` up, below `high`, each above the one before.
abbrev pub Ascends : {L : Type 0} → ℕ → ℕ → List (FieldBinder L) → Type 0
Ascends low high [] = Unit {0}
Ascends low high (f ∷ fs) = (low ≤ f.index) × (f.index < high) × Ascends (suc f.index) high fs

-- A field whose setter takes whatever its source yields.
abbrev pub IsSure : {L : Type 0} → FieldBinder L → Type 0
IsSure {L} f =
    (r : Parameters) (raw : Raw)
    → lookup_raw f.source f.name r ≡ some raw
    → (v : Value L) → (w : Value L) × (f.assign v raw ≡ some w)

-- A plan whose fields have indexes below `high`.
pub record IsSound {L B : Type 0} (high : ℕ) (plan : RequestPlan L B) : Type 0 where
  pub ascends : Ascends 0 high plan.fields
  pub queried : All (λ f. is_query f.source ≡ true → plan.has_query ≡ true) plan.fields
  pub bodiless : plan.can_fail_bind ≡ false → plan.body ≡ none
  pub sure : plan.can_fail_bind ≡ false → All IsSure plan.fields

pub Ascends-append :
    {L : Type 0} (low high : ℕ) (fs : List (FieldBinder L)) (f : FieldBinder L)
    → Ascends low high fs
    → low ≤ high
    → f.index ≡ high
    → Ascends low (suc high) (fs ++ (f ∷ []))
Ascends-append low high [] f given small here =
    (omega (arith, small, here), omega (arith, here), tt)
Ascends-append low high (g ∷ gs) f (le, lt, rest) small here =
    (le, omega (arith, lt), Ascends-append (suc g.index) high gs f rest lt here)

pub Ascends-widen :
    {L : Type 0} (low high : ℕ) (fs : List (FieldBinder L))
    → Ascends low high fs
    → Ascends low (suc high) fs
Ascends-widen low high [] given = tt
Ascends-widen low high (f ∷ fs) (le, lt, rest) =
    (le, omega (arith, lt), Ascends-widen (suc f.index) high fs rest)

pub or_left : (a b : Bool) → (a || b) ≡ false → a ≡ false
or_left false b h = refl
or_left true b h = h

pub or_right : (a b : Bool) → (a || b) ≡ false → b ≡ false
or_right false b h = h
or_right true b h = cc

pub or_true : (a b : Bool) → a ≡ true → (a || b) ≡ true
or_true true b h = refl
or_true false b h = cc

pub true_or : (a b : Bool) → b ≡ true → (a || b) ≡ true
true_or true b h = refl
true_or false b h = h
