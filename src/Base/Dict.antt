-- ===== src/Base/Dict.antt =====
-- Go's maps: association lists in which the first entry of a key counts.
use mathlib.Core.Path.{◌≡◌, refl}
use mathlib.Core.Option.{Option, none, some}
use mathlib.Core.List.{List, [], ◌∷◌}
use native.Mathlib.Omega.{arith}
use golang_postgres_starter.Base.Tests.{Comparable, ◌==◌, if◌then◌else◌}

module _ {ℓ κ} {K : Type ℓ} {V : Type κ} ⦃c : Comparable K⦄ where
  -- m[key]
  unfoldable pub lookup : K → List (K × V) → Option V
  lookup key [] = none
  lookup key ((name, value) ∷ rest) = if key == name then some value else lookup key rest

  -- m[key] = value
  unfoldable pub insert : K → V → List (K × V) → List (K × V)
  insert key value [] = (key, value) ∷ []
  insert key value ((name, old) ∷ rest) =
      if key == name then (name, value) ∷ rest else (name, old) ∷ insert key value rest

  -- A write is seen at its own key and nowhere else.
  pub lookup-insert :
      (wanted key : K) (value : V) (m : List (K × V))
      → lookup wanted (insert key value m) ≡ (if wanted == key then some value else lookup wanted m)
  unfolding lookup insert
  lookup-insert wanted key value [] = refl
  lookup-insert wanted key value ((name, old) ∷ rest) =
      let ih = lookup-insert wanted key value rest in
      ground (arith, c.same_iff wanted key, c.same_iff wanted name, c.same_iff key name)
