-- ===== src/Password/Toy.antt =====
-- A toy key derivation that keeps what the real one promises.
use golang_postgres_starter.Base.{
  ℕ, zero, suc, ◌%◌, Text, ◌==◌, ◌||◌, nat_eq, List, [], ◌∷◌, ◌++◌, length, if◌then◌else◌, Option,
  none, some, ◌≡◌, refl, ap, arith, All,
}
use golang_postgres_starter.Base64.RoundTrip.{IsByte}
use golang_postgres_starter.Password.{Argon2}
use golang_postgres_starter.Password.RoundTrip.{DerivesKeys}

-- The first bytes of a list, with zeros behind its end.
fit : ℕ → List ℕ → List ℕ
fit zero bs = []
fit (suc n) [] = 0 ∷ fit n []
fit (suc n) (b ∷ bs) = b % 256 ∷ fit n bs

length-fit : (n : ℕ) (bs : List ℕ) → length (fit n bs) ≡ n
unfolding fit
length-fit zero bs = refl
length-fit (suc n) [] = ap suc (length-fit n [])
length-fit (suc n) (b ∷ bs) = ap suc (length-fit n bs)

fit-IsByte : (n : ℕ) (bs : List ℕ) → All IsByte (fit n bs)
unfolding fit
fit-IsByte zero bs = tt
fit-IsByte (suc n) [] = (omega arith, fit-IsByte n [])
fit-IsByte (suc n) (b ∷ bs) = (omega arith, fit-IsByte n bs)

unfoldable pub toy_key : Text → List ℕ → ℕ → ℕ → ℕ → ℕ → Option (List ℕ)
unfolding fit
toy_key password salt iterations memory parallelism key_length =
    if iterations == 0 || parallelism == 0 then none else some (fit key_length (password ++ salt))

abbrev pub toy : Argon2
toy = record { version = 19; id_key = toy_key }

pub toy-DerivesKeys : DerivesKeys toy
unfolding toy_key
toy-DerivesKeys c password salt iterates parallel =
    (fit c.key_length (password ++ salt), ground arith, length-fit _ _, fit-IsByte _ _)
