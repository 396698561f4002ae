-- ===== src/Password/Tests.antt =====
-- Runs of the password hashes over a toy key derivation, and their theorem there.
use golang_postgres_starter.Base.{
  ℕ, Text, codes, Bool, true, false, nat_eq, text_eq, List, [], ◌∷◌, none, some, ◌≡◌, refl, arith,
  ◌↔◌, split, has_prefix, drop_prefix,
}
use golang_postgres_starter.Strconv.{digits, format_nat, parse_digits, parse_uint, parse_int}
use golang_postgres_starter.Base64.{encode_to_string, decode_string}
use golang_postgres_starter.Problem.Errors.{plain, Result, ok, failed}
use golang_postgres_starter.Password.{
  Config, derive, decode_hash, hash_password, compare_password_and_hash, format_hash, format_costs,
  format_version, scan_costs, scan_version, invalid_hash, incompatible_version,
}
use golang_postgres_starter.Password.Toy.{toy, toy_key, toy-DerivesKeys}
use golang_postgres_starter.Password.RoundTrip.{IsUsable, hash_password-compare}

abbrev small : Config
small = record { memory = 64; iterations = 3; parallelism = 2; salt_length = 3; key_length = 5 }

abbrev salt : List ℕ
salt = 1 ∷ 2 ∷ 255 ∷ []

abbrev constant_bytes : ℕ → Result (List ℕ)
constant_bytes n = ok salt

abbrev small_hash : Text
small_hash = codes "$argon2id$v=19$m=64,t=3,p=2$AQL/$cHcBAv8"

password_runs : Unit {0}
unfolding hash_password compare_password_and_hash decode_hash format_hash format_costs
    format_version scan_costs scan_version split has_prefix drop_prefix digits parse_digits
    parse_uint parse_int encode_to_string decode_string toy_key
password_runs = tt

runs :
    (hash_password toy constant_bytes small (codes "pw") ≡ some (ok small_hash))
    × (compare_password_and_hash toy (codes "pw") small_hash ≡ some (ok true))
    × (compare_password_and_hash toy (codes "pW") small_hash ≡ some (ok false))
    × (decode_hash 19 (codes "$argon2id$v=19$m=64,t=3,p=2$AQL/") ≡ failed invalid_hash)
    × (decode_hash 19 (codes "$argon2id$v=18$m=64,t=3,p=2$AQL/$cHcBAv8")
        ≡ failed incompatible_version)
    × (decode_hash 19 (codes "$argon2id$v=19$m=64,t=3,p=256$AQL/$cHcBAv8")
        ≡ failed (plain (codes "fmt")))
    × (decode_hash 19 (codes "$argon2id$v=19$m=64,t=3,p=2$AQL/$cHcBAv9")
        ≡ failed (plain (codes "base64")))
    × (compare_password_and_hash toy (codes "pw") (codes "$argon2id$v=19$m=64,t=0,p=2$AQL/$cHcBAv8")
        ≡ none)
unfolding password_runs format_nat
runs = (refl, refl, refl, refl, refl, refl, refl, refl)

small-IsUsable : IsUsable small
small-IsUsable = omega arith

hash_password-compare_example :
    (hash : Text) × (hash_password toy constant_bytes small (codes "pw") ≡ some (ok hash))
    × (compare_password_and_hash toy (codes "pw") hash ≡ some (ok true))
    × ((other : Text)
        → (same : Bool) × (compare_password_and_hash toy other hash ≡ some (ok same))
          × ((same ≡ true) ↔ (derive toy small other salt ≡ derive toy small (codes "pw") salt)))
hash_password-compare_example =
    hash_password-compare toy (omega arith) toy-DerivesKeys small small-IsUsable salt refl
      (omega arith) constant_bytes (codes "pw") refl
