-- ===== src/Password.antt =====
-- pkg/argon2id/argon2id.go: password hashes, as text and back.
pub mod Scan
pub mod RoundTrip
pub mod Toy
mod Tests
use golang_postgres_starter.Base.{
  is_digit, ℕ, ◌+◌, ◌*◌, ◌%◌, ◌^◌, Text, codes, Bool, false, ◌||◌, ◌==◌, nat_eq, text_eq, List, [],
  ◌∷◌, ◌++◌, length, if◌then◌else◌, Option, none, some, split, has_prefix, drop_prefix, is_space,
}
use golang_postgres_starter.Strconv.{ℤ, pos, negsuc, format_nat, parse_uint, parse_int}
use golang_postgres_starter.Base64.{encode_to_string, decode_string}
use golang_postgres_starter.Problem.Errors.{GoError, plain, Result, ok, failed}

pub record Config : Type 0 where
  pub memory : ℕ
  pub iterations : ℕ
  pub parallelism : ℕ
  pub salt_length : ℕ
  pub key_length : ℕ

abbrev pub default_config : Config
default_config = record {
  memory = 64 * 1024;
  iterations = 3;
  parallelism = 2;
  salt_length = 16;
  key_length = 32;
}

-- The package golang.org/x/crypto/argon2: its version, and IDKey of a password, a salt, the
-- iterations, the memory, the parallelism and the length of the key. `none` is its panic.
pub record Argon2 : Type 0 where
  pub version : ℕ
  pub id_key : Text → List ℕ → ℕ → ℕ → ℕ → ℕ → Option (List ℕ)

abbrev pub dollar : ℕ
dollar = b'$'

abbrev pub invalid_hash : GoError
invalid_hash = plain (codes "argon2id: invalid hash format")

abbrev pub incompatible_version : GoError
incompatible_version = plain (codes "argon2id: incompatible version of argon2")

-- The parts of the encoded hash behind its first dollar sign.
unfoldable pub format_version : ℕ → Text
format_version version = codes "v=" ++ format_nat version

unfoldable pub format_costs : Config → Text
format_costs c =
    codes "m="
    ++ (format_nat c.memory
        ++ (codes ",t=" ++ (format_nat c.iterations ++ (codes ",p=" ++ format_nat c.parallelism))))

unfoldable pub format_hash : ℕ → Config → List ℕ → List ℕ → Text
format_hash version c salt hash =
    dollar
    ∷ (codes "argon2id"
        ++ (dollar
            ∷ (format_version version
                ++ (dollar
                    ∷ (format_costs c
                        ++ (dollar
                            ∷ (encode_to_string salt ++ (dollar ∷ encode_to_string hash))))))))

-- fmt.Sscanf: spaces before a number are passed over, but not a line break.
unfoldable pub skip_space : Text → Option Text
skip_space [] = some []
skip_space (c ∷ s) =
    let rest = skip_space s in if c == 10 then none else if is_space c then rest else some (c ∷ s)

unfoldable pub take_digits : Text → Text × Text
take_digits [] = ([], [])
take_digits (c ∷ s) =
    let (taken, rest) = take_digits s in if is_digit c then (c ∷ taken, rest) else ([], c ∷ s)

-- The digits of a number, and what is behind them.
unfoldable pub read_number : ℕ → Text × Text → Option (ℕ × Text)
read_number bits (taken, rest) = elim (parse_uint bits taken) [
  | none ↦ none
  | some n ↦ some (n, rest)
]

-- The verb %d for an unsigned integer of `bits` bits.
unfoldable pub scan_uint : ℕ → Text → Option (ℕ × Text)
unfolding skip_space take_digits read_number
scan_uint bits s = elim (skip_space s) [ none ↦ none | some t ↦ read_number bits (take_digits t) ]

-- The literal text of a format.
unfoldable pub match_literal : Text → Text → Option Text
match_literal literal s = if has_prefix s literal then some (drop_prefix s literal) else none

abbrev pub and_then {ℓ κ} : {A : Type ℓ} {B : Type κ} → Option A → (A → Option B) → Option B
and_then none f = none
and_then (some a) f = f a

-- A literal and a number behind it.
unfoldable pub scan_field : ℕ → Text → Text → Option (ℕ × Text)
unfolding match_literal scan_uint
scan_field bits literal s = and_then (match_literal literal s) (scan_uint bits)

unfoldable pub take_sign : Text → Text × Text
take_sign [] = ([], [])
take_sign (c ∷ s) = if c == b'+' || c == b'-' then (c ∷ [], s) else ([], c ∷ s)

unfoldable pub read_signed : Text × Text → Option ℤ
unfolding take_digits
read_signed (sign, s) = parse_int 64 (sign ++ (take_digits s).0)

-- Sscanf with "v=%d" into an int. What is behind the number is not looked at.
unfoldable pub scan_version : Text → Option ℤ
unfolding match_literal skip_space take_sign read_signed
scan_version s =
    and_then (match_literal (codes "v=") s)
      λ t. and_then (skip_space t) λ u. read_signed (take_sign u)

abbrev pub Costs : Type 0
Costs = ℕ × ℕ × ℕ

-- Sscanf with "m=%d,t=%d,p=%d" into two uint32 and a uint8.
unfoldable pub scan_costs : Text → Option Costs
unfolding scan_field
scan_costs s = and_then (scan_field 32 (codes "m=") s) λ (memory, after_memory).
    and_then (scan_field 32 (codes ",t=") after_memory) λ (iterations, after_iterations).
      and_then (scan_field 8 (codes ",p=") after_iterations)
        λ (parallelism, rest). some (memory, iterations, parallelism)

pub record Decoded : Type 0 where
  pub config : Config
  pub salt : List ℕ
  pub hash : List ℕ

-- The text of the errors of fmt and base64 is not kept.
abbrev pub or_error {ℓ κ} : {A : Type ℓ} {B : Type κ} → Option A → Text → (A → Result B) → Result B
or_error none message next = failed (plain message)
or_error (some a) message next = next a

abbrev pub is_version : ℕ → ℤ → Bool
is_version version (pos n) = n == version
is_version version (negsuc n) = false

abbrev pub u32 : ℕ → ℕ
u32 n = n % 2 ^ 32

-- The parts behind the version.
unfoldable pub decode_rest : Text → Text → Text → Result Decoded
unfolding scan_costs decode_string
decode_rest costs salt hash =
    or_error (scan_costs costs) (codes "fmt") λ (memory, iterations, parallelism).
      or_error (decode_string salt) (codes "base64") λ salt_bytes.
        or_error (decode_string hash) (codes "base64") λ hash_bytes. ok (record {
          config = record {
            memory = memory;
            iterations = iterations;
            parallelism = parallelism;
            salt_length = u32 (length salt_bytes);
            key_length = u32 (length hash_bytes);
          };
          salt = salt_bytes;
          hash = hash_bytes;
        })

unfoldable pub decode_fields : ℕ → Text → Text → Text → Text → Result Decoded
unfolding scan_version decode_rest
decode_fields version v costs salt hash =
    or_error (scan_version v) (codes "fmt") λ n.
      (if is_version version n then decode_rest costs salt hash else failed incompatible_version)

-- What is before the first dollar sign, and the name behind it, are not looked at.
unfoldable pub decode_parts : ℕ → List Text → Result Decoded
unfolding decode_fields
decode_parts version (_ ∷ _ ∷ v ∷ costs ∷ salt ∷ hash ∷ []) =
    decode_fields version v costs salt hash
decode_parts version _ = failed invalid_hash

-- `decodeHash`
unfoldable pub decode_hash : ℕ → Text → Result Decoded
unfolding decode_parts
decode_hash version encoded = decode_parts version (split encoded dollar)

module _ (lib : Argon2) where
  abbrev pub derive : Config → Text → List ℕ → Option (List ℕ)
  derive c password salt = lib.id_key password salt c.iterations c.memory c.parallelism c.key_length

  -- What `HashPassword` does with the salt.
  unfoldable pub hash_with : Config → Text → Result (List ℕ) → Option (Result Text)
  hash_with c password (failed err) = some (failed err)
  hash_with c password (ok salt) = elim (derive c password salt) [
    | none ↦ none
    | some key ↦ some (ok (format_hash lib.version c salt key))
  ]

  -- `HashPassword`; `random` returns so many bytes of crypto/rand.
  unfoldable pub hash_password : (ℕ → Result (List ℕ)) → Config → Text → Option (Result Text)
  unfolding hash_with
  hash_password random c password = hash_with c password (random c.salt_length)

  unfoldable pub compare_decoded : Text → Result Decoded → Option (Result Bool)
  compare_decoded password (failed err) = some (failed err)
  compare_decoded password (ok d) = elim (derive d.config password d.salt) [
    | none ↦ none
    | some other ↦ some (ok (d.hash == other))
  ]

  -- `ComparePasswordAndHash`; the costs are those of the hash, not of the receiver.
  unfoldable pub compare_password_and_hash : Text → Text → Option (Result Bool)
  unfolding compare_decoded decode_hash
  compare_password_and_hash password encoded =
      compare_decoded password (decode_hash lib.version encoded)
