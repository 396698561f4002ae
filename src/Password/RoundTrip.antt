-- ===== src/Password/RoundTrip.antt =====
-- A hash is read back as what it was made of, and verifies the passwords that derive its key.
use golang_postgres_starter.Base.{
  some-injective, ℕ, ◌^◌, ◌<◌, ◌≤◌, Text, codes, Bool, true, ◌==◌, nat_eq, text_eq, list_beq_iff,
  List, [], ◌∷◌, length, some, split, join, split-join, ◌≡◌, refl, sym, ◌∙◌, ap, ◌↔◌, arith, All,
  Lacks,
}
use golang_postgres_starter.Base64.{encode_to_string}
use golang_postgres_starter.Base64.RoundTrip.{IsByte, decode_string-encode_to_string}
use golang_postgres_starter.Problem.Errors.{Result, ok}
use golang_postgres_starter.Password.{
  Config, Argon2, dollar, derive, Decoded, decode_rest, decode_fields, decode_parts, decode_hash,
  format_hash, format_version, format_costs, hash_with, hash_password, compare_decoded,
  compare_password_and_hash, u32,
}
use golang_postgres_starter.Password.Scan.{
  IsConfig, scan_version-format_version, scan_costs-format_costs, format_version-Lacks,
  format_costs-Lacks, encode_to_string-Lacks,
}

-- The six parts of a hash.
parts : ℕ → Config → List ℕ → List ℕ → List Text
parts version c salt hash =
    []
    ∷ codes "argon2id"
    ∷ format_version version
    ∷ format_costs c
    ∷ encode_to_string salt
    ∷ encode_to_string hash
    ∷ []

format_hash-join :
    (version : ℕ) (c : Config) (salt hash : List ℕ)
    → format_hash version c salt hash ≡ join (parts version c salt hash) dollar
unfolding format_hash join parts
format_hash-join version c salt hash = refl

name-Lacks : Lacks dollar (codes "argon2id")
name-Lacks = ground arith

split-format_hash :
    (version : ℕ) (c : Config) (salt hash : List ℕ)
    → split (format_hash version c salt hash) dollar ≡ parts version c salt hash
unfolding parts
split-format_hash version c salt hash =
    ap (λ s. split s dollar) (format_hash-join version c salt hash)
    ∙ split-join (parts version c salt hash) dollar (
      (λ e. cc),
      (
        tt,
        (
          name-Lacks,
          (
            format_version-Lacks version,
            (
              format_costs-Lacks c,
              (encode_to_string-Lacks salt, (encode_to_string-Lacks hash, tt)),
            ),
          ),
        ),
      ),
    )

-- What decoding the hash gives.
abbrev pub decoded : Config → List ℕ → List ℕ → Decoded
decoded c salt hash = record {
  config = record c { salt_length = u32 (length salt); key_length = u32 (length hash) };
  salt = salt;
  hash = hash;
}

decode_rest-format :
    (c : Config) (salt hash : List ℕ)
    → IsConfig c
    → All IsByte salt
    → All IsByte hash
    → decode_rest (format_costs c) (encode_to_string salt) (encode_to_string hash)
      ≡ ok (decoded c salt hash)
unfolding decode_rest
decode_rest-format c salt hash fits salt_bytes hash_bytes =
    rw (scan_costs-format_costs c fits, decode_rest)
      (rw (decode_string-encode_to_string salt salt_bytes, decode_rest)
        (rw (decode_string-encode_to_string hash hash_bytes, decode_rest) refl))

-- A written hash is decoded to its costs, its salt and its key, with their lengths, if the costs
-- fit their types.
pub decode_hash-format_hash :
    (version : ℕ) (c : Config) (salt hash : List ℕ)
    → version < 2 ^ 63
    → IsConfig c
    → All IsByte salt
    → All IsByte hash
    → decode_hash version (format_hash version c salt hash) ≡ ok (decoded c salt hash)
unfolding decode_hash decode_parts parts decode_fields
decode_hash-format_hash version c salt hash small fits salt_bytes hash_bytes =
    rw (split-format_hash version c salt hash, decode_hash)
      (rw (scan_version-format_version version small, decode_fields)
        (ground (arith, decode_rest-format c salt hash fits salt_bytes hash_bytes)))

-- What the key derivation promises: with at least one iteration and one thread it does not panic,
-- and it returns so many bytes.
abbrev pub DerivesKeys : Argon2 → Type 0
DerivesKeys lib =
    (c : Config) (password : Text) (salt : List ℕ)
    → 1 ≤ c.iterations
    → 1 ≤ c.parallelism
    → (key : List ℕ) × (derive lib c password salt ≡ some key)
      × (length key ≡ c.key_length)
      × All IsByte key

-- The costs that can be derived with and be written down.
pub record IsUsable (c : Config) : Type 0 where
  pub fits : IsConfig c
  pub iterates : 1 ≤ c.iterations
  pub parallel : 1 ≤ c.parallelism
  pub salt_fits : c.salt_length < 2 ^ 32
  pub key_fits : c.key_length < 2 ^ 32

module _ (lib : Argon2) (small : lib.version < 2 ^ 63) (derives : DerivesKeys lib) (c : Config)
    (usable : IsUsable c) (salt : List ℕ) (salt_length : length salt ≡ c.salt_length)
    (salt_bytes : All IsByte salt) where
  derive-decoded :
      (key : List ℕ) (password : Text)
      → length key ≡ c.key_length
      → derive lib (decoded c salt key).config password salt ≡ derive lib c password salt
  derive-decoded key password sized =
      ap (λ n. lib.id_key password salt c.iterations c.memory c.parallelism n)
        (omega (arith, usable.key_fits))

  compare-format_hash :
      (key : List ℕ) (password : Text) (other : List ℕ)
      → length key ≡ c.key_length
      → All IsByte key
      → derive lib c password salt ≡ some other
      → compare_password_and_hash lib password (format_hash lib.version c salt key)
        ≡ some (ok (key == other))
  unfolding compare_password_and_hash compare_decoded
  compare-format_hash key password other sized key_bytes same =
      rw
        (
          decode_hash-format_hash lib.version c salt key small usable.fits salt_bytes key_bytes,
          compare_password_and_hash,
        )
        (rw (derive-decoded key password sized ∙ same, compare_decoded) refl)

  hash_with-ok :
      (password : Text) (key : List ℕ) (random : ℕ → Result (List ℕ))
      → random c.salt_length ≡ ok salt
      → derive lib c password salt ≡ some key
      → hash_password lib random c password ≡ some (ok (format_hash lib.version c salt key))
  unfolding hash_password hash_with
  hash_with-ok password key random drawn own = rw (drawn, hash_password) (rw (own, hash_with) refl)

  -- Hashing a password with usable costs and random bytes for the salt succeeds, and the hash
  -- verifies exactly the passwords that derive the same key with the same salt and costs, the
  -- password itself among them; the verification never fails, whatever the costs configured by
  -- then.
  pub hash_password-compare :
      (random : ℕ → Result (List ℕ)) (password : Text)
      → random c.salt_length ≡ ok salt
      → (hash : Text) × (hash_password lib random c password ≡ some (ok hash))
        × (compare_password_and_hash lib password hash ≡ some (ok true))
        × ((other : Text)
            → (same : Bool) × (compare_password_and_hash lib other hash ≡ some (ok same))
              × ((same ≡ true) ↔ (derive lib c other salt ≡ derive lib c password salt)))
  hash_password-compare random password drawn =
      let (key, own, sized, key_bytes) = derives c password salt usable.iterates usable.parallel in
      (
        format_hash lib.version c salt key,
        hash_with-ok password key random drawn own,
        compare-format_hash key password key sized key_bytes own
            ∙ ap (λ b. some (ok b)) ((list_beq_iff key key).1 refl),
        (λ other.
            let (key', theirs, _, _) = derives c other salt usable.iterates usable.parallel in
            (
              key == key',
              compare-format_hash key other key' sized key_bytes theirs,
              (
                (λ h. theirs ∙ ap some (sym ((list_beq_iff key key').0 h)) ∙ sym own),
                (λ h.
                    (list_beq_iff key key').1 (some-injective key key' (sym own ∙ sym h ∙ theirs))),
              ),
            )),
      )
