-- ===== src/Password/Scan.antt =====
-- What the formats of a hash print is scanned again.
use golang_postgres_starter.Base.{
  is_digit, ℕ, suc, ◌^◌, ◌<◌, Text, codes, true, false, nat_eq, List, [], ◌∷◌, ◌++◌, some,
  has_prefix, drop_prefix, has_prefix-append, drop_prefix-append, ◌≡◌, ◌≢◌, refl, sym, ◌∙◌, ap,
  arith, Lacks, All-append, All-map, map, append-nil,
}
use golang_postgres_starter.Strconv.{pos, format_nat, parse_int, format_int}
use golang_postgres_starter.Strconv.RoundTrip.{
  AllDigits, digits-AllDigits, digits-ne-nil, parse_uint-format_nat, parse_int-format_int,
}
use golang_postgres_starter.Base64.{encode_to_string, letter, groups}
use golang_postgres_starter.Password.{
  Config, dollar, format_version, format_costs, skip_space, take_digits, read_number, scan_uint,
  match_literal, scan_field, take_sign, read_signed, scan_version, scan_costs,
}

-- The rest does not go on with a digit.
abbrev pub Stops : Text → Type 0
Stops [] = Unit
Stops (c ∷ s) = is_digit c ≡ false

take_digits-append :
    (ds rest : Text) → AllDigits ds → Stops rest → take_digits (ds ++ rest) ≡ (ds, rest)
unfolding take_digits
take_digits-append [] [] a s = refl
take_digits-append [] (c ∷ rest) a s = rw s
take_digits-append (d ∷ ds) rest (h, a) s = rw (h, take_digits-append ds rest a s)

skip_space-digits :
    (ds rest : Text) → AllDigits ds → ds ≢ [] → skip_space (ds ++ rest) ≡ some (ds ++ rest)
unfolding skip_space
skip_space-digits [] rest a h = absurd (h refl)
skip_space-digits (d ∷ ds) rest (ok, a) h = ground arith

take_sign-digits :
    (ds rest : Text) → AllDigits ds → ds ≢ [] → take_sign (ds ++ rest) ≡ ([], ds ++ rest)
unfolding take_sign
take_sign-digits [] rest a h = absurd (h refl)
take_sign-digits (d ∷ ds) rest (ok, a) h = ground arith

format_nat-AllDigits : (n : ℕ) → AllDigits (format_nat n)
unfolding format_nat
format_nat-AllDigits n = digits-AllDigits (suc n) n

format_nat-ne-nil : (n : ℕ) → format_nat n ≢ []
unfolding format_nat
format_nat-ne-nil n = digits-ne-nil (suc n) n (omega arith)

scan_uint-format_nat :
    (bits n : ℕ) (rest : Text)
    → n < 2 ^ bits
    → Stops rest
    → scan_uint bits (format_nat n ++ rest) ≡ some (n, rest)
unfolding scan_uint read_number
scan_uint-format_nat bits n rest h s =
    rw
      (
        skip_space-digits (format_nat n) rest (format_nat-AllDigits n) (format_nat-ne-nil n),
        scan_uint,
      )
      (rw (take_digits-append (format_nat n) rest (format_nat-AllDigits n) s)
        (rw (parse_uint-format_nat bits n h, read_number) refl))

scan_field-format_nat :
    (bits n : ℕ) (literal rest : Text)
    → n < 2 ^ bits
    → Stops rest
    → scan_field bits literal (literal ++ (format_nat n ++ rest)) ≡ some (n, rest)
unfolding scan_field match_literal
scan_field-format_nat bits n literal rest h s =
    rw
      (
        has_prefix-append literal (format_nat n ++ rest),
        drop_prefix-append literal (format_nat n ++ rest),
        scan_field,
      )
      (scan_uint-format_nat bits n rest h s)

-- At the end of the text.
scan_field-format_nat_last :
    (bits n : ℕ) (literal : Text)
    → n < 2 ^ bits
    → scan_field bits literal (literal ++ format_nat n) ≡ some (n, [])
scan_field-format_nat_last bits n literal h =
    ap (λ s. scan_field bits literal (literal ++ s)) (sym (append-nil (format_nat n)))
    ∙ scan_field-format_nat bits n literal [] h tt

scan_sign-digits :
    (ds : Text)
    → AllDigits ds
    → ds ≢ []
    → (skip_space ds ≡ some ds) × (take_sign ds ≡ ([], ds)) × (take_digits ds ≡ (ds, []))
scan_sign-digits ds a h =
    let same = append-nil ds in
    (
      ap skip_space (sym same) ∙ skip_space-digits ds [] a h ∙ ap some same,
      ap take_sign (sym same) ∙ take_sign-digits ds [] a h ∙ ap (λ (s : Text). ([], s)) same,
      ap take_digits (sym same) ∙ take_digits-append ds [] a tt,
    )

parse_int-format_nat : (n : ℕ) → n < 2 ^ 63 → parse_int 64 (format_nat n) ≡ some (pos n)
unfolding format_int
parse_int-format_nat n h = parse_int-format_int 64 (pos n) h

-- The version that a hash is written with is read back.
pub scan_version-format_version :
    (version : ℕ) → version < 2 ^ 63 → scan_version (format_version version) ≡ some (pos version)
unfolding scan_version format_version match_literal has_prefix drop_prefix read_signed
scan_version-format_version version h =
    let (skipped, signed, taken) =
      scan_sign-digits (format_nat version) (format_nat-AllDigits version)
        (format_nat-ne-nil version) in
    rw (skipped, scan_version)
      (rw (signed, read_signed) (rw (taken, read_signed) (parse_int-format_nat version h)))

-- The costs fit the types of their fields.
pub record IsConfig (c : Config) : Type 0 where
  pub memory_fits : c.memory < 2 ^ 32
  pub iterations_fit : c.iterations < 2 ^ 32
  pub parallelism_fits : c.parallelism < 2 ^ 8

-- The costs that a hash is written with are read back.
pub scan_costs-format_costs :
    (c : Config)
    → IsConfig c
    → scan_costs (format_costs c) ≡ some (c.memory, c.iterations, c.parallelism)
unfolding scan_costs format_costs
scan_costs-format_costs c fits =
    rw
      (
        scan_field-format_nat 32 c.memory (codes "m=")
            (codes ",t=" ++ (format_nat c.iterations ++ (codes ",p=" ++ format_nat c.parallelism)))
            fits.memory_fits refl,
        scan_costs,
      )
      (rw
        (
          scan_field-format_nat 32 c.iterations (codes ",t=")
              (codes ",p=" ++ format_nat c.parallelism) fits.iterations_fit refl,
          scan_costs,
        )
        (rw
          (
            scan_field-format_nat_last 8 c.parallelism (codes ",p=") fits.parallelism_fits,
            scan_costs,
          )
          refl))

-- No part of a hash has a dollar sign in it.
AllDigits-Lacks : (s : Text) → AllDigits s → Lacks dollar s
AllDigits-Lacks s a = All-map (λ c. is_digit c ≡ true) (λ c. c ≢ dollar) (λ c h e. ground arith) s a

number-Lacks : (n : ℕ) → Lacks dollar (format_nat n)
number-Lacks n = AllDigits-Lacks (format_nat n) (format_nat-AllDigits n)

letter-ne-dollar : (v : ℕ) → letter v ≢ dollar
unfolding letter
letter-ne-dollar v e = ground arith

letters-Lacks : (vs : List ℕ) → Lacks dollar (map letter vs)
letters-Lacks [] = tt
letters-Lacks (v ∷ vs) = (letter-ne-dollar v, letters-Lacks vs)

pub format_version-Lacks : (version : ℕ) → Lacks dollar (format_version version)
unfolding format_version
format_version-Lacks version = ground (arith, number-Lacks version)

pub format_costs-Lacks : (c : Config) → Lacks dollar (format_costs c)
unfolding format_costs
format_costs-Lacks c =
    let append = All-append (λ b. b ≢ dollar) in
    append (codes "m=") _ (ground arith) (
      append (format_nat c.memory) _ (number-Lacks c.memory) (
        append (codes ",t=") _ (ground arith) (
          append (format_nat c.iterations) _ (number-Lacks c.iterations)
            (append (codes ",p=") _ (ground arith) (number-Lacks c.parallelism)))))

pub encode_to_string-Lacks : (bs : List ℕ) → Lacks dollar (encode_to_string bs)
unfolding encode_to_string
encode_to_string-Lacks bs = letters-Lacks (groups bs)
