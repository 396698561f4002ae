-- ===== src/Strconv/RoundTrip.antt =====
-- A number's text is read back as the number.
use golang_postgres_starter.Base.{
  is_digit, ℕ, zero, suc, ◌+◌, ◌-◌, ◌*◌, ◌/◌, ◌%◌, ◌^◌, ◌≤◌, ◌<◌, if◌then◌else◌, Text, Bool, true,
  false, ltb, nat_eq, [], ◌∷◌, ◌++◌, Option, none, some, ◌≡◌, ◌≢◌, refl, ◌∙◌, ap, arith, Bool-cases,
  inl, inr, lt→ltb, All, All-append,
}
use golang_postgres_starter.Strconv.{
  ℤ, pos, negsuc, negate, digits, format_nat, format_int, parse_digits, parse_nat, parse_uint,
  parse_magnitude, parse_int,
}

-- A digit text behind another.
abbrev and_then : Option ℕ → Text → Option ℕ
and_then none s = none
and_then (some acc) s = parse_digits acc s

parse_digits-append :
    (acc : ℕ) (s t : Text) → parse_digits acc (s ++ t) ≡ and_then (parse_digits acc s) t
unfolding parse_digits
parse_digits-append acc [] t = refl
parse_digits-append acc (c ∷ cs) t = elim (Bool-cases (is_digit c)) [
  | inl ok ↦ rw ok (parse_digits-append (acc * 10 + (c - b'0')) cs t)
  | inr bad ↦ rw bad refl
]

is_digit_lem : (d : ℕ) → d < 10 → is_digit (b'0' + d) ≡ true
is_digit_lem d h = ground arith

parse_digits-one : (acc d : ℕ) → d < 10 → parse_digits acc ((b'0' + d) ∷ []) ≡ some (acc * 10 + d)
unfolding parse_digits
parse_digits-one acc d h = ground (arith, is_digit_lem d)

pub parse_digits-digits : (fuel n : ℕ) → n < fuel → parse_digits 0 (digits fuel n) ≡ some n
unfolding digits
parse_digits-digits zero n h = absurd (omega arith)
parse_digits-digits (suc fuel) n h = elim (Bool-cases (ltb n 10)) [
  | inl small ↦ rw small (parse_digits-one 0 n (ground arith) ∙ ap some (omega arith))
  | inr big ↦ rw big (
      rw (parse_digits-append 0 (digits fuel (n / 10)) ((b'0' + n % 10) ∷ [])) (
        rw (parse_digits-digits fuel (n / 10) (ground arith))
          (parse_digits-one (n / 10) (n % 10) (omega arith) ∙ ap some (omega arith))))
]

abbrev pub AllDigits : Text → Type 0
AllDigits = All (λ c. is_digit c ≡ true)

pub digits-AllDigits : (fuel n : ℕ) → AllDigits (digits fuel n)
unfolding digits
digits-AllDigits zero n = tt
digits-AllDigits (suc fuel) n = elim (Bool-cases (ltb n 10)) [
  | inl small ↦ rw small (is_digit_lem n (ground arith), tt)
  | inr big ↦ rw big (
      All-append (λ c. is_digit c ≡ true) (digits fuel (n / 10)) ((b'0' + n % 10) ∷ [])
        (digits-AllDigits fuel (n / 10)) (is_digit_lem (n % 10) (omega arith), tt))
]

pub digits-ne-nil : (fuel n : ℕ) → n < fuel → digits fuel n ≢ []
unfolding digits
digits-ne-nil zero n h = absurd (omega arith)
digits-ne-nil (suc fuel) n h = elim (Bool-cases (ltb n 10)) [
  | inl small ↦ rw small (λ e. cc)
  | inr big ↦ rw big (ne_nil (digits fuel (n / 10)))
]
  where
    ne_nil : (s : Text) → s ++ ((b'0' + n % 10) ∷ []) ≢ []
    ne_nil [] e = cc
    ne_nil (c ∷ cs) e = cc

parse_nat-ne_nil : (s : Text) → s ≢ [] → parse_nat s ≡ parse_digits 0 s
unfolding parse_nat
parse_nat-ne_nil [] h = absurd (h refl)
parse_nat-ne_nil (c ∷ cs) h = refl

pub parse_nat-format_nat : (n : ℕ) → parse_nat (format_nat n) ≡ some n
unfolding format_nat
parse_nat-format_nat n =
    parse_nat-ne_nil (digits (suc n) n) (digits-ne-nil (suc n) n (omega arith))
    ∙ parse_digits-digits (suc n) n (omega arith)

pub parse_uint-format_nat : (bits n : ℕ) → n < 2 ^ bits → parse_uint bits (format_nat n) ≡ some n
unfolding parse_uint
parse_uint-format_nat bits n h = ground (arith, parse_nat-format_nat n, lt→ltb n (2 ^ bits))

-- The values of an integer type of `bits` bits.
abbrev pub IsInt : ℕ → ℤ → Type 0
IsInt bits (pos n) = n < 2 ^ (bits - 1)
IsInt bits (negsuc n) = suc n ≤ 2 ^ (bits - 1)

-- A text of digits has no sign.
parse_int-AllDigits :
    (bits : ℕ) (s : Text) → AllDigits s → s ≢ [] → parse_int bits s ≡ parse_magnitude bits false s
unfolding parse_int
parse_int-AllDigits bits [] a h = absurd (h refl)
parse_int-AllDigits bits (c ∷ cs) (ok, a) h = ground arith

parse_int-negative : (bits : ℕ) (s : Text) → parse_int bits (b'-' ∷ s) ≡ parse_magnitude bits true s
unfolding parse_int
parse_int-negative bits s = refl

parse_magnitude-format_nat :
    (bits n : ℕ) (negative : Bool)
    → IsInt bits (if negative then negate n else pos n)
    → parse_magnitude bits negative (format_nat n) ≡ some (if negative then negate n else pos n)
unfolding parse_magnitude
parse_magnitude-format_nat bits zero true h = ground (arith, parse_nat-format_nat 0)
parse_magnitude-format_nat bits (suc n) true h = ground (arith, parse_nat-format_nat (suc n))
parse_magnitude-format_nat bits n false h = ground (arith, parse_nat-format_nat n)

-- The text of a number that the type can hold is read back as that number.
pub parse_int-format_int :
    (bits : ℕ) (v : ℤ) → IsInt bits v → parse_int bits (format_int v) ≡ some v
unfolding format_int format_nat
parse_int-format_int bits (pos n) h =
    parse_int-AllDigits bits (format_nat n) (digits-AllDigits (suc n) n)
      (digits-ne-nil (suc n) n (omega arith))
    ∙ parse_magnitude-format_nat bits n false h
parse_int-format_int bits (negsuc n) h =
    parse_int-negative bits (format_nat (suc n)) ∙ parse_magnitude-format_nat bits (suc n) true h
