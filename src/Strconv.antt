-- ===== src/Strconv.antt =====
-- The parts of Go's strconv that the program uses: whole numbers in base 10, as text and back.
pub mod RoundTrip
mod Tests
use golang_postgres_starter.Base.{
  is_digit, ℕ, zero, suc, ◌+◌, ◌-◌, ◌*◌, ◌/◌, ◌%◌, ◌^◌, Text, Bool, ltb, leb, ◌==◌, nat_eq, [], ◌∷◌,
  ◌++◌, if◌then◌else◌, Option, none, some,
}

-- `negsuc n` is -(n + 1).
pub data ℤ : Type 0 where
  pos : ℕ → ℤ
  negsuc : ℕ → ℤ

abbrev pub negate : ℕ → ℤ
negate zero = pos 0
negate (suc n) = negsuc n

-- The digits of a number, with fuel; more fuel than the number is enough.
unfoldable pub digits : ℕ → ℕ → Text
digits zero n = []
digits (suc fuel) n =
    let rest = digits fuel (n / 10) in
    if ltb n 10 then (b'0' + n) ∷ [] else rest ++ ((b'0' + n % 10) ∷ [])

unfoldable pub format_nat : ℕ → Text
unfolding digits
format_nat n = digits (suc n) n

-- strconv.FormatInt with base 10.
unfoldable pub format_int : ℤ → Text
unfolding format_nat
format_int (pos n) = format_nat n
format_int (negsuc n) = b'-' ∷ format_nat (suc n)

-- The loop over the digits.
unfoldable pub parse_digits : ℕ → Text → Option ℕ
parse_digits acc [] = some acc
parse_digits acc (c ∷ cs) =
    let rest = parse_digits (acc * 10 + (c - b'0')) cs in if is_digit c then rest else none

unfoldable pub parse_nat : Text → Option ℕ
unfolding parse_digits
parse_nat [] = none
parse_nat (c ∷ cs) = parse_digits 0 (c ∷ cs)

-- strconv.ParseUint with base 10, for a type of `bits` bits; `none` is any error.
unfoldable pub parse_uint : ℕ → Text → Option ℕ
unfolding parse_nat
parse_uint bits s = elim (parse_nat s) [
  | none ↦ none
  | some n ↦ (if ltb n (2 ^ bits) then some n else none)
]

abbrev pub within : Bool → ℤ → Option ℤ
within ok v = if ok then some v else none

-- The magnitude behind the sign.
unfoldable pub parse_magnitude : ℕ → Bool → Text → Option ℤ
unfolding parse_nat
parse_magnitude bits negative s = elim (parse_nat s) [
  | none ↦ none
  | some n ↦
      if negative
      then within (leb n (2 ^ (bits - 1))) (negate n)
      else within (ltb n (2 ^ (bits - 1))) (pos n)
]

-- strconv.ParseInt with base 10; strconv.Atoi has 64 bits.
unfoldable pub parse_int : ℕ → Text → Option ℤ
unfolding parse_magnitude
parse_int bits [] = none
parse_int bits (c ∷ cs) =
    if c == b'-'
    then parse_magnitude bits Bool.true cs
    else if c == b'+'
    then parse_magnitude bits Bool.false cs
    else parse_magnitude bits Bool.false (c ∷ cs)
