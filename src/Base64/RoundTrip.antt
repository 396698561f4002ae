-- ===== src/Base64/RoundTrip.antt =====
-- Encoded bytes are decoded to themselves, and are letters.
use golang_postgres_starter.Base.{
  ℕ, ◌<◌, false, ◌||◌, ◌==◌, nat_eq, List, [], ◌∷◌, some, map, ◌≡◌, refl, All, arith,
}
use golang_postgres_starter.Base64.{
  letter, value_of, groups, encode_to_string, values, bytes, decode_string,
}

abbrev pub IsByte : ℕ → Type 0
IsByte b = b < 256

abbrev IsSextet : ℕ → Type 0
IsSextet v = v < 64

value_of-letter : (v : ℕ) → v < 64 → value_of (letter v) ≡ some v
unfolding value_of letter
value_of-letter v h = ground arith

letter-ne_break : (v : ℕ) → v < 64 → (letter v == 10 || letter v == 13) ≡ false
unfolding letter
letter-ne_break v h = ground arith

values-letter : (vs : List ℕ) → All IsSextet vs → values (map letter vs) ≡ some vs
unfolding values
values-letter [] a = refl
values-letter (v ∷ vs) (h, a) = rw (letter-ne_break v h, value_of-letter v h, values-letter vs a)

groups-IsSextet : (bs : List ℕ) → All IsByte bs → All IsSextet (groups bs)
unfolding groups
groups-IsSextet [] h = tt
groups-IsSextet (a ∷ []) h = omega arith
groups-IsSextet (a ∷ b ∷ []) h = omega arith
groups-IsSextet (a ∷ b ∷ c ∷ bs) (ha, (hb, (hc, h))) =
    (omega arith, (omega arith, (omega arith, (omega arith, groups-IsSextet bs h))))

bytes-groups : (bs : List ℕ) → All IsByte bs → bytes (groups bs) ≡ some bs
unfolding bytes groups
bytes-groups [] h = refl
bytes-groups (a ∷ []) h = ground arith
bytes-groups (a ∷ b ∷ []) h = ground arith
bytes-groups (a ∷ b ∷ c ∷ bs) (ha, (hb, (hc, h))) = ground (arith, bytes-groups bs h)

pub decode_string-encode_to_string :
    (bs : List ℕ) → All IsByte bs → decode_string (encode_to_string bs) ≡ some bs
unfolding decode_string encode_to_string
decode_string-encode_to_string bs h =
    rw (values-letter (groups bs) (groups-IsSextet bs h), decode_string) (bytes-groups bs h)
