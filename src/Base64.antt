-- ===== src/Base64.antt =====
-- encoding/base64's RawStdEncoding, the decoder as Strict makes it. A byte is a number below 256.
pub mod RoundTrip
use golang_postgres_starter.Base.{
  ℕ, ◌+◌, ◌-◌, ◌*◌, ◌/◌, ◌%◌, Text, ◌&&◌, ◌||◌, ltb, leb, ◌==◌, nat_eq, List, [], ◌∷◌,
  if◌then◌else◌, Option, none, some, map,
}

-- The letter of a value below 64.
unfoldable pub letter : ℕ → ℕ
letter v =
    if ltb v 26
    then b'A' + v
    else if ltb v 52
    then b'a' + (v - 26)
    else if ltb v 62
    then b'0' + (v - 52)
    else if v == 62
    then b'+'
    else b'/'

unfoldable pub value_of : ℕ → Option ℕ
value_of c =
    if leb b'A' c && leb c b'Z'
    then some (c - b'A')
    else if leb b'a' c && leb c b'z'
    then some (c - b'a' + 26)
    else if leb b'0' c && leb c b'9'
    then some (c - b'0' + 52)
    else if c == b'+'
    then some 62
    else if c == b'/'
    then some 63
    else none

-- Groups of three bytes as four values, the last one short.
unfoldable pub groups : List ℕ → List ℕ
groups [] = []
groups (a ∷ []) = a / 4 ∷ (a % 4 * 16) ∷ []
groups (a ∷ b ∷ []) = a / 4 ∷ (a % 4 * 16 + b / 16) ∷ (b % 16 * 4) ∷ []
groups (a ∷ b ∷ c ∷ bs) =
    a / 4 ∷ (a % 4 * 16 + b / 16) ∷ (b % 16 * 4 + c / 64) ∷ (c % 64) ∷ groups bs

unfoldable pub encode_to_string : List ℕ → Text
unfolding letter groups
encode_to_string bs = map letter (groups bs)

-- The decoder passes over line breaks.
unfoldable pub values : Text → Option (List ℕ)
unfolding value_of
values [] = some []
values (c ∷ cs) =
    let rest = values cs in
    if c == 10 || c == 13 then rest else elim (value_of c) [
      | none ↦ none
      | some v ↦ (elim rest [ none ↦ none | some vs ↦ some (v ∷ vs) ])
    ]

-- What is left over must be zero.
unfoldable pub bytes : List ℕ → Option (List ℕ)
bytes [] = some []
bytes (p ∷ []) = none
bytes (p ∷ q ∷ []) = if q % 16 == 0 then some ((p * 4 + q / 16) ∷ []) else none
bytes (p ∷ q ∷ r ∷ []) =
    if r % 4 == 0 then some ((p * 4 + q / 16) ∷ (q % 16 * 16 + r / 4) ∷ []) else none
bytes (p ∷ q ∷ r ∷ s ∷ vs) = elim (bytes vs) [
  | none ↦ none
  | some bs ↦ some ((p * 4 + q / 16) ∷ (q % 16 * 16 + r / 4) ∷ (r % 4 * 64 + s) ∷ bs)
]

-- `none` is a CorruptInputError.
unfoldable pub decode_string : Text → Option (List ℕ)
unfolding values bytes
decode_string s = elim (values s) [ none ↦ none | some vs ↦ bytes vs ]
