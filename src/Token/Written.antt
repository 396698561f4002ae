-- ===== src/Token/Written.antt =====
-- A library whose tokens are the claims written out: it keeps what the parser of tokens promises.
use golang_postgres_starter.Base.{
  ℕ, zero, suc, ◌+◌, ◌*◌, ◌/◌, ◌≤◌, ◌<◌, Text, codes, Bool, true, ltb, leb, ◌==◌, ◌&&◌, text_eq,
  list_beq_iff, [], ◌∷◌, ◌++◌, length, if◌then◌else◌, Option, none, some, ◌≡◌, refl, sym, ◌∙◌, ap,
  arith,
}
use golang_postgres_starter.Problem.{second}
use golang_postgres_starter.Problem.Errors.{plain, Result, ok, failed}
use golang_postgres_starter.Token.{Claims, Jwt}
use golang_postgres_starter.Token.Pair.{Promises}

-- A text behind its length.
write_text : Text → Text → Text
write_text s rest = length s ∷ s ++ rest

take : ℕ → Text → Text
take zero s = []
take (suc n) [] = []
take (suc n) (c ∷ s) = c ∷ take n s

drop : ℕ → Text → Text
drop zero s = s
drop (suc n) [] = []
drop (suc n) (c ∷ s) = drop n s

take-length : (s rest : Text) → take (length s) (s ++ rest) ≡ s
unfolding take
take-length [] rest = refl
take-length (c ∷ s) rest = ap (λ t. c ∷ t) (take-length s rest)

drop-length : (s rest : Text) → drop (length s) (s ++ rest) ≡ rest
unfolding drop
drop-length [] rest = refl
drop-length (c ∷ s) rest = drop-length s rest

read_text : Text → Text × Text
read_text [] = ([], [])
read_text (n ∷ s) = (take n s, drop n s)

read_text-write_text : (s rest : Text) → read_text (write_text s rest) ≡ (s, rest)
unfolding read_text write_text
read_text-write_text s rest = ground (arith, take-length s rest, drop-length s rest)

encode : Claims → Text
encode c =
    c.issued_at
    ∷ c.not_before
    ∷ c.expires_at
    ∷ write_text c.id (write_text c.issuer (write_text c.subject (write_text c.role [])))

decode_texts : ℕ → ℕ → ℕ → Text → Claims
decode_texts issued started expiring s =
    let (id, a) = read_text s in
    let (issuer, b) = read_text a in
    let (subject, c) = read_text b in
    let (role, d) = read_text c in
    record {
      id = id;
      issuer = issuer;
      subject = subject;
      issued_at = issued;
      not_before = started;
      expires_at = expiring;
      role = role;
    }

decode : Text → Option Claims
decode (issued ∷ started ∷ expiring ∷ s) = some (decode_texts issued started expiring s)
decode _ = none

decode-encode : (c : Claims) → decode (encode c) ≡ some c
unfolding decode encode decode_texts
decode-encode c = simp (read_text-write_text)

check : ℕ → Text → ℕ → Option Claims → Result (Claims × Bool)
check skew issuer now none = failed (plain (codes "malformed"))
check skew issuer now (some c) =
    if c.issuer == issuer && (leb c.not_before (now + skew) && ltb now (c.expires_at + skew))
    then ok (c, true)
    else failed (plain (codes "refused"))

check-accepts :
    (c : Claims) (skew now : ℕ)
    → c.not_before ≤ now + skew
    → now < c.expires_at + skew
    → check skew c.issuer now (some c) ≡ ok (c, true)
unfolding check
check-accepts c skew now started alive = ground (arith, list_beq_iff c.issuer c.issuer)

check-faithful :
    (c c' : Claims) (issuer : Text) (skew now : ℕ) (valid : Bool)
    → check skew issuer now (some c) ≡ ok (c', valid)
    → (c' ≡ c) × (c.issuer ≡ issuer) × (now < c.expires_at + skew)
unfolding check
check-faithful c c' issuer skew now valid h = ground (arith, list_beq_iff c.issuer issuer)

decode-signed : (c : Claims) (token : Text) → ok (encode c) ≡ ok token → decode token ≡ some c
decode-signed c token signed = ap decode (cc signed) ∙ decode-encode c

unfoldable pub written : Jwt (Unit {0}) (Unit {0})
unfolding decode encode check write_text read_text decode_texts take drop
written = record {
  numeric_date = λ t. t / second * second;
  sign = λ _ c. ok (encode c);
  parse = λ _ skew issuer now token. check skew issuer now (decode token);
}

pub written-Promises : Promises written tt tt
unfolding written
written-Promises = record {
  numeric_date-numeric_date = λ t. omega arith;
  numeric_date_bounds = λ t. omega arith;
  accepts = λ c token skew now signed dated started alive.
      ap (check skew c.issuer now) (decode-signed c token signed)
      ∙ check-accepts c skew now started alive;
  faithful = λ c token issuer skew now c' valid signed dated parsed.
      check-faithful c c' issuer skew now valid
        (ap (check skew issuer now) (sym (decode-signed c token signed)) ∙ parsed);
}
