-- ===== src/Binding/Wire.antt =====
-- internal/httpx/request.go and raw.go: a body on the wire, and the reading of it.
use golang_postgres_starter.Base.{
  ℕ, zero, suc, ◌^◌, Text, codes, Bool, true, false, ◌&&◌, ◌||◌, not, if◌then◌else◌, ltb, ◌==◌,
  nat_eq, text_eq, List, [], ◌∷◌, length, Option, none, some, split, trim_space, to_lower,
}
use golang_postgres_starter.Strconv.{ℤ, pos, negsuc}
use golang_postgres_starter.Problem.{ProblemKindId, new, unsupported_media_type}
use golang_postgres_starter.Problem.Errors.{GoError, problem}

-- A body on the wire: the bytes that arrive, and whether reading them ends in an error.
pub record Wire : Type 0 where
  pub bytes : List ℕ
  pub is_broken : Bool

-- The parts of a request that a body comes from. `body` is none where it is nil or http.NoBody.
pub record Carrier : Type 0 where
  pub body : Option Wire
  pub content_length : ℤ
  pub content_type : Text

-- `maxBodyBytes` and `rawJSONBodyLimit`, 1 << 20.
abbrev pub max_body_bytes : ℕ
max_body_bytes = 2 ^ 20

abbrev pub raw_json_body_limit : ℕ
raw_json_body_limit = 2 ^ 20

-- How reading through http.MaxBytesReader ends.
pub data End : Type 0 where
  finished over_limit broken : End

pub record Stream : Type 0 where
  pub bytes : List ℕ
  pub end : End

unfoldable pub first_bytes : ℕ → List ℕ → List ℕ
first_bytes zero bytes = []
first_bytes (suc n) [] = []
first_bytes (suc n) (b ∷ bs) = b ∷ first_bytes n bs

-- http.MaxBytesReader: at most `limit` bytes, and an error behind them where there are more.
unfoldable pub limited : ℕ → Wire → Stream
unfolding first_bytes
limited limit wire =
    if ltb limit (length wire.bytes)
    then record { bytes = first_bytes limit wire.bytes; end = over_limit }
    else record { bytes = wire.bytes; end = if wire.is_broken then broken else finished }

abbrev pub refuse : ProblemKindId → Text → GoError
refuse kind detail = problem (new kind detail)

abbrev pub is_nonzero : ℤ → Bool
is_nonzero (pos n) = not (n == 0)
is_nonzero (negsuc n) = true

abbrev pub is_some : Option Wire → Bool
is_some none = false
is_some (some wire) = true

-- `BodyPresent`
unfoldable pub body_present : Carrier → Bool
body_present r = is_some r.body && is_nonzero r.content_length

abbrev pub media_type : List Text → Text
media_type [] = []
media_type (t ∷ ts) = to_lower (trim_space t)

unfoldable pub check_json_media_type : Text → Option GoError
check_json_media_type content_type =
    if media_type (split content_type b';') == codes "application/json"
    then none
    else some (refuse unsupported_media_type (codes "Content-Type header must be application/json"))

-- The leading byte that is no white space, 0 if there is none.
abbrev pub is_json_space : ℕ → Bool
is_json_space b = b == 0x20 || (b == 9 || (b == 13 || b == 10))

unfoldable pub leading_byte : List ℕ → ℕ
leading_byte [] = 0
leading_byte (b ∷ bs) = let rest = leading_byte bs in if is_json_space b then rest else b

-- `leadingByteReader.Read`, on what is recorded and the bytes of one read.
unfoldable pub observe : ℕ → List ℕ → ℕ
unfolding leading_byte
observe first bytes = if first == 0 then leading_byte bytes else first
