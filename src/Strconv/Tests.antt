-- ===== src/Strconv/Tests.antt =====
-- Runs of the number texts.
use golang_postgres_starter.Base.{codes, none, some, ◌≡◌, refl}
use golang_postgres_starter.Strconv.{pos, negsuc, format_int, parse_int, digits, parse_digits}

strconv_runs : Unit {0}
unfolding format_int parse_int digits parse_digits
strconv_runs = tt

texts :
    (format_int (pos 0) ≡ codes "0")
    × (format_int (negsuc 41) ≡ codes "-42")
    × (parse_int 64 (codes "-9223372036854775808") ≡ some (negsuc 9223372036854775807))
    × (parse_int 64 (codes "9223372036854775808") ≡ none)
    × (parse_int 64 (codes "+7") ≡ some (pos 7))
    × (parse_int 64 (codes "-") ≡ none)
    × (parse_int 64 (codes "1_0") ≡ none)
unfolding strconv_runs
texts = (refl, refl, refl, refl, refl, refl, refl)
