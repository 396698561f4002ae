-- ===== src/Response/Cookies.antt =====
-- The check of a reply's cookies.
use golang_postgres_starter.Base.{
  Text, Bool, true, text_eq, List, [], ◌∷◌, map, contains, Option, none, some, ◌≡◌, refl, ap, All,
  Bool-cases, inl, inr,
}
use golang_postgres_starter.Response.{Cookie}
use golang_postgres_starter.Response.Effects.{
  CookieCheck, allowed, nil_cookie, undeclared_cookie, malformed_cookie, behind, check_cookies,
}

-- The cookies of a reply, where none is nil and each is declared and valid.
abbrev pub AreCookies : (Cookie → Bool) → List Text → List (Option Cookie) → List Cookie → Type 0
AreCookies cookie_valid declared given cookies =
    (given ≡ map some cookies)
    × All (λ c. (contains declared c.name ≡ true) × (cookie_valid c ≡ true)) cookies

AreCookies-cons :
    (cookie_valid : Cookie → Bool) (declared : List Text) (c : Cookie)
    (given : List (Option Cookie)) (cookies : List Cookie)
    → contains declared c.name ≡ true
    → cookie_valid c ≡ true
    → AreCookies cookie_valid declared given cookies
    → AreCookies cookie_valid declared (some c ∷ given) (c ∷ cookies)
AreCookies-cons cookie_valid declared c given cookies listed good (same, all) =
    (ap (λ cs. some c ∷ cs) same, ((listed, good), all))

behind-allowed :
    (c : Cookie) (r : CookieCheck) (cookies : List Cookie)
    → behind c r ≡ allowed cookies
    → (rest : List Cookie) × (r ≡ allowed rest) × (cookies ≡ c ∷ rest)
behind-allowed c (allowed rest) cookies h = (rest, refl, cc)
behind-allowed c nil_cookie cookies h = cc
behind-allowed c (undeclared_cookie name) cookies h = cc
behind-allowed c (malformed_cookie name) cookies h = cc

check_cookies-cons :
    (cookie_valid : Cookie → Bool) (declared : List Text) (c : Cookie)
    (given : List (Option Cookie)) (cookies : List Cookie)
    → check_cookies cookie_valid declared (some c ∷ given) ≡ allowed cookies
    → (contains declared c.name ≡ true)
      × (cookie_valid c ≡ true)
      × (behind c (check_cookies cookie_valid declared given) ≡ allowed cookies)
unfolding check_cookies
check_cookies-cons cookie_valid declared c given cookies h =
    elim (Bool-cases (contains declared c.name)) [
      | inl listed ↦ elim (Bool-cases (cookie_valid c)) [
        | inl good ↦ (listed, good, rw (listed, good, check_cookies) at h)
        | inr bad ↦ absurd (cc (rw (listed, bad, check_cookies) at h))
      ]
      | inr unlisted ↦ absurd (cc (rw (unlisted, check_cookies) at h))
    ]

-- The check hands out exactly such cookies.
pub check_cookies-AreCookies :
    (cookie_valid : Cookie → Bool) (declared : List Text) (given : List (Option Cookie))
    (cookies : List Cookie)
    → check_cookies cookie_valid declared given ≡ allowed cookies
    → AreCookies cookie_valid declared given cookies
unfolding check_cookies
check_cookies-AreCookies cookie_valid declared [] [] h = (refl, tt)
check_cookies-AreCookies cookie_valid declared [] (c ∷ cookies) h = cc
check_cookies-AreCookies cookie_valid declared (none ∷ given) cookies h = cc
check_cookies-AreCookies cookie_valid declared (some c ∷ given) cookies h =
    let (listed, good, later) = check_cookies-cons cookie_valid declared c given cookies h in
    let (rest, found, same) = behind-allowed c _ cookies later in
    rw same (
      AreCookies-cons cookie_valid declared c given rest listed good
        (check_cookies-AreCookies cookie_valid declared given rest found))

pub AreCookies-check_cookies :
    (cookie_valid : Cookie → Bool) (declared : List Text) (given : List (Option Cookie))
    (cookies : List Cookie)
    → AreCookies cookie_valid declared given cookies
    → check_cookies cookie_valid declared given ≡ allowed cookies
unfolding check_cookies
AreCookies-check_cookies cookie_valid declared given [] (same, all) = rw same refl
AreCookies-check_cookies cookie_valid declared given (c ∷ cookies) (same, ((listed, good), all)) =
    rw same (
      rw
        (
          listed,
          good,
          AreCookies-check_cookies cookie_valid declared (map some cookies) cookies (refl, all),
        )
        refl)
