-- ===== src/Response/Commit.antt =====
-- What a commit writes: the whole success response, or one problem and nothing else.
use golang_postgres_starter.Base.{
  Text, Bool, true, false, nat_eq, text_eq, List, ◌++◌, map, Option, ◌≡◌, ◌≢◌, refl, ◌∙◌, ◌⊎◌, inl,
  inr, Bool-cases,
}
use golang_postgres_starter.Problem.{ProblemDetails}
use golang_postgres_starter.Problem.Dispatch.{RequestLine}
use golang_postgres_starter.Response.{Cookie, Reply, WritePlan, accepts}
use golang_postgres_starter.Response.Effects.{
  Envelope, Effect, add_cookie, CookieCheck, allowed, nil_cookie, undeclared_cookie,
  malformed_cookie, check_cookies, refusal, commit_mode, commit_checked, commit,
}
use golang_postgres_starter.Response.Cookies.{
  AreCookies, check_cookies-AreCookies, AreCookies-check_cookies,
}
use golang_postgres_starter.Response.Written.{
  IsRefusal, IsTail, commit_mode-IsWritten, refusal-IsRefusal,
}

module _ {T : Type 0} (encodes : ProblemDetails → Bool) (marshal : Envelope T → Option Text)
    (cookie_valid : Cookie → Bool) (p : WritePlan T) (line : RequestLine) (reply : Reply T) where
  -- The reply fits the plan, with these cookies and this to write behind them.
  pub record IsCommittable (cookies : List Cookie) (tail : List Effect) : Type 0 where
    pub accepted : accepts p.mode reply.kind ≡ true
    pub cookies_given : AreCookies cookie_valid p.response_cookies reply.cookies cookies
    pub behind_cookies : IsTail marshal p.mode p reply tail

  abbrev pub trace_of : List Effect
  trace_of = commit encodes marshal cookie_valid p line reply

  commit-unaccepted : accepts p.mode reply.kind ≡ false → trace_of ≡ refusal encodes line
  unfolding commit
  commit-unaccepted h = rw h

  commit-accepted :
      accepts p.mode reply.kind ≡ true
      → trace_of
        ≡ commit_checked encodes marshal p line reply
            (check_cookies cookie_valid p.response_cookies reply.cookies)
  unfolding commit
  commit-accepted h = rw h

  checked-cases :
      (check : CookieCheck)
      → ((cookies : List Cookie) × (check ≡ allowed cookies)
          × (commit_checked encodes marshal p line reply check
              ≡ commit_mode encodes marshal p.mode p line reply cookies))
        ⊎ (((cookies : List Cookie) → check ≢ allowed cookies)
            × (commit_checked encodes marshal p line reply check ≡ refusal encodes line))
  unfolding commit_checked
  checked-cases (allowed cookies) = inl (cookies, refl, refl)
  checked-cases nil_cookie = inr ((λ cookies e. cc), refl)
  checked-cases (undeclared_cookie name) = inr ((λ cookies e. cc), refl)
  checked-cases (malformed_cookie name) = inr ((λ cookies e. cc), refl)

  written :
      accepts p.mode reply.kind ≡ true
      → (cookies : List Cookie)
      → check_cookies cookie_valid p.response_cookies reply.cookies ≡ allowed cookies
      → trace_of ≡ commit_mode encodes marshal p.mode p line reply cookies
      → ((cookies : List Cookie) × (tail : List Effect) × IsCommittable cookies tail
          × (trace_of ≡ map add_cookie cookies ++ tail))
        ⊎ (((cookies : List Cookie) (tail : List Effect) → ¬ IsCommittable cookies tail)
            × IsRefusal trace_of)
  written accepted cookies found same =
      elim (commit_mode-IsWritten encodes marshal p line reply p.mode cookies accepted) [
        | inl (tail, behind_them, e) ↦ inl (
          cookies,
          tail,
          record {
            accepted = accepted;
            cookies_given =
                check_cookies-AreCookies cookie_valid p.response_cookies reply.cookies cookies
                  found;
            behind_cookies = behind_them;
          },
          same ∙ e,
        )
        | inr (never, refused) ↦
            inr ((λ cookies' tail c. never tail c.behind_cookies), rw same refused)
      ]

  -- A commit is all or nothing. Either the constructor of the reply fits the mode, none of its
  -- cookies is nil and each is declared and valid, and the rest can be written: a location that is
  -- not blank, or an envelope that is marshaled with a payload that is valid; then all cookies are
  -- written and behind them the whole of it, with the declared status. Or the one effect is a
  -- problem with status 500, and no cookie is written.
  pub commit-Outcome :
      ((cookies : List Cookie) × (tail : List Effect) × IsCommittable cookies tail
        × (trace_of ≡ map add_cookie cookies ++ tail))
      ⊎ (((cookies : List Cookie) (tail : List Effect) → ¬ IsCommittable cookies tail)
          × IsRefusal trace_of)
  commit-Outcome = elim (Bool-cases (accepts p.mode reply.kind)) [
    | inr unaccepted ↦ inr (
      (λ cookies tail c. cc (unaccepted, c.accepted)),
      rw (commit-unaccepted unaccepted) (refusal-IsRefusal encodes line),
    )
    | inl accepted ↦
        elim (checked-cases (check_cookies cookie_valid p.response_cookies reply.cookies)) [
          | inr (never, same) ↦ inr (
            (λ cookies tail c. never cookies (
                AreCookies-check_cookies cookie_valid p.response_cookies reply.cookies cookies
                  c.cookies_given)),
            rw (commit-accepted accepted ∙ same) (refusal-IsRefusal encodes line),
          )
          | inl (cookies, found, same) ↦
              written accepted cookies found (commit-accepted accepted ∙ same)
        ]
  ]
