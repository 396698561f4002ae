-- ===== src/Response/Tests.antt =====
-- Runs of commits and of pages, and their theorems there.
use golang_postgres_starter.Base.{
  ℕ, ◌+◌, Text, codes, Bool, true, false, not, ◌==◌, nat_eq, text_eq, List, [], ◌∷◌, ◌++◌, map,
  if◌then◌else◌, sort, Option, none, some, ◌≡◌, refl, ap, ◌⊎◌, arith,
}
use golang_postgres_starter.Strconv.{pos, negsuc}
use golang_postgres_starter.Problem.{ProblemDetails}
use golang_postgres_starter.Problem.Dispatch.{RequestLine}
use golang_postgres_starter.Success.{mode_enveloped, mode_message}
use golang_postgres_starter.Response.{
  Cookie, new_refresh_token_cookie, cleared_refresh_token_cookie, Reply, reply_with, done,
  with_cookie, WritePlan, compile_write_plan, with_response_validation, accepts,
}
use golang_postgres_starter.Response.Effects.{
  Envelope, Effect, add_cookie, set_content_type, write_header, write_body, check_cookies, commit,
  commit_mode, commit_bytes, refusal,
}
use golang_postgres_starter.Response.Commit.{IsCommittable, trace_of, commit-Outcome}
use golang_postgres_starter.Response.Written.{IsRefusal}
use golang_postgres_starter.Response.Page.{PageCursor, take, finish_cursor_page, reverse_in_place}
use golang_postgres_starter.Response.Page.Walk.{follow-table}
use golang_postgres_starter.Response.Page.Follow.{FetchesAfter, FetchesBefore, follow, follow_back}

abbrev always : ProblemDetails → Bool
always p = true

-- The payloads are numbers; the JSON of an envelope is its message.
abbrev marshal : Envelope ℕ → Option Text
marshal e = some e.message

abbrev unmarshalable : Envelope ℕ → Option Text
unmarshalable e = none

abbrev cookie_valid : Cookie → Bool
cookie_valid c = not (c.name == [])

abbrev line : RequestLine
line = record { method = codes "POST"; path = codes "/login" }

abbrev session_cookie : Cookie
session_cookie = record {
  name = codes "sid";
  value = codes "x";
  path = codes "/";
  http_only = true;
  secure = true;
  same_site_lax = true;
  max_age = pos 60;
  expires = 60;
}

refresh_cookies :
    ((new_refresh_token_cookie 5 (codes "t") (negsuc 0)).expires ≡ 2592005)
    × ((new_refresh_token_cookie 5 (codes "t") (pos 60)).expires ≡ 65)
    × (cleared_refresh_token_cookie.max_age ≡ negsuc 0)
unfolding new_refresh_token_cookie cleared_refresh_token_cookie
refresh_cookies = (refl, refl, refl)

abbrev plan : WritePlan ℕ
plan =
    compile_write_plan (record { mode = mode_enveloped; status = 201 }) (codes "login")
      (codes "sid" ∷ [])

abbrev reply : Reply ℕ
reply = with_cookie (reply_with (codes "hi") 7) (some session_cookie ∷ [])

response_runs : Unit {0}
unfolding commit commit_mode commit_bytes check_cookies accepts compile_write_plan
    with_response_validation sort reply_with done with_cookie
response_runs = tt

commits :
    (commit always marshal cookie_valid plan line reply
      ≡ add_cookie session_cookie
        ∷ set_content_type (codes "application/json")
        ∷ write_header 201
        ∷ write_body (codes "hi")
        ∷ [])
    × (commit always marshal cookie_valid plan line (done (codes "hi")) ≡ refusal always line)
    × (commit always marshal cookie_valid plan line (with_cookie reply (none ∷ []))
        ≡ refusal always line)
    × (commit always marshal cookie_valid
          (compile_write_plan (record { mode = mode_message; status = 204 }) (codes "out") [])
          line
          (done (codes "bye"))
        ≡ write_header 204 ∷ [])
unfolding response_runs
commits = (refl, refl, refl, refl)

commit-Outcome_example :
    ((cookies : List Cookie) × (tail : List Effect) × IsCommittable always unmarshalable
        cookie_valid plan line reply cookies tail
      × (trace_of always unmarshalable cookie_valid plan line reply
          ≡ map add_cookie cookies ++ tail))
    ⊎ (((cookies : List Cookie) (tail : List Effect)
          → ¬ IsCommittable always unmarshalable cookie_valid plan line reply cookies tail)
        × IsRefusal (trace_of always unmarshalable cookie_valid plan line reply))
commit-Outcome_example = commit-Outcome always unmarshalable cookie_valid plan line reply

-- Rows are numbers, and their cursors hold them.
abbrev cursor : ℕ → PageCursor
cursor n = record { id = n ∷ []; created_at = n }

page_runs : Unit {0}
unfolding finish_cursor_page reverse_in_place take
page_runs = tt

pages :
    (finish_cursor_page (1 ∷ 2 ∷ 3 ∷ []) (pos 2) false false cursor none
      ≡ some (
        1 ∷ 2 ∷ [],
        record {
          has_next = true;
          has_prev = false;
          next_after_id = 2 ∷ [];
          next_after_created_at = 2;
          prev_before_id = 1 ∷ [];
          prev_before_created_at = 1;
          limit = 2;
          records = 0;
        },
      ))
    × (finish_cursor_page (5 ∷ 4 ∷ 3 ∷ []) (pos 2) false true cursor (some (λ n. n + 10))
        ≡ some (
          4 ∷ 5 ∷ [],
          record {
            has_next = true;
            has_prev = true;
            next_after_id = 5 ∷ [];
            next_after_created_at = 5;
            prev_before_id = 4 ∷ [];
            prev_before_created_at = 4;
            limit = 2;
            records = 13;
          },
        ))
    × (finish_cursor_page [] (negsuc 0) false false cursor none ≡ none)
unfolding page_runs
pages = (refl, refl, refl)

abbrev table : List ℕ
table = 1 ∷ 2 ∷ []

abbrev behind_row : Option PageCursor → List ℕ
behind_row none = table
behind_row (some c) = if c.created_at == 1 then 2 ∷ [] else []

abbrev fetch : Option PageCursor → ℕ → List ℕ
fetch after n = take n (behind_row after)

abbrev before_row : Option PageCursor → List ℕ
before_row none = 2 ∷ 1 ∷ []
before_row (some c) = if c.created_at == 2 then 1 ∷ [] else []

abbrev fetch_back : Option PageCursor → ℕ → List ℕ
fetch_back before n = take n (before_row before)

fetch-FetchesAfter : FetchesAfter table cursor fetch
fetch-FetchesAfter [] rest n e = ap (take n) e
fetch-FetchesAfter (x ∷ []) rest n e = ground arith
fetch-FetchesAfter (x ∷ y ∷ []) rest n e = ground arith
fetch-FetchesAfter (x ∷ y ∷ z ∷ seen) rest n e = cc

fetch_back-FetchesBefore : FetchesBefore table cursor fetch_back
fetch_back-FetchesBefore [] seen n e = rw (← e) refl
fetch_back-FetchesBefore (x ∷ []) [] n e = cc
fetch_back-FetchesBefore (x ∷ []) (y ∷ seen) n e = ground arith
fetch_back-FetchesBefore (x ∷ y ∷ []) [] n e = ground arith
fetch_back-FetchesBefore (x ∷ y ∷ []) (z ∷ seen) n e = cc
fetch_back-FetchesBefore (x ∷ y ∷ z ∷ rest) seen n e = cc

follow-table_example :
    (follow cursor 1 fetch 3 none ≡ table) × (follow_back cursor 1 fetch_back 3 none ≡ table)
follow-table_example =
    follow-table table cursor 1 (omega arith) fetch fetch_back fetch-FetchesAfter
      fetch_back-FetchesBefore
