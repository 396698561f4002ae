-- ===== src/Response/Effects.antt =====
-- internal/httpx/response.go: what committing a reply does to the response writer.
use golang_postgres_starter.Base.{
  ℕ, Text, codes, Bool, true, not, if◌then◌else◌, ◌==◌, nat_eq, text_eq, List, [], ◌∷◌, ◌++◌, map,
  contains, trim_space, Option, none, some,
}
use golang_postgres_starter.Problem.{ProblemDetails, internal, new}
use golang_postgres_starter.Problem.Errors.{problem}
use golang_postgres_starter.Problem.Dispatch.{
  RequestLine, Response, dispatch_adapter_error, write_problem_details,
}
use golang_postgres_starter.Success.{ResponseMode, mode_page, mode_message, mode_redirect}
use golang_postgres_starter.Response.{Pagination, Cookie, Reply, WritePlan, accepts}

-- The envelope; a nil payload and a nil page are omitted.
pub record Envelope (T : Type 0) : Type 0 where
  pub message : Text
  pub meta : Option Pagination
  pub payload : Option T

-- What happens to the ResponseWriter, in order.
pub data Effect : Type 0 where
  add_cookie : Cookie → Effect
  set_location : Text → Effect
  set_content_type : Text → Effect
  write_header : ℕ → Effect
  write_body : Text → Effect
  write_problem : Response → Effect

unfoldable pub emit_cookies : List Cookie → List Effect
emit_cookies cookies = map add_cookie cookies

-- What the loop over the cookies finds: the cookies, or a reason to refuse them all.
pub data CookieCheck : Type 0 where
  allowed : List Cookie → CookieCheck
  nil_cookie : CookieCheck
  undeclared_cookie malformed_cookie : Text → CookieCheck

abbrev pub behind : Cookie → CookieCheck → CookieCheck
behind cookie (allowed cookies) = allowed (cookie ∷ cookies)
behind cookie nil_cookie = nil_cookie
behind cookie (undeclared_cookie name) = undeclared_cookie name
behind cookie (malformed_cookie name) = malformed_cookie name

-- `cookie_valid` is http.Cookie.Valid.
unfoldable pub check_cookies : (Cookie → Bool) → List Text → List (Option Cookie) → CookieCheck
check_cookies cookie_valid declared [] = allowed []
check_cookies cookie_valid declared (none ∷ cookies) = nil_cookie
check_cookies cookie_valid declared (some cookie ∷ cookies) =
    let rest = check_cookies cookie_valid declared cookies in
    if not (contains declared cookie.name)
    then undeclared_cookie cookie.name
    else if not (cookie_valid cookie)
    then malformed_cookie cookie.name
    else behind cookie rest

abbrev pub is_valid_payload : {T : Type 0} → Option (T → Bool) → Option T → Bool
is_valid_payload none body = true
is_valid_payload (some validate) none = true
is_valid_payload (some validate) (some body) = validate body

module _ (encodes : ProblemDetails → Bool) where
  -- The clean 500 of `commit`, with the request, and that of the writer, without.
  unfoldable pub refusal : RequestLine → List Effect
  refusal line =
      write_problem (
        dispatch_adapter_error encodes (some line)
          (problem (new internal (codes "internal error"))))
      ∷ []

  unfoldable pub writer_refusal : List Effect
  writer_refusal =
      write_problem (write_problem_details encodes (new internal (codes "internal error"))) ∷ []

  -- `commitValidatedJSON`, once the envelope has been marshaled or not.
  unfoldable pub commit_bytes : Option Text → ℕ → List Cookie → Bool → List Effect
  unfolding writer_refusal emit_cookies
  commit_bytes none code cookies valid = writer_refusal
  commit_bytes (some bytes) code cookies valid =
      if valid
      then emit_cookies cookies
        ++ (set_content_type (codes "application/json") ∷ write_header code ∷ write_body bytes ∷ [])
      else writer_refusal

-- json.Marshal of the envelope is the argument `marshal`; `none` is its error. `cookie_valid` is
-- http.Cookie.Valid.
module _ {T : Type 0} (encodes : ProblemDetails → Bool) (marshal : Envelope T → Option Text) where
  -- The switch over the mode.
  unfoldable pub commit_mode :
      ResponseMode → WritePlan T → RequestLine → Reply T → List Cookie → List Effect
  unfolding commit_bytes refusal emit_cookies
  commit_mode mode_redirect p line reply cookies =
      if trim_space reply.location == []
      then refusal encodes line
      else emit_cookies cookies ++ (set_location reply.location ∷ write_header p.status ∷ [])
  commit_mode mode_message p line reply cookies =
      if p.bodiless
      then emit_cookies cookies ++ (write_header p.status ∷ [])
      else commit_bytes encodes
          (marshal (record { message = reply.message; meta = none; payload = none })) p.status
          cookies true
  commit_mode mode_page p line reply cookies =
      commit_bytes encodes
        (marshal (record { message = reply.message; meta = reply.meta; payload = reply.body }))
        p.status cookies (is_valid_payload p.validate_payload reply.body)
  commit_mode _ p line reply cookies =
      commit_bytes encodes
        (marshal (record { message = reply.message; meta = none; payload = reply.body })) p.status
        cookies (is_valid_payload p.validate_payload reply.body)

  unfoldable pub commit_checked : WritePlan T → RequestLine → Reply T → CookieCheck → List Effect
  unfolding commit_mode refusal
  commit_checked p line reply (allowed cookies) = commit_mode p.mode p line reply cookies
  commit_checked p line reply _ = refusal encodes line

  -- `Reply.commit` of a reply that is not nil.
  unfoldable pub commit : (Cookie → Bool) → WritePlan T → RequestLine → Reply T → List Effect
  unfolding commit_checked check_cookies refusal
  commit cookie_valid p line reply =
      if not (accepts p.mode reply.kind)
      then refusal encodes line
      else commit_checked p line reply (check_cookies cookie_valid p.response_cookies reply.cookies)

  -- `WriteSuccess`
  unfoldable pub write_success : ℕ → Text → Option T → List Effect
  unfolding commit_bytes
  write_success code message payload =
      commit_bytes encodes (marshal (record { message = message; meta = none; payload = payload }))
        code [] true
