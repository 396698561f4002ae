-- ===== src/Response.antt =====
-- internal/httpx/response.go: replies, and the plan by which they are written.
pub mod Written
pub mod Effects
pub mod Cookies
pub mod Commit
pub mod Page
mod Tests
use golang_postgres_starter.Base.{
  ℕ, ◌+◌, ◌*◌, Text, codes, Bool, true, false, ◌||◌, if◌then◌else◌, ◌==◌, nat_eq, text_eq, List, [],
  ◌++◌, sort, Option, none, some,
}
use golang_postgres_starter.Strconv.{ℤ, pos, negsuc}
use golang_postgres_starter.Success.{
  SuccessMode, ResponseMode, mode_enveloped, mode_page, mode_message, mode_redirect,
}

-- Times are numbers. `records` is omitted on the wire where it is 0.
pub record Pagination : Type 0 where
  pub has_next : Bool
  pub has_prev : Bool
  pub next_after_id : Text
  pub next_after_created_at : ℕ
  pub prev_before_id : Text
  pub prev_before_created_at : ℕ
  pub limit : ℕ
  pub records : ℕ

pub data ReplyKind : Type 0 where
  reply_unset reply_data reply_paged reply_message reply_redirect : ReplyKind

-- The fields of an http.Cookie that are set; `max_age` and `expires` are in seconds.
pub record Cookie : Type 0 where
  pub name : Text
  pub value : Text
  pub path : Text
  pub http_only : Bool
  pub secure : Bool
  pub same_site_lax : Bool
  pub max_age : ℤ
  pub expires : ℕ

abbrev pub refresh_token_cookie_name : Text
refresh_token_cookie_name = codes "refresh_token"

abbrev pub thirty_days : ℕ
thirty_days = 60 * 60 * 24 * 30

abbrev pub age_or_default : ℤ → ℕ
age_or_default (pos n) = if n == 0 then thirty_days else n
age_or_default (negsuc n) = thirty_days

-- `NewRefreshTokenCookie` at a time.
unfoldable pub new_refresh_token_cookie : ℕ → Text → ℤ → Cookie
new_refresh_token_cookie now token max_age_seconds = record {
  name = refresh_token_cookie_name;
  value = token;
  path = codes "/";
  http_only = true;
  secure = true;
  same_site_lax = true;
  max_age = pos (age_or_default max_age_seconds);
  expires = now + age_or_default max_age_seconds;
}

-- `ClearedRefreshTokenCookie`
unfoldable pub cleared_refresh_token_cookie : Cookie
cleared_refresh_token_cookie = record {
  name = refresh_token_cookie_name;
  value = [];
  path = codes "/";
  http_only = true;
  secure = true;
  same_site_lax = true;
  max_age = negsuc 0;
  expires = 0;
}

-- A Reply; a cookie of it may be nil. The payload of a message and of a redirect is nothing.
pub record Reply (T : Type 0) : Type 0 where
  pub kind : ReplyKind
  pub message : Text
  pub body : Option T
  pub meta : Option Pagination
  pub location : Text
  pub cookies : List (Option Cookie)

module _ {T : Type 0} where
  -- `OK`
  unfoldable pub reply_with : Text → T → Reply T
  reply_with message body = record {
    kind = reply_data;
    message = message;
    body = some body;
    meta = none;
    location = [];
    cookies = [];
  }

  -- `Paged`; the payload stands for the rows.
  unfoldable pub paged : Text → T → Option Pagination → Reply T
  paged message rows meta = record {
    kind = reply_paged;
    message = message;
    body = some rows;
    meta = meta;
    location = [];
    cookies = [];
  }

  -- `Done`
  unfoldable pub done : Text → Reply T
  done message = record {
    kind = reply_message;
    message = message;
    body = none;
    meta = none;
    location = [];
    cookies = [];
  }

  -- `RedirectTo`
  unfoldable pub redirect_to : Text → Reply T
  redirect_to location = record {
    kind = reply_redirect;
    message = [];
    body = none;
    meta = none;
    location = location;
    cookies = [];
  }

  -- `WithCookie`
  unfoldable pub with_cookie : Reply T → List (Option Cookie) → Reply T
  with_cookie reply cookies = record reply { cookies = reply.cookies ++ cookies }

-- `validate_payload` is nil where there is nothing to validate; it says whether a payload is valid.
pub record WritePlan (T : Type 0) : Type 0 where
  pub mode : ResponseMode
  pub status : ℕ
  pub bodiless : Bool
  pub label : Text
  pub response_cookies : List Text
  pub validate_payload : Option (T → Bool)

abbrev pub has_payload : ResponseMode → Bool
has_payload mode_enveloped = true
has_payload mode_page = true
has_payload _ = false

module _ {T : Type 0} where
  -- The set of allowed names is that of the sorted ones.
  unfoldable pub compile_write_plan : SuccessMode → Text → List Text → WritePlan T
  compile_write_plan mode label response_cookies = record {
    mode = mode.mode;
    status = mode.status;
    bodiless = mode.status == 204 || mode.status == 205;
    label = label;
    response_cookies = sort response_cookies;
    validate_payload = none;
  }

  -- `withResponseValidation`; the argument is the validator compiled for the type, which may be
  -- nil.
  unfoldable pub with_response_validation : WritePlan T → Option (T → Bool) → WritePlan T
  with_response_validation p validator =
      if has_payload p.mode then record p { validate_payload = validator } else p

-- `responseMode.accepts`
unfoldable pub accepts : ResponseMode → ReplyKind → Bool
accepts mode_enveloped reply_data = true
accepts mode_page reply_paged = true
accepts mode_message reply_message = true
accepts mode_redirect reply_redirect = true
accepts _ _ = false
