-- ===== src/Cache/Budget.antt =====
-- The rate limiter on the cache: how many attempts a window lets through, and what a blocked caller
-- is told.
use golang_postgres_starter.Base.{
  some-ne-none, ℕ, ◌+◌, ◌*◌, ◌≤◌, ◌<◌, Text, codes, Bool, true, false, if◌then◌else◌, ltb, leb,
  nat_eq, text_eq, List, Option, none, some, All, lookup, insert, subst, ◌≡◌, ◌↔◌, refl, arith,
}
use golang_postgres_starter.Problem.{ProblemDetails, second, new_too_many_requests}
use golang_postgres_starter.Problem.Dispatch.{ProblemPlan, RequestLine, Body}
use golang_postgres_starter.Problem.Dispatch.Retry.{
  IsHeader, IsLimitReply, dispatch-new_too_many_requests,
}
use golang_postgres_starter.Cache.{
  Value, Row, Table, live_row, is_live, answered, bump, bump_found, Window, store_bumped,
  increment_window, retry_after, truncate, expiry, max_int32,
}
use golang_postgres_starter.Cache.Limiter.{Decision, cache_store, bucket_key, decide, allow, assert}
use golang_postgres_starter.Cache.Counting.{
  Event, run_events, count_hits, Spares, counting, is_window, is_window-false,
  increment_window-counting, run_events-counting, lookup-store_bumped,
}

-- The wait that a blocked caller is told is at least a second and whole seconds, and ends when the
-- window has closed, less than a second after it where the window is still open.
retry_after-bounds :
    (w : Window) (now : ℕ)
    → (second ≤ retry_after w now)
      × (truncate (retry_after w now) ≡ retry_after w now)
      × (w.expires_at ≤ now + retry_after w now)
      × (now < w.expires_at → now + retry_after w now < w.expires_at + second)
unfolding retry_after
retry_after-bounds w now = ground arith

lapsed :
    (now window : ℕ) (value : Value) (e : Option ℕ)
    → live_row now (some (record { value = value; expires_at = e })) ≡ none
    → bump now window (record { value = value; expires_at = e })
      ≡ some (1, counting 1 (expiry now window))
unfolding live_row is_live bump
lapsed now window value none h = absurd (some-ne-none _ h)
lapsed now window value (some e) h =
    rw (is_over now e (if-none (ltb now e) (record { value = value; expires_at = some e }) h)) refl
  where
    if-none : (b : Bool) (row : Row) → (if b then some row else none) ≡ none → b ≡ false
    if-none true row h = ground arith
    if-none false row h = refl

    is_over : (now e : ℕ) → ltb now e ≡ false → leb e now ≡ true
    is_over now e h = ground arith

-- With no live row, an attempt opens a window.
first_hit :
    (now window : ℕ) (o : Option Row)
    → live_row now o ≡ none
    → bump_found now window o ≡ some (1, counting 1 (expiry now window))
unfolding bump_found
first_hit now window none h = refl
first_hit now window (some row) h = lapsed now window row.value row.expires_at h

first_increment :
    (key : Text) (now window : ℕ) (table : Table)
    → is_window window ≡ true
    → live_row now (lookup key table) ≡ none
    → increment_window now key window table
      ≡ store_bumped key table (some (1, counting 1 (expiry now window)))
unfolding increment_window
first_increment key now window table valid fresh =
    rw (is_window-false window valid, first_hit now window (lookup key table) fresh) refl

-- What `Allow` reports of an attempt with so many hits in a window that closes then: it is allowed
-- exactly if they are within the limit, with nothing to wait for, and otherwise the wait, told at
-- the time, does not end before the window closes.
pub record Reports (hits limit close heard : ℕ) (d : Decision) : Type 0 where
  pub counted : d.hits ≡ hits
  pub measured : d.limit ≡ limit
  pub allowed_iff : (d.allowed ≡ true) ↔ (hits ≤ limit)
  pub no_wait : hits ≤ limit → d.retry_after ≡ 0
  pub waits : limit < hits → close ≤ heard + d.retry_after

within_iff : (hits limit : ℕ) → (leb hits limit ≡ true) ↔ (hits ≤ limit)
within_iff hits limit = ground arith

exceeds : (limit hits : ℕ) → limit < hits → leb hits limit ≡ false
exceeds limit hits h = ground arith

decide-Reports :
    (limit heard hits close : ℕ)
    → Reports hits limit close heard
        (decide limit heard (record { hits = hits; expires_at = close }))
decide-Reports limit heard hits close = record {
  counted = refl;
  measured = refl;
  allowed_iff = within_iff hits limit;
  no_wait = λ h. rw ((within_iff hits limit).1 h) refl;
  waits = λ h.
      rw (exceeds limit hits h)
        (retry_after-bounds (record { hits = hits; expires_at = close }) heard).2;
}

-- The attempts of a bucket are counted from the first one of a window on, through whatever other
-- statements come between: the first one has 1 hit, and the next one at a time before the close of
-- the window has one hit more than were counted up to it; each is allowed exactly if its hits are
-- within its limit, and one that is not is told a wait that does not end before the close, which the
-- first one set and the row keeps. Nothing is taken to remove the bucket's row meanwhile, and the
-- count to fit an INT.
pub allow-budget :
    (digest : Text → Text) (scope identifier : Text) (limit window start heard : ℕ) (table : Table)
    (events : List (ℕ × Event)) (window_next limit_next now later : ℕ)
    → let key = bucket_key digest scope identifier in
      let close = expiry start window in
      let hits = 1 + count_hits key events + 1 in
      is_window window ≡ true
      → is_window window_next ≡ true
      → live_row start (lookup key table) ≡ none
      → All (λ (time, event). (time < close) × Spares key event) events
      → now < close
      → 1 + count_hits key events < max_int32
      → (opened : Table) × (last : Table) × (first : Decision) × (next : Decision) × (allow digest
            cache_store scope identifier limit window start heard table
          ≡ answered (opened, first))
        × Reports 1 limit close heard first
        × (allow digest cache_store scope identifier limit_next window_next now later
              (run_events events opened)
            ≡ answered (last, next))
        × Reports hits limit_next close later next
        × (lookup key last ≡ some (counting hits close))
unfolding allow
allow-budget digest scope identifier limit window start heard table events window_next limit_next
      now later valid valid_next fresh before open_still bound =
    let key = bucket_key digest scope identifier in
    let close = expiry start window in
    let hits = 1 + count_hits key events + 1 in
    let opened = insert key (counting 1 close) table in
    let found =
      run_events-counting key 1 close events opened before (omega arith)
        (lookup-store_bumped key table 1 (counting 1 close)) in
    (
      opened,
      insert key (counting hits close) (run_events events opened),
      decide limit heard (record { hits = 1; expires_at = close }),
      decide limit_next later (record { hits = hits; expires_at = close }),
      rw (first_increment key start window table valid fresh) refl,
      decide-Reports limit heard 1 close,
      rw
          (increment_window-counting key now (1 + count_hits key events) close window_next
            (run_events events opened) open_still bound valid_next found)
          refl,
      decide-Reports limit_next later hits close,
      lookup-store_bumped key (run_events events opened) hits (counting hits close),
    )

-- Where JSON encoding succeeds, an attempt whose hits exceed the limit is refused by `Assert`, with an
-- error that reaches the client as 429 if the adapter sends it, or a handler or a guard whose plan
-- allows the kind, and as 500 if the plan does not; after the whole seconds of the 429's
-- Retry-After the window has closed.
pub refused-response :
    (digest : Text → Text) (encodes : ProblemDetails → Bool) (r : Option RequestLine)
    (plan : ProblemPlan) (scope identifier : Text) (limit window now later : ℕ) (table last : Table)
    (w : Window)
    → ((q : ProblemDetails) → encodes q ≡ true)
    → increment_window now (bucket_key digest scope identifier) window table ≡ answered (last, w)
    → limit < w.hits
    → (p : ProblemDetails) × (seconds : ℕ) × (body : Body) × (assert digest cache_store scope
          identifier limit window now later table
        ≡ answered (last, some p))
      × IsLimitReply encodes r plan p (some seconds) body
      × (w.expires_at ≤ later + seconds * second)
unfolding assert
refused-response digest encodes r plan scope identifier limit window now later table last w total e
      over =
    let wait = retry_after w later in
    let message = codes "too many attempts, please try again later" in
    let (least, _, closes, _) = retry_after-bounds w later in
    let (header, body, is, reply) =
      dispatch-new_too_many_requests encodes r plan message wait total in
    let (seconds, same, enough) = header_seconds wait header (omega arith) is in
    (
      new_too_many_requests message wait,
      seconds,
      body,
      rw (e, exceeds limit w.hits over) refl,
      subst (λ o. IsLimitReply encodes r plan (new_too_many_requests message wait) o body) same
          reply,
      omega arith,
    )
  where
    header_seconds :
        (wait : ℕ) (header : Option ℕ)
        → 0 < wait
        → IsHeader wait header
        → (seconds : ℕ) × (header ≡ some seconds) × (wait ≤ seconds * second)
    header_seconds wait none pos is = absurd (omega arith)
    header_seconds wait (some seconds) pos (_, enough, _) = (seconds, refl, enough)
