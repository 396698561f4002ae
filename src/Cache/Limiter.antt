-- ===== src/Cache/Limiter.antt =====
-- internal/db/cache/ratelimit.go: the rate limiter over a store of counters.
use golang_postgres_starter.Base.{
  ℕ, Text, codes, Bool, if◌then◌else◌, leb, List, [], ◌∷◌, ◌++◌, Option, none, some, to_lower,
  trim_space, suc, zero,
}
use golang_postgres_starter.Problem.{ProblemDetails, new_too_many_requests}
use golang_postgres_starter.Cache.{
  Table, Answer, failed, answered, Window, increment_window, flush, retry_after,
}

-- `Store`: what the limiter needs, over states `S`, with the time of the statement.
pub record Store (S : Type 0) : Type 0 where
  pub increment : ℕ → Text → ℕ → S → Answer (S × Window)
  pub clear : List Text → S → Answer S

-- `*Cache` as a Store.
abbrev pub cache_store : Store Table
cache_store = record {
  increment = increment_window;
  clear = λ keys table. answered (flush keys table);
}

abbrev pub rate_limit_prefix : Text
rate_limit_prefix = codes "ratelimit"

abbrev pub identifier_digest_length : ℕ
identifier_digest_length = 32

abbrev pub take : ℕ → Text → Text
take zero s = []
take (suc n) [] = []
take (suc n) (c ∷ s) = c ∷ take n s

pub record Decision : Type 0 where
  pub allowed : Bool
  pub hits : ℕ
  pub limit : ℕ
  pub retry_after : ℕ

abbrev pub decide : ℕ → ℕ → Window → Decision
decide limit now window = record {
  allowed = leb window.hits limit;
  hits = window.hits;
  limit = limit;
  retry_after = if leb window.hits limit then 0 else retry_after window now;
}

-- `digest` is the hex form of SHA-256.
module _ (digest : Text → Text) where
  -- `Key`
  unfoldable pub bucket_key : Text → Text → Text
  bucket_key scope identifier =
      rate_limit_prefix
      ++ b':'
        ∷ (scope
            ++ b':' ∷ take identifier_digest_length (digest (to_lower (trim_space identifier))))

  module _ {S : Type 0} (store : Store S) where
    abbrev decide_next : ℕ → ℕ → Answer (S × Window) → Answer (S × Decision)
    decide_next limit later (failed e) = failed e
    decide_next limit later (answered (s, window)) = answered (s, decide limit later window)

    -- `Allow`: `now` is the time of the statement, `later` that of the process after it.
    unfoldable pub allow : Text → Text → ℕ → ℕ → ℕ → ℕ → S → Answer (S × Decision)
    unfolding bucket_key
    allow scope identifier limit window now later s =
        decide_next limit later (store.increment now (bucket_key scope identifier) window s)

    abbrev refuse : Answer (S × Decision) → Answer (S × Option ProblemDetails)
    refuse (failed e) = failed e
    refuse (answered (s, d)) = answered (
      s,
      (if d.allowed
          then none
          else some (
              new_too_many_requests (codes "too many attempts, please try again later")
                d.retry_after)),
    )

    -- `Assert`
    unfoldable pub assert : Text → Text → ℕ → ℕ → ℕ → ℕ → S → Answer (S × Option ProblemDetails)
    unfolding allow
    assert scope identifier limit window now later s =
        refuse (allow scope identifier limit window now later s)

    -- `Clear`
    unfoldable pub clear_bucket : Text → Text → S → Answer S
    unfolding bucket_key
    clear_bucket scope identifier s = store.clear (bucket_key scope identifier ∷ []) s
