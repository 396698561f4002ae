-- ===== src/Cache/Tests.antt =====
-- Runs of the cache and of the limiter, and the theorems at them.
use golang_postgres_starter.Base.{
  nat_eq, text_eq, ℕ, ◌+◌, ◌*◌, ◌≤◌, Text, codes, true, false, List, [], ◌∷◌, none, some, lookup,
  insert, ◌≡◌, refl, arith, to_lower, trim_space,
}
use golang_postgres_starter.Problem.{ProblemDetails, too_many_requests, second}
use golang_postgres_starter.Problem.Dispatch.{ProblemPlan, Body}
use golang_postgres_starter.Cache.{
  counter, Table, answered, increment_window, retry_after, expiry, get, prune_expired,
  purge_expired, count_expired, like_pattern, like, flush_pattern, failed, invalid_ttl,
}
use golang_postgres_starter.Cache.Limiter.{Decision, cache_store, bucket_key, allow, assert}
use golang_postgres_starter.Cache.Counting.{Event, hit, pruned, run_events, count_hits, counting}
use golang_postgres_starter.Problem.Dispatch.Retry.{IsLimitReply}
use golang_postgres_starter.Cache.Budget.{Reports, allow-budget, refused-response}

abbrev digest : Text → Text
digest s = s

abbrev login : Text
login = codes "login"

abbrev ann : Text
ann = codes "ann"

abbrev bucket : Text
bucket = codes "ratelimit:login:ann"

abbrev table : Table
table = (codes "other", counting 7 3) ∷ []

-- In the window two attempts of the bucket and a purge.
abbrev events : List (ℕ × Event)
events = (20, hit bucket 60) ∷ (25, hit (codes "other") 60) ∷ (30, pruned) ∷ (40, hit bucket 5) ∷ []

cache_runs : Unit {0}
unfolding increment_window get prune_expired purge_expired count_expired lookup insert allow
    run_events bucket_key to_lower trim_space like_pattern like flush_pattern retry_after
cache_runs = tt

cache_tests :
    (bucket_key digest login (codes " ANN ") ≡ bucket)
    × (count_hits bucket events ≡ 2)
    × (get 40 bucket (run_events events table) ≡ some (counter 2))
    × (retry_after (record { hits = 4; expires_at = 2_500_000_000 }) 0 ≡ 3 * second)
    × (flush_pattern (codes "ratelimit:*") ((bucket, counting 1 9) ∷ table) ≡ table)
    × (prune_expired 9 ((bucket, counting 1 9) ∷ table) ≡ ([], 2))
    × (increment_window 0 bucket 0 table ≡ failed invalid_ttl)
unfolding cache_runs
cache_tests = (refl, refl, refl, refl, refl, refl, refl)

allow-budget_example :
    let close = expiry 10 60 in
    let hits = 1 + count_hits bucket events + 1 in
    (opened : Table) × (last : Table) × (first : Decision) × (next : Decision) × (allow digest
        cache_store login ann 2 60 10 11 table
      ≡ answered (opened, first))
    × Reports 1 2 close 11 first
    × (allow digest cache_store login ann 2 60 50 51 (run_events events opened)
        ≡ answered (last, next))
    × Reports hits 2 close 51 next
    × (lookup bucket last ≡ some (counting hits close))
unfolding cache_runs
allow-budget_example =
    allow-budget digest login ann 2 60 10 11 table events 60 2 50 51 refl refl refl
      ((omega arith, tt), ((omega arith, tt), ((omega arith, tt), ((omega arith, tt), tt))))
      (omega arith) (omega arith)

abbrev declaring : ProblemPlan
declaring = record { label = login; allowed = too_many_requests ∷ []; allow_challenge = false }

refused-response_example :
    (p : ProblemDetails) × (seconds : ℕ) × (body : Body) × (assert digest cache_store login ann 2 60
        50 51
        ((bucket, counting 5 90) ∷ [])
      ≡ answered ((bucket, counting 6 90) ∷ [], some p))
    × IsLimitReply (λ _. true) none declaring p (some seconds) body
    × (90 ≤ 51 + seconds * second)
unfolding cache_runs
refused-response_example =
    refused-response digest (λ _. true) none declaring login ann 2 60 50 51
      ((bucket, counting 5 90) ∷ []) ((bucket, counting 6 90) ∷ [])
      (record { hits = 6; expires_at = 90 }) (λ _. refl) refl (omega arith)
