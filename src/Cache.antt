-- ===== src/Cache.antt =====
-- internal/db/cache/cache.go with the statements of internal/db/sqlc/cache.sql.go: the cache table,
-- its reads and writes, and the counter of a fixed window.

pub mod Limiter
pub mod Counting
pub mod Budget
mod Tests
use golang_postgres_starter.Base.{
  ℕ, suc, ◌+◌, ◌-◌, ◌*◌, ◌/◌, ◌^◌, Text, Bool, true, false, ◌||◌, ◌&&◌, if◌then◌else◌, ltb, leb,
  ◌==◌, nat_eq, text_eq, List, [], ◌∷◌, Option, none, some, contains, lookup, insert, insert_sorted,
}
use golang_postgres_starter.Problem.{second}

-- A JSONB value: the number of a counter, or another document.
pub data Value : Type 0 where
  counter : ℕ → Value
  document : Text → Value

-- A row, without created_at, which nothing reads; `none` is the NULL of an entry that never
-- expires. Times are in nanoseconds.
pub record Row : Type 0 where
  pub value : Value
  pub expires_at : Option ℕ

-- The table by its primary key.
abbrev pub Table : Type 0
Table = List (Text × Row)

abbrev pub max_ttl_seconds : ℕ
max_ttl_seconds = 31 * 24 * 60 * 60

-- The largest INT of PostgreSQL.
abbrev pub max_int32 : ℕ
max_int32 = 2 ^ 31 - 1

pub data CacheError : Type 0 where
  invalid_ttl query_failed encoding_failed : CacheError

pub data Answer {ℓ} (X : Type ℓ) : Type ℓ where
  failed : CacheError → Answer X
  answered : X → Answer X

-- `expires_at IS NULL OR expires_at > NOW()`
unfoldable pub is_live : ℕ → Row → Bool
is_live now row = elim row.expires_at [ none ↦ true | some e ↦ ltb now e ]

unfoldable pub live_row : ℕ → Option Row → Option Row
unfolding is_live
live_row now none = none
live_row now (some row) = if is_live now row then some row else none

-- GetCacheEntry, in `Get`: a miss is nil.
unfoldable pub get : ℕ → Text → Table → Option Value
unfolding live_row
get now key table = elim (live_row now (lookup key table)) [
  | none ↦ none
  | some row ↦ some row.value
]

abbrev pub expiry : ℕ → ℕ → ℕ
expiry now seconds = now + seconds * second

-- SetCacheEntry
unfoldable pub set_entry : ℕ → Text → Value → ℕ → Table → Table
set_entry now key value ttl table =
    insert key
      (record { value = value; expires_at = if ltb 0 ttl then some (expiry now ttl) else none })
      table

-- `Set`; the value is `none` where it cannot be encoded.
unfoldable pub set : ℕ → Text → Option Value → ℕ → Table → Answer Table
unfolding set_entry
set now key value ttl table = if ltb max_ttl_seconds ttl then failed invalid_ttl else elim value [
  | none ↦ failed encoding_failed
  | some v ↦ answered (set_entry now key v ttl table)
]

-- What IncrementCacheCounter leaves for a row; `none` where the cast or the sum fails.
unfoldable pub bump : ℕ → ℕ → Row → Option (ℕ × Row)
bump now window row = elim row.expires_at [
  | none ↦ some (1, record { value = counter 1; expires_at = some (expiry now window) })
  | some e ↦
      if leb e now
      then some (1, record { value = counter 1; expires_at = some (expiry now window) })
      else elim row.value [
        | document _ ↦ none
        | counter n ↦
            if ltb n max_int32
            then some (n + 1, record { value = counter (n + 1); expires_at = some e })
            else none
      ]
]

unfoldable pub bump_found : ℕ → ℕ → Option Row → Option (ℕ × Row)
unfolding bump
bump_found now window none =
    some (1, record { value = counter 1; expires_at = some (expiry now window) })
bump_found now window (some row) = bump now window row

-- `Window`; the zero time stands for a NULL.
pub record Window : Type 0 where
  pub hits : ℕ
  pub expires_at : ℕ

abbrev pub or_zero : Option ℕ → ℕ
or_zero none = 0
or_zero (some e) = e

abbrev pub store_bumped : Text → Table → Option (ℕ × Row) → Answer (Table × Window)
store_bumped key table none = failed query_failed
store_bumped key table (some (hits, row)) =
    answered (insert key row table, record { hits = hits; expires_at = or_zero row.expires_at })

-- `IncrementWindow`: one atomic statement.
unfoldable pub increment_window : ℕ → Text → ℕ → Table → Answer (Table × Window)
unfolding bump_found
increment_window now key window table =
    if window == 0 || ltb max_ttl_seconds window
    then failed invalid_ttl
    else store_bumped key table (bump_found now window (lookup key table))

-- DeleteCacheEntries, in `Flush`.
unfoldable pub flush : List Text → Table → Table
flush keys [] = []
flush keys ((name, row) ∷ table) =
    if contains keys name then flush keys table else (name, row) ∷ flush keys table

-- PurgeExpiredCacheEntries: the rows that stay.
unfoldable pub purge_expired : ℕ → Table → Table
unfolding is_live
purge_expired now [] = []
purge_expired now ((name, row) ∷ table) =
    let kept = purge_expired now table in if is_live now row then (name, row) ∷ kept else kept

-- How many rows go.
unfoldable pub count_expired : ℕ → Table → ℕ
unfolding is_live
count_expired now [] = 0
count_expired now ((name, row) ∷ table) =
    let gone = count_expired now table in if is_live now row then gone else suc gone

-- `PruneExpired`: the table and the number of the rows that went.
unfoldable pub prune_expired : ℕ → Table → Table × ℕ
unfolding purge_expired count_expired
prune_expired now table = (purge_expired now table, count_expired now table)

-- `RetryAfter`: whole seconds, at least one.
abbrev pub truncate : ℕ → ℕ
truncate d = (d / second) * second

unfoldable pub retry_after : Window → ℕ → ℕ
retry_after w now =
    let remaining = w.expires_at - now in
    if leb w.expires_at now
    then second
    else if truncate remaining == remaining
    then truncate remaining
    else truncate remaining + second

-- `likePattern`
unfoldable pub like_pattern : Text → Text
like_pattern [] = []
like_pattern (c ∷ pattern) = (if c == b'*' then b'%' else c) ∷ like_pattern pattern

-- Some end of the text satisfies a test.
abbrev pub some_end : (Text → Bool) → Text → Bool
some_end test [] = test []
some_end test (c ∷ s) = test (c ∷ s) || some_end test s

-- SQL's LIKE, without the escape character: the pattern first.
unfoldable pub like : Text → Text → Bool
like [] [] = true
like [] (c ∷ s) = false
like (p ∷ pattern) s =
    let skipping = some_end (like pattern) s in
    if p == b'%'
    then skipping
    else elim s [ [] ↦ false | c ∷ rest ↦ (p == b'_' || p == c) && like pattern rest ]

-- ListCacheKeysByPattern and DeleteCacheEntriesByPattern, for a pattern's test.
unfoldable pub list_keys : (Text → Bool) → ℕ → Table → List Text
unfolding is_live insert_sorted
list_keys matches now [] = []
list_keys matches now ((name, row) ∷ table) =
    if matches name && is_live now row
    then insert_sorted name (list_keys matches now table)
    else list_keys matches now table

unfoldable pub delete_matching : (Text → Bool) → Table → Table
delete_matching matches [] = []
delete_matching matches ((name, row) ∷ table) =
    if matches name
    then delete_matching matches table
    else (name, row) ∷ delete_matching matches table

-- `GetPattern` and `FlushPattern`
unfoldable pub get_pattern : ℕ → Text → Table → List Text
unfolding list_keys like like_pattern
get_pattern now pattern table = list_keys (like (like_pattern pattern)) now table

unfoldable pub flush_pattern : Text → Table → Table
unfolding delete_matching like like_pattern
flush_pattern pattern table = delete_matching (like (like_pattern pattern)) table
