-- ===== src/Cache/Counting.antt =====
-- A live window counts every hit once, whatever the statements that come between.
use golang_postgres_starter.Base.{
  ℕ, ◌+◌, ◌≤◌, ◌<◌, Text, Bool, true, false, not, ◌||◌, ◌&&◌, if◌then◌else◌, ltb, lt→ltb, leb, ◌==◌,
  nat_eq, text_eq, list_beq_iff, List, [], ◌∷◌, Option, none, some, contains, All, lookup,
  lookup-insert, ◌≡◌, ◌≢◌, refl, ◌∙◌, subst, arith, Bool-cases, if-both, inl, inr,
}
use golang_postgres_starter.Cache.{
  Value, counter, Row, Table, max_ttl_seconds, max_int32, Answer, failed, answered, invalid_ttl,
  is_live, set_entry, bump, bump_found, Window, store_bumped, increment_window, flush,
  purge_expired, prune_expired, expiry,
}

-- The statements that other callers may run on the table.
pub data Event : Type 0 where
  hit : Text → ℕ → Event
  written : Text → Value → ℕ → Event
  flushed : List Text → Event
  pruned : Event

abbrev pub kept_or : Table → Answer (Table × Window) → Table
kept_or table (failed e) = table
kept_or table (answered (next, w)) = next

-- A statement that fails leaves the table.
unfoldable pub run_event : ℕ → Event → Table → Table
run_event now (hit key window) table = kept_or table (increment_window now key window table)
run_event now (written key value ttl) table = set_entry now key value ttl table
run_event now (flushed keys) table = flush keys table
run_event now pruned table = (prune_expired now table).0

unfoldable pub run_events : List (ℕ × Event) → Table → Table
unfolding run_event
run_events [] table = table
run_events ((now, event) ∷ events) table = run_events events (run_event now event table)

abbrev pub is_window : ℕ → Bool
is_window window = not (window == 0 || ltb max_ttl_seconds window)

-- How often a bucket is hit with a valid window.
abbrev pub weight : Text → Event → ℕ
weight key (hit name window) = if name == key && is_window window then 1 else 0
weight key (written _ _ _) = 0
weight key (flushed _) = 0
weight key pruned = 0

abbrev pub count_hits : Text → List (ℕ × Event) → ℕ
count_hits key [] = 0
count_hits key ((_, event) ∷ events) = weight key event + count_hits key events

-- The statement does not name the key otherwise.
abbrev pub Spares : Text → Event → Type 0
Spares key (hit _ _) = Unit
Spares key (written name _ _) = name ≢ key
Spares key (flushed keys) = contains keys key ≡ false
Spares key pruned = Unit

-- The counter of a window that closes at `e`.
abbrev pub counting : ℕ → ℕ → Row
counting n e = record { value = counter n; expires_at = some e }

lookup-flush :
    (keys : List Text) (key : Text) (table : Table)
    → contains keys key ≡ false
    → lookup key (flush keys table) ≡ lookup key table
unfolding lookup flush
lookup-flush keys key [] h = refl
lookup-flush keys key ((name, row) ∷ table) h = elim (Bool-cases (contains keys name)) [
  | inl gone ↦ ground (arith, lookup-flush keys key table h, list_beq_iff key name)
  | inr stays ↦ rw stays (ground (arith, lookup-flush keys key table h))
]

lookup-purge_expired :
    (now : ℕ) (key : Text) (row : Row) (table : Table)
    → lookup key table ≡ some row
    → is_live now row ≡ true
    → lookup key (purge_expired now table) ≡ some row
unfolding lookup purge_expired
lookup-purge_expired now key row [] h live = h
lookup-purge_expired now key row ((name, old) ∷ table) h live =
    let rest = lookup-purge_expired now key row table in ground (arith, list_beq_iff key name)

bump-counting :
    (now window n e : ℕ)
    → now < e
    → n < max_int32
    → bump now window (counting n e) ≡ some (n + 1, counting (n + 1) e)
unfolding bump
bump-counting now window n e h k = rw (is_later e now h, lt→ltb n max_int32 k) refl
  where
    is_later : (e now : ℕ) → now < e → leb e now ≡ false
    is_later e now h = ground arith

counting-is_live : (now n e : ℕ) → now < e → is_live now (counting n e) ≡ true
unfolding is_live
counting-is_live now n e h = lt→ltb now e h

lookup-store_bumped_other :
    (key name : Text) (table : Table) (o : Option (ℕ × Row))
    → name ≢ key
    → lookup key (kept_or table (store_bumped name table o)) ≡ lookup key table
lookup-store_bumped_other key name table none h = refl
lookup-store_bumped_other key name table (some (hits, row)) h =
    ground (arith, lookup-insert key name row table, list_beq_iff key name)

pub lookup-store_bumped :
    (key : Text) (table : Table) (hits : ℕ) (row : Row)
    → lookup key (kept_or table (store_bumped key table (some (hits, row)))) ≡ some row
lookup-store_bumped key table hits row =
    ground (arith, lookup-insert key key row table, list_beq_iff key key)

pub is_window-false :
    (window : ℕ) → is_window window ≡ true → (window == 0 || ltb max_ttl_seconds window) ≡ false
is_window-false window h = ground arith

-- A hit on the bucket itself.
pub increment_window-counting :
    (key : Text) (now n e window : ℕ) (table : Table)
    → now < e
    → n < max_int32
    → is_window window ≡ true
    → lookup key table ≡ some (counting n e)
    → increment_window now key window table
      ≡ store_bumped key table (some (n + 1, counting (n + 1) e))
unfolding increment_window bump_found
increment_window-counting key now n e window table h k valid found =
    rw (is_window-false window valid, found, bump-counting now window n e h k) refl

hit-refused :
    (key : Text) (now window : ℕ) (table : Table)
    → is_window window ≡ false
    → kept_or table (increment_window now key window table) ≡ table
unfolding increment_window
hit-refused key now window table h = rw (is_window_true window h) refl
  where
    is_window_true :
        (window : ℕ) → is_window window ≡ false → (window == 0 || ltb max_ttl_seconds window) ≡ true
    is_window_true window h = ground arith

hit-other :
    (key name : Text) (now window : ℕ) (table : Table)
    → name ≢ key
    → lookup key (kept_or table (increment_window now name window table)) ≡ lookup key table
unfolding increment_window
hit-other key name now window table h =
    if-both (λ r. lookup key (kept_or table r) ≡ lookup key table)
      (window == 0 || ltb max_ttl_seconds window) (failed invalid_ttl)
      (store_bumped name table (bump_found now window (lookup name table))) refl
      (lookup-store_bumped_other key name table (bump_found now window (lookup name table)) h)

plus_zero : (n : ℕ) → n + 0 ≡ n
plus_zero n = omega arith

hit-counting :
    (key name : Text) (now n e window : ℕ) (table : Table) (same valid : Bool)
    → (name == key) ≡ same
    → is_window window ≡ valid
    → now < e
    → n + (if same && valid then 1 else 0) ≤ max_int32
    → lookup key table ≡ some (counting n e)
    → lookup key (kept_or table (increment_window now name window table))
      ≡ some (counting (n + (if same && valid then 1 else 0)) e)
hit-counting key name now n e window table true true p q h bound found =
    rw
      (
        (list_beq_iff name key).0 p,
        increment_window-counting key now n e window table h (omega arith) q found,
        lookup-store_bumped key table (n + 1) (counting (n + 1) e),
      )
      refl
hit-counting key name now n e window table true false p q h bound found =
    rw (plus_zero n, hit-refused name now window table q) found
hit-counting key name now n e window table false valid p q h bound found =
    rw (plus_zero n)
      (hit-other key name now window table (λ k. ground (arith, list_beq_iff name key)) ∙ found)

-- One statement at a time before the close of the window.
run_event-counting :
    (key : Text) (now n e : ℕ) (event : Event) (table : Table)
    → now < e
    → Spares key event
    → n + weight key event ≤ max_int32
    → lookup key table ≡ some (counting n e)
    → lookup key (run_event now event table) ≡ some (counting (n + weight key event) e)
unfolding run_event prune_expired
run_event-counting key now n e (hit name window) table h spares bound found =
    hit-counting key name now n e window table _ _ refl refl h bound found
run_event-counting key now n e (written name value ttl) table h spares bound found =
    unfold set_entry in
    (ground (
      arith,
      lookup-insert key name
          (record { value = value; expires_at = if ltb 0 ttl then some (expiry now ttl) else none })
          table,
      list_beq_iff key name,
    ))
run_event-counting key now n e (flushed keys) table h spares bound found =
    ground (arith, lookup-flush keys key table spares)
run_event-counting key now n e pruned table h spares bound found =
    rw (plus_zero n)
      (lookup-purge_expired now key (counting n e) table found (counting-is_live now n e h))

-- Every valid hit in a live window is counted exactly once, and none moves the close of the window,
-- in whatever order other buckets are hit, entries written and removed and expired rows purged,
-- provided that nothing removes the bucket's row and the count fits an INT.
pub run_events-counting :
    (key : Text) (n e : ℕ) (events : List (ℕ × Event)) (table : Table)
    → All (λ (now, event). (now < e) × Spares key event) events
    → n + count_hits key events ≤ max_int32
    → lookup key table ≡ some (counting n e)
    → lookup key (run_events events table) ≡ some (counting (n + count_hits key events) e)
unfolding run_events
run_events-counting key n e [] table h bound found = rw (plus_zero n) found
run_events-counting key n e ((now, event) ∷ events) table ((before, spares), h) bound found =
    let first = run_event-counting key now n e event table before spares (omega arith) found in
    subst
      (λ total.
        lookup key (run_events events (run_event now event table)) ≡ some (counting total e))
      (omega arith)
      (run_events-counting key (n + weight key event) e events (run_event now event table) h
        (omega arith) first)
