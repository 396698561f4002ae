-- ===== src/Response/Page.antt =====
-- internal/httpx/response.go: FinishCursorPage, the end of a keyset query that fetches one row more
-- than the page holds.

pub mod Follow
pub mod Reversal
pub mod Trim
pub mod Parts
pub mod Walk
use golang_postgres_starter.Base.{
  ℕ, zero, suc, ◌+◌, ◌-◌, Text, Bool, true, false, ◌&&◌, if◌then◌else◌, ltb, List, [], ◌∷◌, length,
  get_elem?, Option, none, some,
}
use golang_postgres_starter.Strconv.{ℤ, pos, negsuc}
use golang_postgres_starter.Response.{Pagination}

-- A position: the identifier and the time of creation.
pub record PageCursor : Type 0 where
  pub id : Text
  pub created_at : ℕ

abbrev pub page_start : ℕ → ℕ → Pagination
page_start limit records = record {
  has_next = false;
  has_prev = false;
  next_after_id = [];
  next_after_created_at = 0;
  prev_before_id = [];
  prev_before_created_at = 0;
  limit = limit;
  records = records;
}

unfoldable pub flag_neighbours : Bool → Bool → Bool → Bool → Pagination → Pagination
flag_neighbours has_before has_after has_more nonempty meta =
    if has_before
    then record meta { has_prev = has_more; has_next = nonempty }
    else record meta { has_next = has_more; has_prev = has_after && nonempty }

module _ {T : Type 0} where
  unfoldable pub take : ℕ → List T → List T
  take zero rows = []
  take (suc n) [] = []
  take (suc n) (row ∷ rows) = row ∷ take n rows

  -- A write out of range changes nothing.
  unfoldable pub set : List T → ℕ → T → List T
  set [] i v = []
  set (row ∷ rows) zero v = v ∷ rows
  set (row ∷ rows) (suc i) v = row ∷ set rows i v

  -- `rows[i], rows[j] = rows[j], rows[i]`, with the two values read.
  unfoldable pub exchange : Option T → Option T → ℕ → ℕ → List T → List T
  unfolding set
  exchange (some a) (some b) i j rows = set (set rows i b) j a
  exchange none b i j rows = rows
  exchange (some a) none i j rows = rows

  unfoldable pub swap : ℕ → ℕ → List T → List T
  unfolding exchange
  swap i j rows = exchange (get_elem? rows i) (get_elem? rows j) i j rows

  -- The loop that reverses in place, with fuel; half the rows and one are enough.
  unfoldable pub reverse_loop : ℕ → ℕ → ℕ → List T → List T
  unfolding swap
  reverse_loop zero i j rows = rows
  reverse_loop (suc fuel) i j rows =
      let swapped = reverse_loop fuel (i + 1) (j - 1) (swap i j rows) in
      if ltb i j then swapped else rows

  -- `for i, j := 0, len(rows)-1; i < j; i, j = i+1, j-1`; of no rows it does nothing.
  unfoldable pub reverse_in_place : List T → List T
  unfolding reverse_loop
  reverse_in_place rows = reverse_loop (suc (length rows)) 0 (length rows - 1) rows

  abbrev pub first_of : List T → Option T
  first_of [] = none
  first_of (row ∷ rows) = some row

  abbrev pub last_of : List T → Option T
  last_of [] = none
  last_of (row ∷ []) = some row
  last_of (row ∷ next ∷ rows) = last_of (next ∷ rows)

  -- The total that the last row carries; the function may be nil.
  abbrev pub records_of : Option (T → ℕ) → Option T → ℕ
  records_of none row = 0
  records_of (some records) none = 0
  records_of (some records) (some row) = records row

  abbrev pub is_nonempty : List T → Bool
  is_nonempty [] = false
  is_nonempty (row ∷ rows) = true

  -- The cursors of the first and the last row, if there is one.
  unfoldable pub place_cursors : (T → PageCursor) → Option T → Option T → Pagination → Pagination
  place_cursors cursor (some first) (some last) meta = record meta {
    next_after_id = (cursor last).id;
    next_after_created_at = (cursor last).created_at;
    prev_before_id = (cursor first).id;
    prev_before_created_at = (cursor first).created_at;
  }
  place_cursors cursor none last meta = meta
  place_cursors cursor (some first) none meta = meta

  -- What is done with a limit that is not negative.
  unfoldable pub finish_page :
      List T → ℕ → Bool → Bool → (T → PageCursor) → Option (T → ℕ) → List T × Pagination
  unfolding take reverse_in_place place_cursors flag_neighbours
  finish_page rows limit has_after has_before cursor records =
      let has_more = ltb limit (length rows) in
      let kept = if has_more then take limit rows else rows in
      let page = if has_before then reverse_in_place kept else kept in
      let meta = page_start limit (records_of records (last_of rows)) in
      (
        page,
        flag_neighbours has_before has_after has_more (is_nonempty page)
            (place_cursors cursor (first_of page) (last_of page) meta),
      )

  -- `FinishCursorPage`; `none` is the panic of a slice bound below 0.
  unfoldable pub finish_cursor_page :
      List T → ℤ → Bool → Bool → (T → PageCursor) → Option (T → ℕ) → Option (List T × Pagination)
  unfolding finish_page
  finish_cursor_page rows (negsuc limit) has_after has_before cursor records = none
  finish_cursor_page rows (pos limit) has_after has_before cursor records =
      some (finish_page rows limit has_after has_before cursor records)
