-- ===== src/Response/Page/Follow.antt =====
-- A client that follows the cursors of the pages, and what one step of it sees.
use golang_postgres_starter.Base.{
  ltb-false, ℕ, zero, suc, ◌≤◌, ◌<◌, Bool, true, false, ltb, lt→ltb, if◌then◌else◌, List, [], ◌++◌,
  length, Option, none, some, ◌≡◌, refl, ◌∙◌, ap, arith,
}
use mathlib.Core.List.{reverse}
use golang_postgres_starter.Response.{Pagination}
use golang_postgres_starter.Response.Page.{
  PageCursor, take, first_of, last_of, place_cursors, flag_neighbours, finish_page,
}
use golang_postgres_starter.Response.Page.Trim.{take-all, meta_of, finish_page_lem}
use golang_postgres_starter.Response.Page.Parts.{take-take, length-take_more}

abbrev pub is_some : Option PageCursor → Bool
is_some none = false
is_some (some _) = true

-- The cursors that a client sends on.
abbrev pub next_cursor : Pagination → PageCursor
next_cursor meta = record { id = meta.next_after_id; created_at = meta.next_after_created_at }

abbrev pub prev_cursor : Pagination → PageCursor
prev_cursor meta = record { id = meta.prev_before_id; created_at = meta.prev_before_created_at }

module _ {T : Type 0} (cursor : T → PageCursor) (limit : ℕ)
    (fetch : Option PageCursor → ℕ → List T) where
  -- The rows of the first page behind a cursor, and of those that follow while one is announced.
  pub follow : ℕ → Option PageCursor → List T
  follow zero after = []
  follow (suc fuel) after =
      let (page, meta) =
        finish_page (fetch after (suc limit)) limit (is_some after) false cursor none in
      let rest = follow fuel (some (next_cursor meta)) in
      if meta.has_next then page ++ rest else page

  -- The same backwards, from a page to the one before it.
  pub follow_back : ℕ → Option PageCursor → List T
  follow_back zero before = []
  follow_back (suc fuel) before =
      let (page, meta) = finish_page (fetch before (suc limit)) limit false true cursor none in
      let rest = follow_back fuel (some (prev_cursor meta)) in
      if meta.has_prev then rest ++ page else page

abbrev pub cursor_of : {T : Type 0} → (T → PageCursor) → Option T → Option PageCursor
cursor_of cursor none = none
cursor_of cursor (some row) = some (cursor row)

module _ {T : Type 0} (table : List T) (cursor : T → PageCursor)
    (fetch : Option PageCursor → ℕ → List T) where
  -- The query returns the rows behind the one with the cursor, in order, and all without a cursor.
  abbrev pub FetchesAfter : Type 0
  FetchesAfter =
      (seen rest : List T) (n : ℕ)
      → table ≡ seen ++ rest
      → fetch (cursor_of cursor (last_of seen)) n ≡ take n rest

  -- The query returns the rows in front of the one with the cursor, the nearest first.
  abbrev pub FetchesBefore : Type 0
  FetchesBefore =
      (rest seen : List T) (n : ℕ)
      → table ≡ rest ++ seen
      → fetch (cursor_of cursor (first_of seen)) n ≡ take n (reverse rest)

module _ {T : Type 0} where
  -- The metadata of a page with rows has the cursors of its ends.
  place_cursors-cursors :
      (cursor : T → PageCursor) (has_before has_after has_more nonempty : Bool) (meta : Pagination)
      (first last : Option T) (a b : T)
      → first ≡ some a
      → last ≡ some b
      → let placed =
          flag_neighbours has_before has_after has_more nonempty
            (place_cursors cursor first last meta) in
        (next_cursor placed ≡ cursor b) × (prev_cursor placed ≡ cursor a)
  unfolding flag_neighbours place_cursors
  place_cursors-cursors cursor true has_after has_more nonempty meta first last a b ha hb =
      rw (ha, hb) (refl, refl)
  place_cursors-cursors cursor false has_after has_more nonempty meta first last a b ha hb =
      rw (ha, hb) (refl, refl)

module _ {T : Type 0} (cursor : T → PageCursor) (limit : ℕ)
    (fetch : Option PageCursor → ℕ → List T) where
  follow_lem :
      (fuel : ℕ) (after : Option PageCursor)
      → let rows = fetch after (suc limit) in
        follow cursor limit fetch (suc fuel) after ≡ (
          if ltb limit (length rows)
          then take limit rows
            ++ follow cursor limit fetch fuel
                (some (next_cursor (meta_of cursor none rows limit (is_some after) false)))
          else take limit rows)
  unfolding follow flag_neighbours
  follow_lem fuel after =
      rw (finish_page_lem (fetch after (suc limit)) limit (is_some after) false cursor none) refl

  follow_back_lem :
      (fuel : ℕ) (before : Option PageCursor)
      → let rows = fetch before (suc limit) in
        follow_back cursor limit fetch (suc fuel) before ≡ (
          if ltb limit (length rows)
          then follow_back cursor limit fetch fuel
              (some (prev_cursor (meta_of cursor none rows limit false true)))
            ++ reverse (take limit rows)
          else reverse (take limit rows))
  unfolding follow_back flag_neighbours
  follow_back_lem fuel before =
      rw (finish_page_lem (fetch before (suc limit)) limit false true cursor none) refl

module _ {T : Type 0} (cursor : T → PageCursor) (limit : ℕ) (fetch : Option PageCursor → ℕ → List T)
    (fuel : ℕ) (from : Option PageCursor) (rest : List T)
    (fetched : fetch from (suc limit) ≡ take (suc limit) rest) where
  pub follow-fits : length rest ≤ limit → follow cursor limit fetch (suc fuel) from ≡ rest
  follow-fits h =
      let whole = fetched ∙ take-all (suc limit) rest (omega arith) in
      follow_lem cursor limit fetch fuel from
      ∙ rw whole (rw (ltb-false limit (length rest) h) (take-all limit rest h))

  pub follow_back-fits :
      length rest ≤ limit → follow_back cursor limit fetch (suc fuel) from ≡ reverse rest
  follow_back-fits h =
      let whole = fetched ∙ take-all (suc limit) rest (omega arith) in
      follow_back_lem cursor limit fetch fuel from
      ∙ rw whole (rw (ltb-false limit (length rest) h) (ap reverse (take-all limit rest h)))

  pub size : limit < length rest → ltb limit (length (take (suc limit) rest)) ≡ true
  size h =
      lt→ltb limit (length (take (suc limit) rest)) (omega (arith, length-take_more limit rest h))

  pub follow-more :
      (a b : T)
      → limit < length rest
      → first_of (take limit rest) ≡ some a
      → last_of (take limit rest) ≡ some b
      → follow cursor limit fetch (suc fuel) from
        ≡ take limit rest ++ follow cursor limit fetch fuel (some (cursor b))
  follow-more a b h first last =
      follow_lem cursor limit fetch fuel from
      ∙ rw (fetched, size h, take-take limit rest)
          (ap (λ c. take limit rest ++ follow cursor limit fetch fuel (some c))
            (place_cursors-cursors cursor _ _ _ _ _ _ _ a b first last).0)

  pub follow_back-more :
      (a b : T)
      → limit < length rest
      → first_of (reverse (take limit rest)) ≡ some a
      → last_of (reverse (take limit rest)) ≡ some b
      → follow_back cursor limit fetch (suc fuel) from
        ≡ follow_back cursor limit fetch fuel (some (cursor a)) ++ reverse (take limit rest)
  follow_back-more a b h first last =
      follow_back_lem cursor limit fetch fuel from
      ∙ rw (fetched, size h, take-take limit rest)
          (ap (λ c. follow_back cursor limit fetch fuel (some c) ++ reverse (take limit rest))
            (place_cursors-cursors cursor _ _ _ _ _ _ _ a b first last).1)
