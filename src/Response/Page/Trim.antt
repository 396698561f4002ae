-- ===== src/Response/Page/Trim.antt =====
-- What a finished page holds.
use golang_postgres_starter.Base.{
  ℕ, zero, suc, ◌≤◌, Bool, true, false, ltb, if◌then◌else◌, List, [], ◌∷◌, length, Option, ◌≡◌,
  refl, sym, ap, inl, inr, arith, Bool-cases,
}
use mathlib.Core.List.{reverse}
use golang_postgres_starter.Response.{Pagination}
use golang_postgres_starter.Response.Page.{
  PageCursor, take, first_of, last_of, records_of, page_start, is_nonempty, place_cursors,
  flag_neighbours, finish_page,
}
use golang_postgres_starter.Response.Page.Reversal.{reverse_in_place-eq-reverse}

module _ {T : Type 0} where
  pub take-all : (n : ℕ) (rows : List T) → length rows ≤ n → take n rows ≡ rows
  unfolding take
  take-all zero [] h = refl
  take-all zero (row ∷ rows) h = absurd (omega arith)
  take-all (suc n) [] h = refl
  take-all (suc n) (row ∷ rows) h = ap (λ l. row ∷ l) (take-all n rows (omega arith))

  pub length-take : (n : ℕ) (rows : List T) → length (take n rows) ≤ n
  unfolding take
  length-take zero rows = omega arith
  length-take (suc n) [] = omega arith
  length-take (suc n) (row ∷ rows) = omega (arith, length-take n rows)

  -- The rows in ascending order: those of a backward page were fetched in reverse.
  abbrev pub ascending : Bool → List T → List T
  ascending true rows = reverse rows
  ascending false rows = rows

  -- The page that a fetch becomes, and its metadata.
  abbrev pub page_of : List T → ℕ → Bool → List T
  page_of rows limit has_before = ascending has_before (take limit rows)

  kept_lem :
      (rows : List T) (limit : ℕ)
      → (if ltb limit (length rows) then take limit rows else rows) ≡ take limit rows
  kept_lem rows limit = elim (Bool-cases (ltb limit (length rows))) [
    | inl more ↦ rw more refl
    | inr fits ↦ rw fits (sym (take-all limit rows (ground arith)))
  ]

  abbrev pub meta_of : (T → PageCursor) → Option (T → ℕ) → List T → ℕ → Bool → Bool → Pagination
  meta_of cursor records rows limit has_after has_before =
      let page = page_of rows limit has_before in
      flag_neighbours has_before has_after (ltb limit (length rows)) (is_nonempty page) (
        place_cursors cursor (first_of page) (last_of page)
          (page_start limit (records_of records (last_of rows))))

  pub finish_page_lem :
      (rows : List T) (limit : ℕ) (has_after has_before : Bool) (cursor : T → PageCursor)
      (records : Option (T → ℕ))
      → finish_page rows limit has_after has_before cursor records
        ≡ (page_of rows limit has_before, meta_of cursor records rows limit has_after has_before)
  unfolding finish_page
  finish_page_lem rows limit has_after true cursor records =
      rw (kept_lem rows limit, reverse_in_place-eq-reverse (take limit rows)) refl
  finish_page_lem rows limit has_after false cursor records = rw (kept_lem rows limit) refl
