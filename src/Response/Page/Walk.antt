-- ===== src/Response/Page/Walk.antt =====
-- A client that follows the cursors of the pages sees every row once, in order, in both directions.
use golang_postgres_starter.Base.{
  ℕ, zero, suc, ◌<◌, ltb, ltb→lt, List, [], ◌++◌, append_assoc, append-nil, length, Option, none,
  some, ◌≡◌, refl, sym, ◌∙◌, ap, inl, inr, arith, Bool-cases,
}
use mathlib.Core.List.{reverse, reverse-reverse}
use golang_postgres_starter.Response.Page.{PageCursor, take, first_of, last_of}
use golang_postgres_starter.Response.Page.Parts.{
  ltb-false→le, drop, take-drop, length-drop, take-ne-nil, length-reverse, reverse-ne-nil, halves,
  last_of-append, first_of-append, with_ends,
}
use golang_postgres_starter.Response.Page.Follow.{
  FetchesAfter, FetchesBefore, cursor_of, follow, follow-fits, follow-more, follow_back,
  follow_back-fits, follow_back-more,
}

module _ {T : Type 0} (table : List T) (cursor : T → PageCursor) (limit : ℕ)
    (some_rows : 0 < limit) where
  follow-rest :
      (fetch : Option PageCursor → ℕ → List T) (fuel : ℕ) (seen rest : List T)
      → FetchesAfter table cursor fetch
      → table ≡ seen ++ rest
      → length rest < fuel
      → follow cursor limit fetch fuel (cursor_of cursor (last_of seen)) ≡ rest
  follow-rest fetch zero seen rest law split h = absurd (omega arith)
  follow-rest fetch (suc fuel) seen rest law split h =
      let from = cursor_of cursor (last_of seen) in
      let fetched = law seen rest (suc limit) split in
      let page = take limit rest in
      elim (Bool-cases (ltb limit (length rest))) [
        | inr fits ↦ follow-fits cursor limit fetch fuel from rest fetched (ground arith)
        | inl more ↦
            let filled =
              take-ne-nil limit rest some_rows (omega (arith, ltb→lt limit (length rest) more)) in
            let (a, b, first, last) = with_ends page filled in
            let after_page : some (cursor b) ≡ cursor_of cursor (last_of (seen ++ page)) =
              ap (cursor_of cursor) (sym (last_of-append seen page filled ∙ last)) in
            follow-more cursor limit fetch fuel from rest fetched a b
              (ltb→lt limit (length rest) more) first last
            ∙ ap (λ c. page ++ follow cursor limit fetch fuel c) after_page
            ∙ ap (λ l. page ++ l)
                (follow-rest fetch fuel (seen ++ page) (drop limit rest) law
                  (split
                    ∙ ap (λ l. seen ++ l) (sym (take-drop limit rest))
                    ∙ sym (append_assoc seen page (drop limit rest)))
                  (omega (arith, length-drop limit rest, ltb→lt limit (length rest) more)))
            ∙ take-drop limit rest
      ]

  follow_back-rest :
      (fetch : Option PageCursor → ℕ → List T) (fuel : ℕ) (rest seen : List T)
      → FetchesBefore table cursor fetch
      → table ≡ rest ++ seen
      → length rest < fuel
      → follow_back cursor limit fetch fuel (cursor_of cursor (first_of seen)) ≡ rest
  follow_back-rest fetch zero rest seen law split h = absurd (omega arith)
  follow_back-rest fetch (suc fuel) rest seen law split h =
      let from = cursor_of cursor (first_of seen) in
      let back = reverse rest in
      let fetched = law rest seen (suc limit) split in
      let page = reverse (take limit back) in
      let before = reverse (drop limit back) in
      let size = length-reverse rest in
      elim (Bool-cases (ltb limit (length rest))) [
        | inr fits ↦
            follow_back-fits cursor limit fetch fuel from back fetched
              (omega (arith, size, ltb-false→le limit (length rest) fits))
            ∙ reverse-reverse rest
        | inl more ↦
            let long = ltb→lt limit (length rest) more in
            let filled =
              reverse-ne-nil (take limit back)
                (take-ne-nil limit back some_rows (omega (arith, size))) in
            let (a, b, first, last) = with_ends page filled in
            let from_page : some (cursor a) ≡ cursor_of cursor (first_of (page ++ seen)) =
              ap (cursor_of cursor) (sym (first_of-append page seen filled ∙ first)) in
            follow_back-more cursor limit fetch fuel from back fetched a b (omega (arith, size))
              first last
            ∙ ap (λ c. follow_back cursor limit fetch fuel c ++ page) from_page
            ∙ ap (λ l. l ++ page)
                (follow_back-rest fetch fuel before (page ++ seen) law
                  (split
                    ∙ ap (λ l. l ++ seen) (sym (halves limit rest))
                    ∙ append_assoc before page seen)
                  (omega (arith, size, length-reverse (drop limit back), length-drop limit back)))
            ∙ halves limit rest
      ]

  -- A client that asks for pages of at least one row, and goes on behind each page while it
  -- announces a next one, sees exactly the rows of the table in their order; one that goes back
  -- from the end does, too. The queries return the rows behind the cursor, or those in front of it
  -- with the nearest first, up to the number asked for.
  pub follow-table :
      (fetch fetch_back : Option PageCursor → ℕ → List T)
      → FetchesAfter table cursor fetch
      → FetchesBefore table cursor fetch_back
      → (follow cursor limit fetch (suc (length table)) none ≡ table)
        × (follow_back cursor limit fetch_back (suc (length table)) none ≡ table)
  follow-table fetch fetch_back after before = (
    follow-rest fetch (suc (length table)) [] table after refl (omega arith),
    follow_back-rest fetch_back (suc (length table)) table [] before (sym (append-nil table))
        (omega arith),
  )
