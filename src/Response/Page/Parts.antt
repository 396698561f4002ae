-- ===== src/Response/Page/Parts.antt =====
-- Parts of the rows: the first ones, the others, and the ends.
use golang_postgres_starter.Base.{
  ℕ, zero, suc, ◌-◌, ◌≤◌, ◌<◌, false, ltb, List, [], ◌∷◌, ◌++◌, length, length-append, some, ◌≡◌,
  ◌≢◌, refl, sym, ◌∙◌, ap, arith,
}
use mathlib.Core.List.{reverse, reverse-cons, reverse-append, reverse-reverse}
use golang_postgres_starter.Response.Page.{take, first_of, last_of}

pub ltb-false→le : (i j : ℕ) → ltb i j ≡ false → j ≤ i
ltb-false→le i j h = ground arith

module _ {T : Type 0} where
  unfoldable pub drop : ℕ → List T → List T
  drop zero rows = rows
  drop (suc n) [] = []
  drop (suc n) (row ∷ rows) = drop n rows

  pub take-drop : (n : ℕ) (rows : List T) → take n rows ++ drop n rows ≡ rows
  unfolding take drop
  take-drop zero rows = refl
  take-drop (suc n) [] = refl
  take-drop (suc n) (row ∷ rows) = ap (λ l. row ∷ l) (take-drop n rows)

  pub take-take : (n : ℕ) (rows : List T) → take n (take (suc n) rows) ≡ take n rows
  unfolding take
  take-take zero rows = refl
  take-take (suc n) [] = refl
  take-take (suc n) (row ∷ rows) = ap (λ l. row ∷ l) (take-take n rows)

  pub length-drop : (n : ℕ) (rows : List T) → length (drop n rows) ≡ length rows - n
  unfolding drop
  length-drop zero rows = omega arith
  length-drop (suc n) [] = omega arith
  length-drop (suc n) (row ∷ rows) = omega (arith, length-drop n rows)

  pub length-take_more :
      (n : ℕ) (rows : List T) → n < length rows → length (take (suc n) rows) ≡ suc n
  unfolding take
  length-take_more n [] h = absurd (omega arith)
  length-take_more zero (row ∷ rows) h = refl
  length-take_more (suc n) (row ∷ rows) h = omega (arith, length-take_more n rows (omega arith))

  pub take-ne-nil : (n : ℕ) (rows : List T) → 0 < n → 0 < length rows → take n rows ≢ []
  unfolding take
  take-ne-nil zero rows h k e = absurd (omega arith)
  take-ne-nil (suc n) [] h k e = absurd (omega arith)
  take-ne-nil (suc n) (row ∷ rows) h k e = cc

  pub length-reverse : (rows : List T) → length (reverse rows) ≡ length rows
  length-reverse [] = refl
  length-reverse (row ∷ rows) =
      rw (reverse-cons row rows)
        (omega (arith, length-append (reverse rows) (row ∷ []), length-reverse rows))

  pub reverse-ne-nil : (rows : List T) → rows ≢ [] → reverse rows ≢ []
  reverse-ne-nil rows h e = h (sym (reverse-reverse rows) ∙ ap reverse e)

  -- The rows without the last ones, and the last ones.
  pub halves :
      (n : ℕ) (rows : List T)
      → reverse (drop n (reverse rows)) ++ reverse (take n (reverse rows)) ≡ rows
  halves n rows =
      sym (reverse-append (take n (reverse rows)) (drop n (reverse rows)))
      ∙ ap reverse (take-drop n (reverse rows))
      ∙ reverse-reverse rows

  pub last_of-append : (xs ys : List T) → ys ≢ [] → last_of (xs ++ ys) ≡ last_of ys
  last_of-append [] ys h = refl
  last_of-append (x ∷ []) [] h = absurd (h refl)
  last_of-append (x ∷ []) (y ∷ ys) h = refl
  last_of-append (x ∷ x' ∷ xs) ys h = last_of-append (x' ∷ xs) ys h

  pub first_of-append : (xs ys : List T) → xs ≢ [] → first_of (xs ++ ys) ≡ first_of xs
  first_of-append [] ys h = absurd (h refl)
  first_of-append (x ∷ xs) ys h = refl

module _ {T : Type 0} where
  pub with_ends :
      (page : List T) → page ≢ [] → (a b : T) × (first_of page ≡ some a) × (last_of page ≡ some b)
  with_ends [] h = absurd (h refl)
  with_ends (x ∷ []) h = (x, x, refl, refl)
  with_ends (x ∷ y ∷ page) h =
      let (_, b, _, last) = with_ends (y ∷ page) (λ e. cc) in (x, b, refl, last)
