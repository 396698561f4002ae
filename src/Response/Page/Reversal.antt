-- ===== src/Response/Page/Reversal.antt =====
-- The loop that exchanges the ends reverses the rows.
use golang_postgres_starter.Base.{
  ltb-false, ℕ, zero, suc, ◌+◌, ◌-◌, ◌≤◌, List, [], ◌∷◌, ◌++◌, append_assoc, append-nil, lt→ltb,
  length, length-append, get_elem?, some, ◌≡◌, refl, sym, ◌∙◌, ap, arith,
}
use mathlib.Core.List.{reverse, reverse-cons, reverse-append}
use golang_postgres_starter.Response.Page.{set, exchange, swap, reverse_loop, reverse_in_place}

module _ {T : Type 0} where
  get_elem?-append :
      (front : List T) (x : T) (rest : List T) (i : ℕ)
      → i ≡ length front
      → get_elem? (front ++ x ∷ rest) i ≡ some x
  get_elem?-append [] x rest i h = rw h refl
  get_elem?-append (y ∷ front) x rest i h = rw h (get_elem?-append front x rest (length front) refl)

  set-append :
      (front : List T) (x v : T) (rest : List T) (i : ℕ)
      → i ≡ length front
      → set (front ++ x ∷ rest) i v ≡ front ++ v ∷ rest
  unfolding set
  set-append [] x v rest i h = rw h refl
  set-append (y ∷ front) x v rest i h =
      rw h (ap (λ l. y ∷ l) (set-append front x v rest (length front) refl))

  -- The rows with the ends of a middle part, as the exchange sees them.
  swap-ends :
      (front middle back : List T) (x y : T) (i j : ℕ)
      → i ≡ length front
      → j ≡ length front + length middle + 1
      → swap i j (front ++ x ∷ (middle ++ y ∷ back)) ≡ front ++ y ∷ (middle ++ x ∷ back)
  unfolding swap exchange
  swap-ends front middle back x y i j hi hj =
      let regroup = λ (a b : T). append_assoc front (a ∷ middle) (b ∷ back) in
      let size = λ (a : T). length-append front (a ∷ middle) in
      rw
        (
          get_elem?-append front x (middle ++ y ∷ back) i hi,
          ap (λ l. get_elem? l j) (sym (regroup x y))
              ∙ get_elem?-append (front ++ x ∷ middle) y back j (omega (arith, size x)),
          swap,
        )
        (ap (λ l. set l j x) (set-append front x y (middle ++ y ∷ back) i hi ∙ sym (regroup y y))
          ∙ set-append (front ++ y ∷ middle) y x back j (omega (arith, size y))
          ∙ regroup y x)

  -- A list with an element is one, or has a last element behind a first.
  data Ends : List T → Type 0 where
    nothing : Ends []
    alone : (x : T) → Ends (x ∷ [])
    ends : (x : T) (middle : List T) (y : T) → Ends (x ∷ (middle ++ y ∷ []))

  view : (rows : List T) → Ends rows
  view [] = nothing
  view (x ∷ rows) = with_first x rows (view rows)
    where
      with_first : (x : T) (rows : List T) → Ends rows → Ends (x ∷ rows)
      with_first x _ nothing = alone x
      with_first x _ (alone y) = ends x [] y
      with_first x _ (ends y middle z) = ends x (y ∷ middle) z

  reverse-ends :
      (x : T) (middle : List T) (y : T) (back : List T)
      → reverse (x ∷ (middle ++ y ∷ [])) ++ back ≡ y ∷ (reverse middle ++ x ∷ back)
  reverse-ends x middle y back =
      ap (λ l. l ++ back) (reverse-cons x (middle ++ y ∷ []))
      ∙ ap (λ l. (l ++ x ∷ []) ++ back) (reverse-append middle (y ∷ []))
      ∙ ap (λ l. y ∷ l) (append_assoc (reverse middle) (x ∷ []) back)

  -- With the ends of the middle part at the two indices, the loop reverses it.
  reverse_loop-middle :
      (fuel : ℕ) (front middle back : List T) (i j : ℕ)
      → Ends middle
      → i ≡ length front
      → j + 1 ≡ length front + length middle
      → length middle ≤ fuel
      → reverse_loop fuel i j (front ++ (middle ++ back)) ≡ front ++ (reverse middle ++ back)
  unfolding reverse_loop
  reverse_loop-middle zero front _ back i j nothing hi hj hf = refl
  reverse_loop-middle zero front _ back i j (alone x) hi hj hf = absurd (omega arith)
  reverse_loop-middle zero front _ back i j (ends x middle y) hi hj hf = absurd (omega arith)
  reverse_loop-middle (suc fuel) front _ back i j nothing hi hj hf =
      rw (ltb-false i j (omega arith)) refl
  reverse_loop-middle (suc fuel) front _ back i j (alone x) hi hj hf =
      rw (ltb-false i j (omega arith)) refl
  reverse_loop-middle (suc fuel) front _ back i j (ends x middle y) hi hj hf =
      let size = length-append middle (y ∷ []) in
      rw (lt→ltb i j (omega (arith, size))) (
        ap (λ l. reverse_loop fuel (i + 1) (j - 1) (swap i j (front ++ x ∷ l)))
          (append_assoc middle (y ∷ []) back)
        ∙ ap (reverse_loop fuel (i + 1) (j - 1)) (
            swap-ends front middle back x y i j hi (omega (arith, size))
            ∙ sym (append_assoc front (y ∷ []) (middle ++ x ∷ back)))
        ∙ reverse_loop-middle fuel (front ++ y ∷ []) middle (x ∷ back) (i + 1) (j - 1) (view middle)
            (omega (arith, length-append front (y ∷ [])))
            (omega (arith, size, length-append front (y ∷ []))) (omega (arith, size))
        ∙ append_assoc front (y ∷ []) (reverse middle ++ x ∷ back)
        ∙ ap (λ l. front ++ l) (sym (reverse-ends x middle y back)))

  -- The loop of a page reverses it.
  pub reverse_in_place-eq-reverse : (rows : List T) → reverse_in_place rows ≡ reverse rows
  unfolding reverse_in_place reverse_loop
  reverse_in_place-eq-reverse [] = refl
  reverse_in_place-eq-reverse (x ∷ rows) =
      ap (reverse_loop (suc (length (x ∷ rows))) 0 (length (x ∷ rows) - 1))
        (sym (append-nil (x ∷ rows)))
      ∙ reverse_loop-middle (suc (length (x ∷ rows))) [] (x ∷ rows) [] 0 (length (x ∷ rows) - 1)
          (view (x ∷ rows)) refl (omega arith) (omega arith)
      ∙ append-nil (reverse (x ∷ rows))
