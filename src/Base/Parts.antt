-- ===== src/Base/Parts.antt =====
-- What splitting and joining promise of one another.
use golang_postgres_starter.Base.Tests.{◌==◌, nat_eq, nat_beq_iff, Bool-cases}
use golang_postgres_starter.Base.Lists.{All}
use golang_postgres_starter.Base.Strings.{Text, grow, split, join, insert_sorted, sort, text_leb}
use Prim.Native.Nat.{ℕ}
use mathlib.Core.Path.{◌≡◌, refl}
use mathlib.Core.Logic.{◌≢◌, ◌↔◌, inl, inr}
use mathlib.Core.List.{List, [], ◌∷◌, ◌++◌}
use native.Mathlib.Omega.{arith}

-- No byte of the text is the separator.
abbrev pub Lacks : ℕ → Text → Type 0
Lacks sep = All (λ c. c ≢ sep)

pub split-ne-nil : (s : Text) (sep : ℕ) → split s sep ≢ []
unfolding split
split-ne-nil [] sep = ground arith
split-ne-nil (c ∷ s) sep = elim (Bool-cases (c == sep)) [
  | inl same ↦ rw same (ground arith)
  | inr other ↦ rw other (grow-ne-nil c (split s sep))
]
  where
    grow-ne-nil : (c : ℕ) (ps : List Text) → grow c ps ≢ []
    grow-ne-nil c [] = ground arith
    grow-ne-nil c (p ∷ ps) = ground arith

join-grow : (c : ℕ) (ps : List Text) (sep : ℕ) → ps ≢ [] → join (grow c ps) sep ≡ c ∷ join ps sep
unfolding join
join-grow c [] sep h = absurd (h refl)
join-grow c (p ∷ []) sep h = refl
join-grow c (p ∷ q ∷ ps) sep h = refl

join-nil_cons : (ps : List Text) (sep : ℕ) → ps ≢ [] → join ([] ∷ ps) sep ≡ sep ∷ join ps sep
unfolding join
join-nil_cons [] sep h = absurd (h refl)
join-nil_cons (p ∷ ps) sep h = refl

pub join-split : (s : Text) (sep : ℕ) → join (split s sep) sep ≡ s
unfolding split
join-split [] sep = unfold join in refl
join-split (c ∷ s) sep = elim (Bool-cases (c == sep)) [
  | inl same ↦
      rw (
        same,
        join-nil_cons _ sep (split-ne-nil s sep),
        join-split s sep,
        (nat_beq_iff c sep).0 same,
      )
  | inr other ↦ rw (other, join-grow c _ sep (split-ne-nil s sep), join-split s sep)
]

grow-Lacks :
    (c sep : ℕ) (ps : List Text) → c ≢ sep → All (Lacks sep) ps → All (Lacks sep) (grow c ps)
grow-Lacks c sep [] h _ = ((h, tt), tt)
grow-Lacks c sep (p ∷ ps) h (hp, hps) = ((h, hp), hps)

pub split-Lacks : (s : Text) (sep : ℕ) → All (Lacks sep) (split s sep)
unfolding split
split-Lacks [] sep = (tt, tt)
split-Lacks (c ∷ s) sep = elim (Bool-cases (c == sep)) [
  | inl same ↦ rw same (tt, split-Lacks s sep)
  | inr other ↦
      rw other (grow-Lacks c sep _ (λ e. ground (arith, nat_beq_iff c sep)) (split-Lacks s sep))
]

split_of_Lacks : (p : Text) (sep : ℕ) → Lacks sep p → split p sep ≡ p ∷ []
unfolding split
split_of_Lacks [] sep h = refl
split_of_Lacks (c ∷ p) sep (hc, h) = ground (arith, split_of_Lacks p sep h)

split-append :
    (p rest : Text) (sep : ℕ) → Lacks sep p → split (p ++ sep ∷ rest) sep ≡ p ∷ split rest sep
unfolding split
split-append [] rest sep h = ground arith
split-append (c ∷ p) rest sep (hc, h) = ground (arith, split-append p rest sep h)

pub split-join :
    (ps : List Text) (sep : ℕ) → (ps ≢ []) × All (Lacks sep) ps → split (join ps sep) sep ≡ ps
unfolding join
split-join [] sep (h, _) = absurd (h refl)
split-join (p ∷ []) sep (_, (hp, _)) = split_of_Lacks p sep hp
split-join (p ∷ q ∷ ps) sep (_, (hp, hps)) =
    rw (split-append p _ sep hp, split-join (q ∷ ps) sep (ground arith, hps))

-- Sorting keeps what holds of every element.
module _ (P : Text → Type 0) where
  All-insert_sorted : (s : Text) (ts : List Text) → All P (insert_sorted s ts) ↔ (P s × All P ts)
  unfolding insert_sorted
  All-insert_sorted s [] = ground arith
  All-insert_sorted s (t ∷ ts) = elim (Bool-cases (text_leb s t)) [
    | inl le ↦ rw le ((λ h. h), λ h. h)
    | inr gt ↦ rw gt (
      (λ h. let (hs, hts) = (All-insert_sorted s ts).0 h.1 in (hs, (h.0, hts))),
      λ h. (h.1.0, (All-insert_sorted s ts).1 (h.0, h.1.1)),
    )
  ]

  pub All-sort : (ts : List Text) → All P (sort ts) ↔ All P ts
  unfolding sort
  All-sort [] = ground arith
  All-sort (t ∷ ts) = (
    (λ h. let (ht, hts) = (All-insert_sorted t (sort ts)).0 h in (ht, (All-sort ts).0 hts)),
    λ h. (All-insert_sorted t (sort ts)).1 (h.0, (All-sort ts).1 h.1),
  )
