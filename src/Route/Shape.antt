-- ===== src/Route/Shape.antt =====
-- Which paths share a normal form: those that differ in the text of placeholders at most.
use golang_postgres_starter.Base.{
  ℕ, ◌++◌, Text, true, false, text_eq, List, [], ◌∷◌, map, ltb, length, ◌≡◌, ◌≢◌, refl, sym, ◌↔◌,
  ◌⊎◌, inl, inr, arith, Bool-cases, All, Lacks, split, join, has_prefix, split-join, join-split,
  split-Lacks, split-ne-nil, has_suffix, trim_suffix,
}
use golang_postgres_starter.Route.{
  slash, is_templated, anonymous, anonymize, root_or, finish_path, normalize_path,
}

-- Two segments that chi cannot tell apart: equal ones, or two placeholders.
abbrev pub AlikeSegments : Text → Text → Type 0
AlikeSegments a b = (a ≡ b) ⊎ ((is_templated a ≡ true) × (is_templated b ≡ true))

abbrev pub Alike : List Text → List Text → Type 0
Alike [] [] = Unit
Alike [] (b ∷ rs) = ⊥
Alike (a ∷ ls) [] = ⊥
Alike (a ∷ ls) (b ∷ rs) = AlikeSegments a b × Alike ls rs

-- A path with a last segment that is not empty.
abbrev pub IsOpen : Text → Type 0
IsOpen path = (path ≢ []) × (has_suffix path slash ≡ false)

anonymous-is_templated : is_templated anonymous ≡ true
unfolding is_templated has_prefix has_suffix
anonymous-is_templated = refl

anonymize_iff : (a b : Text) → (anonymize a ≡ anonymize b) ↔ AlikeSegments a b
unfolding anonymize
anonymize_iff a b = ground (arith, anonymous-is_templated)

map-anonymize_iff : (ls rs : List Text) → (map anonymize ls ≡ map anonymize rs) ↔ Alike ls rs
map-anonymize_iff [] [] = ground arith
map-anonymize_iff [] (b ∷ rs) = ground arith
map-anonymize_iff (a ∷ ls) [] = ground arith
map-anonymize_iff (a ∷ ls) (b ∷ rs) = ground (arith, anonymize_iff a b, map-anonymize_iff ls rs)

anonymize-Lacks : (ps : List Text) → All (Lacks slash) ps → All (Lacks slash) (map anonymize ps)
unfolding anonymize
anonymize-Lacks [] h = tt
anonymize-Lacks (p ∷ ps) (hp, h) = (
  elim (Bool-cases (is_templated p)) [
    | inl holds ↦ rw holds (ground arith)
    | inr fails ↦ rw fails hp
  ],
  anonymize-Lacks ps h,
)

has_suffix-append :
    (p rest : Text) (c b : ℕ) → has_suffix (p ++ c ∷ rest) b ≡ has_suffix (c ∷ rest) b
unfolding has_suffix
has_suffix-append [] rest c b = refl
has_suffix-append (d ∷ []) rest c b = refl
has_suffix-append (d ∷ e ∷ p) rest c b = has_suffix-append (e ∷ p) rest c b

trim_suffix_open : (s : Text) (b : ℕ) → has_suffix s b ≡ false → trim_suffix s b ≡ s
unfolding has_suffix trim_suffix
trim_suffix_open [] b h = refl
trim_suffix_open (c ∷ []) b h = ground arith
trim_suffix_open (c ∷ d ∷ s) b h = ground (arith, trim_suffix_open (d ∷ s) b h)

open-finish : (s : Text) → IsOpen s → finish_path s ≡ s
unfolding finish_path root_or
open-finish [] (h, _) = absurd (h refl)
open-finish (c ∷ s) (h, k) = elim (Bool-cases (ltb 1 (length (c ∷ s)))) [
  | inl long ↦ rw (long, trim_suffix_open (c ∷ s) slash k) refl
  | inr short ↦ rw short refl
]

anonymize-segment-IsOpen : (p : Text) → IsOpen p → IsOpen (anonymize p)
unfolding anonymize
anonymize-segment-IsOpen p h = elim (Bool-cases (is_templated p)) [
  | inl holds ↦ rw holds ((λ e. ground arith), unfold has_suffix in refl)
  | inr fails ↦ rw fails h
]

slash-IsOpen : (rest : Text) → (has_suffix (slash ∷ rest) slash ≡ false) ↔ IsOpen rest
unfolding has_suffix
slash-IsOpen [] = ground arith
slash-IsOpen (c ∷ s) = ground arith

append-ne-nil : (p rest : Text) (c : ℕ) → p ++ c ∷ rest ≢ []
append-ne-nil [] rest c = ground arith
append-ne-nil (d ∷ p) rest c = ground arith

append-IsOpen : (p rest : Text) → IsOpen (p ++ slash ∷ rest) ↔ IsOpen rest
append-IsOpen p rest =
    let ends = has_suffix-append p rest slash slash in
    let one = slash-IsOpen rest in let some = append-ne-nil p rest slash in ground arith

-- Anonymous placeholders do not change whether a path is open.
anonymize-IsOpen :
    (ps : List Text) → IsOpen (join ps slash) → IsOpen (join (map anonymize ps) slash)
unfolding join
anonymize-IsOpen [] h = h
anonymize-IsOpen (p ∷ []) h = anonymize-segment-IsOpen p h
anonymize-IsOpen (p ∷ q ∷ ps) h =
    (append-IsOpen (anonymize p) _).1 (anonymize-IsOpen (q ∷ ps) ((append-IsOpen p _).0 h))

map-ne-nil : (ps : List Text) → ps ≢ [] → map anonymize ps ≢ []
map-ne-nil [] h = h
map-ne-nil (p ∷ ps) h = ground arith

-- The segments of the normal form.
normal_segments :
    (path : Text)
    → IsOpen path
    → split (normalize_path path) slash ≡ map anonymize (split path slash)
unfolding normalize_path
normal_segments path h =
    rw
      (
        open-finish _ (anonymize-IsOpen (split path slash) (rw (join-split path slash) h)),
        split-join (map anonymize (split path slash)) slash
            (map-ne-nil _ (split-ne-nil path slash), anonymize-Lacks _ (split-Lacks path slash)),
      )
      refl

normal_join :
    (path : Text)
    → IsOpen path
    → normalize_path path ≡ join (map anonymize (split path slash)) slash
unfolding normalize_path
normal_join path h =
    open-finish _ (anonymize-IsOpen (split path slash) (rw (join-split path slash) h))

-- Two paths that do not end in a slash have the same normal form, the key of the duplicate test,
-- exactly if they have equally many segments and differ only where both have a placeholder.
pub normalize_path_iff :
    (left right : Text)
    → IsOpen left
    → IsOpen right
    → (normalize_path left ≡ normalize_path right) ↔ Alike (split left slash) (split right slash)
normalize_path_iff left right h k =
    let segments = map-anonymize_iff (split left slash) (split right slash) in
    (
      (λ e. segments.0 (rw (sym (normal_segments left h), e, normal_segments right k) refl)),
      λ alike. rw (normal_join left h, normal_join right k, segments.1 alike) refl,
    )
