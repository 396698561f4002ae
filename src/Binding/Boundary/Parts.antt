-- ===== src/Binding/Boundary/Parts.antt =====
-- What trimming, cutting and splitting by white space do to words that have none.
use golang_postgres_starter.Base.{
  ℕ, Text, Bool, true, false, not, ◌&&◌, ◌==◌, nat_eq, nat_beq_iff, List, [], ◌∷◌, ◌++◌, text_eq,
  none, some, join, cut, trim_space, trim, trim_left, is_space, ◌≡◌, ◌≢◌, refl, sym, ◌∙◌, ap, subst,
  arith, All, All-append, Lacks,
}
use mathlib.Core.List.{reverse, reverse-append, reverse-reverse}
use golang_postgres_starter.Binding.Boundary.{add_part, split_spaces, nonempty_parts, text_fields}

-- A byte that ends no word, no alternative and no entry of a tag.
abbrev pub is_plain : ℕ → Bool
is_plain c = not (is_space c) && (not (c == b',') && not (c == b'|'))

abbrev pub IsWord : Text → Type 0
IsWord w = (w ≢ []) × All (λ c. is_plain c ≡ true) w

pub plain_lem : (c : ℕ) → is_plain c ≡ true → (is_space c ≡ false) × (c ≢ b',') × (c ≢ b'|')
plain_lem c h = ground arith

-- The text begins with no white space; the other way, it ends with none.
abbrev pub Starts : Text → Type 0
Starts [] = ⊥
Starts (c ∷ s) = is_space c ≡ false

abbrev pub Ends : Text → Type 0
Ends s = Starts (reverse s)

pub Starts-append : (s t : Text) → Starts s → Starts (s ++ t)
Starts-append [] t h = absurd h
Starts-append (c ∷ s) t h = h

pub Ends-append : (s t : Text) → Ends t → Ends (s ++ t)
Ends-append s t h =
    subst Starts (sym (reverse-append s t)) (Starts-append (reverse t) (reverse s) h)

pub IsWord-Starts : (w : Text) → IsWord w → Starts w
IsWord-Starts [] (h, _) = h refl
IsWord-Starts (c ∷ w) (_, (h, _)) = (plain_lem c h).0

pub IsWord-Ends : (w : Text) → IsWord w → Ends w
IsWord-Ends [] (h, _) = absurd (h refl)
IsWord-Ends (c ∷ []) (_, (h, _)) = (plain_lem c h).0
IsWord-Ends (c ∷ d ∷ w) (_, (_, h)) = Ends-append (c ∷ []) (d ∷ w) (IsWord-Ends (d ∷ w) (cc, h))

trim_left-Starts : (s : Text) → Starts s → trim_left is_space s ≡ s
unfolding trim_left
trim_left-Starts [] h = absurd h
trim_left-Starts (c ∷ s) h = rw h

pub trim_space-trimmed : (s : Text) → Starts s → Ends s → trim_space s ≡ s
unfolding trim_space trim
trim_space-trimmed s starts ends =
    ap (λ t. reverse (trim_left is_space (reverse t))) (trim_left-Starts s starts)
    ∙ ap reverse (trim_left-Starts (reverse s) ends)
    ∙ reverse-reverse s

pub cut-append :
    (p rest : Text) (sep : ℕ) → Lacks sep p → cut (p ++ sep ∷ rest) sep ≡ some (p, rest)
unfolding cut
cut-append [] rest sep h = ground (arith, nat_beq_iff sep sep)
cut-append (c ∷ p) rest sep (hc, h) = ground (arith, nat_beq_iff c sep, cut-append p rest sep h)

pub cut-Lacks : (p : Text) (sep : ℕ) → Lacks sep p → cut p sep ≡ none
unfolding cut
cut-Lacks [] sep h = refl
cut-Lacks (c ∷ p) sep (hc, h) = ground (arith, nat_beq_iff c sep, cut-Lacks p sep h)

-- A word in front of white space, and one at the end.
split_spaces-append :
    (w rest : Text)
    → All (λ c. is_plain c ≡ true) w
    → split_spaces (w ++ 0x20 ∷ rest) ≡ w ∷ split_spaces rest
unfolding split_spaces
split_spaces-append [] rest h = refl
split_spaces-append (c ∷ w) rest (hc, h) =
    rw ((plain_lem c hc).0, split_spaces-append w rest h) refl

split_spaces-word : (w : Text) → All (λ c. is_plain c ≡ true) w → split_spaces w ≡ w ∷ []
unfolding split_spaces
split_spaces-word [] h = refl
split_spaces-word (c ∷ w) (hc, h) = rw ((plain_lem c hc).0, split_spaces-word w h) refl

add_part-word : (w : Text) (parts : List Text) → w ≢ [] → add_part w parts ≡ w ∷ parts
add_part-word [] parts h = absurd (h refl)
add_part-word (c ∷ w) parts h = refl

pub text_fields-join : (ws : List Text) → ws ≢ [] → All IsWord ws → text_fields (join ws 0x20) ≡ ws
unfolding text_fields join nonempty_parts
text_fields-join [] h _ = absurd (h refl)
text_fields-join (w ∷ []) _ ((ne, plain), _) =
    rw (split_spaces-word w plain) (add_part-word w [] ne)
text_fields-join (w ∷ v ∷ ws) _ ((ne, plain), rest) =
    rw (split_spaces-append w (join (v ∷ ws) 0x20) plain)
      (rw (text_fields-join (v ∷ ws) (λ e. cc) rest) (add_part-word w (v ∷ ws) ne))

pub All-join :
    (P : ℕ → Type 0) (ws : List Text) (sep : ℕ) → P sep → All (All P) ws → All P (join ws sep)
unfolding join
All-join P [] sep h a = tt
All-join P (w ∷ []) sep h (aw, _) = aw
All-join P (w ∷ v ∷ ws) sep h (aw, a) = All-append P w _ aw (h, All-join P (v ∷ ws) sep h a)

pub join-Ends : (ws : List Text) → ws ≢ [] → All IsWord ws → Ends (join ws 0x20)
unfolding join
join-Ends [] h _ = absurd (h refl)
join-Ends (w ∷ []) _ (word, _) = IsWord-Ends w word
join-Ends (w ∷ v ∷ ws) _ (_, rest) =
    Ends-append w (0x20 ∷ join (v ∷ ws) 0x20)
      (Ends-append (0x20 ∷ []) (join (v ∷ ws) 0x20) (join-Ends (v ∷ ws) (λ e. cc) rest))
