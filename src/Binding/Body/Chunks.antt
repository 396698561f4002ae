-- ===== src/Binding/Body/Chunks.antt =====
-- The reader that records the first byte, over any sequence of reads.
use golang_postgres_starter.Base.{
  ℕ, nat_eq, List, [], ◌∷◌, ◌++◌, append-nil, append_assoc, ◌≡◌, ◌≢◌, refl, sym, ◌∙◌, ap, inl, inr,
  Bool-cases, arith, All, All-append,
}
use golang_postgres_starter.Binding.Wire.{leading_byte, observe, is_json_space}

-- The bytes of all reads.
abbrev pub concat : List (List ℕ) → List ℕ
concat [] = []
concat (chunk ∷ chunks) = chunk ++ concat chunks

-- What is recorded after all reads.
abbrev pub observe_all : ℕ → List (List ℕ) → ℕ
observe_all first [] = first
observe_all first (chunk ∷ chunks) = observe_all (observe first chunk) chunks

observe-nonzero : (b : ℕ) (more : List ℕ) → b ≢ 0 → b ≡ observe b more
unfolding observe
observe-nonzero b more other = ground arith

observe-none : (more : List ℕ) → observe 0 more ≡ leading_byte more
unfolding observe
observe-none more = refl

leading_byte-append :
    (bytes more : List ℕ)
    → All (λ b. b ≢ 0) bytes
    → leading_byte (bytes ++ more) ≡ observe (leading_byte bytes) more
unfolding leading_byte
leading_byte-append [] more none_zero = sym (observe-none more)
leading_byte-append (b ∷ bs) more (b_given, bs_given) = elim (Bool-cases (is_json_space b)) [
  | inl space ↦ rw space (leading_byte-append bs more bs_given)
  | inr other ↦ rw other (observe-nonzero b more b_given)
]

observe_all-from :
    (bytes : List ℕ) (chunks : List (List ℕ))
    → All (λ b. b ≢ 0) bytes
    → All (λ chunk. All (λ b. b ≢ 0) chunk) chunks
    → observe_all (leading_byte bytes) chunks ≡ leading_byte (bytes ++ concat chunks)
observe_all-from bytes [] given rest = ap leading_byte (sym (append-nil bytes))
observe_all-from bytes (chunk ∷ chunks) given (c, rest) =
    ap (λ first. observe_all first chunks) (sym (leading_byte-append bytes chunk given))
    ∙ observe_all-from (bytes ++ chunk) chunks (All-append (λ b. b ≢ 0) bytes chunk given c) rest
    ∙ ap leading_byte (append_assoc bytes chunk (concat chunks))

-- However the bytes are split into reads, the reader records the byte that leads them, unless one of
-- them is 0.
pub observe_all-concat :
    (chunks : List (List ℕ))
    → All (λ chunk. All (λ b. b ≢ 0) chunk) chunks
    → observe_all 0 chunks ≡ leading_byte (concat chunks)
unfolding leading_byte
observe_all-concat chunks given = observe_all-from [] chunks tt given
