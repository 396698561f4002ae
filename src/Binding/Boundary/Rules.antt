-- ===== src/Binding/Boundary/Rules.antt =====
-- The references of a written rule are read back.
use golang_postgres_starter.Base.{
  ℕ, Text, Bool, true, false, not, ◌&&◌, ◌||◌, ◌==◌, nat_eq, text_eq, list_beq_iff, List, [], ◌∷◌,
  map, contains, is_empty, some, join, cut, trim_space, ◌≡◌, ◌≢◌, refl, ◌∙◌, ap, subst, inl, inr,
  Bool-cases, arith, All, Lacks,
}
use golang_postgres_starter.Binding.Boundary.{
  pair_tags, list_tags, single_tags, first_path_segment, every_second, parameter_targets,
  cut_targets,
}
use golang_postgres_starter.Binding.Boundary.Parts.{
  is_plain, IsWord, Ends, Starts-append, Ends-append, IsWord-Starts, IsWord-Ends,
  trim_space-trimmed, cut-append, cut-Lacks, text_fields-join, join-Ends,
}
use golang_postgres_starter.Binding.Boundary.Written.{
  Rule, pairs, listed, single, other, bare, tokens_of, fields_of, references, with_parameter,
  write_rule, IsName, IsPair, IsRule,
}

abbrev every : (Text → Bool) → List Text → Bool
every test [] = true
every test (n ∷ ns) = test n && every test ns

and_true : (a b : Bool) → (a && b) ≡ true → (a ≡ true) × (b ≡ true)
and_true true b h = (refl, h)
and_true false b h = cc

-- What a test says of each name of a table it says of one that is found in it.
contains-every :
    (test : Text → Bool) (ns : List Text) (n : Text)
    → every test ns ≡ true
    → contains ns n ≡ true
    → test n ≡ true
contains-every test [] n _ h = cc
contains-every test (m ∷ ns) n all h =
    let (here, rest) = and_true (test m) (every test ns) all in
    elim (Bool-cases (m == n)) [
      | inl e ↦ subst (λ k. test k ≡ true) ((list_beq_iff m n).0 e) here
      | inr e ↦ contains-every test ns n rest (rw e at h)
    ]

not-true : (b : Bool) → not b ≡ true → b ≡ false
not-true true h = cc
not-true false h = refl

or_false : (a b : Bool) → (a || b) ≡ false → (a ≡ false) × (b ≡ false)
or_false false b h = (refl, h)
or_false true b h = cc

abbrev all_plain : Text → Bool
all_plain [] = true
all_plain (c ∷ w) = is_plain c && (not (c == b'=') && all_plain w)

abbrev plain_name : Text → Bool
plain_name w = not (is_empty w) && all_plain w

not_equals : (c : ℕ) → not (c == b'=') ≡ true → c ≢ b'='
not_equals c h = ground arith

all_plain_lem : (w : Text) → all_plain w ≡ true → All (λ c. is_plain c ≡ true) w × Lacks b'=' w
all_plain_lem [] h = (tt, tt)
all_plain_lem (c ∷ w) h =
    let (plain, more) = and_true (is_plain c) _ h in
    let (other_than, rest) = and_true (not (c == b'=')) _ more in
    let (all, lacks) = all_plain_lem w rest in ((plain, all), (not_equals c other_than, lacks))

plain_name-IsName : (w : Text) → plain_name w ≡ true → IsName w
plain_name-IsName [] h = cc
plain_name-IsName (c ∷ w) h =
    let (all, lacks) = all_plain_lem (c ∷ w) h in (((λ e. cc), all), lacks)

-- The names of the tables are names, and no two tables share one.
pub table-IsName :
    (table : List Text) (n : Text)
    → every plain_name table ≡ true
    → contains table n ≡ true
    → IsName n
table-IsName table n all h = plain_name-IsName n (contains-every plain_name table n all h)

tables-apart :
    (table others : List Text) (n : Text)
    → every (λ m. not (contains others m)) table ≡ true
    → contains table n ≡ true
    → contains others n ≡ false
tables-apart table others n all h =
    not-true (contains others n) (contains-every (λ m. not (contains others m)) table n all h)

pub tokens_of-IsWord : (ps : List (Text × Text)) → All IsPair ps → All IsWord (tokens_of ps)
tokens_of-IsWord [] h = tt
tokens_of-IsWord ((field, value) ∷ ps) ((wf, wv), h) = (wf, (wv, tokens_of-IsWord ps h))

tokens_of-ne-nil : (ps : List (Text × Text)) → ps ≢ [] → tokens_of ps ≢ []
tokens_of-ne-nil [] h e = h refl
tokens_of-ne-nil ((field, value) ∷ ps) h e = cc

every_second-tokens_of : (ps : List (Text × Text)) → every_second (tokens_of ps) ≡ fields_of ps
unfolding every_second
every_second-tokens_of [] = refl
every_second-tokens_of ((field, value) ∷ ps) = ap (λ ts. field ∷ ts) (every_second-tokens_of ps)

-- A name with a parameter is not trimmed, and is cut into the two.
cut-with_parameter :
    (name param : Text)
    → IsName name
    → Ends param
    → cut (trim_space (with_parameter name param)) b'=' ≡ some (name, param)
cut-with_parameter name param (word, lacks) ends =
    ap (λ s. cut s b'=')
      (trim_space-trimmed (with_parameter name param)
        (Starts-append name (b'=' ∷ param) (IsWord-Starts name word))
        (Ends-append name (b'=' ∷ param) (Ends-append (b'=' ∷ []) param ends)))
    ∙ cut-append name param b'=' lacks

Ends-ne-nil : (s : Text) → Ends s → s ≢ []
Ends-ne-nil [] h e = h
Ends-ne-nil (c ∷ s) h e = cc

cut_targets-ne-nil :
    (name param : Text)
    → param ≢ []
    → cut_targets (some (name, param)) ≡ parameter_targets name param
cut_targets-ne-nil name [] h = absurd (h refl)
cut_targets-ne-nil name (c ∷ param) h = refl

parameter_lem :
    (name param : Text)
    → IsName name
    → Ends param
    → cut_targets (cut (trim_space (with_parameter name param)) b'=') ≡ parameter_targets name param
parameter_lem name param is ends =
    ap cut_targets (cut-with_parameter name param is ends)
    ∙ cut_targets-ne-nil name param (Ends-ne-nil param ends)

pub rule_targets :
    (rule : Rule)
    → IsRule rule
    → cut_targets (cut (trim_space (write_rule rule)) b'=') ≡ references rule
unfolding parameter_targets
rule_targets (pairs name ps) (found, ne, words) =
    let tokens = tokens_of-IsWord ps words in
    let some_tokens = tokens_of-ne-nil ps ne in
    parameter_lem name (join (tokens_of ps) 0x20) (table-IsName pair_tags name refl found)
      (join-Ends (tokens_of ps) some_tokens tokens)
    ∙ rw found (
        ap (λ ts. map first_path_segment (every_second ts))
          (text_fields-join (tokens_of ps) some_tokens tokens)
        ∙ ap (map first_path_segment) (every_second-tokens_of ps))
rule_targets (listed name fields) (found, ne, words) =
    let is = table-IsName list_tags name refl found in
    let no_pair = tables-apart list_tags pair_tags name refl found in
    parameter_lem name (join fields 0x20) is (join-Ends fields ne words)
    ∙ rw (no_pair, found) (ap (map first_path_segment) (text_fields-join fields ne words))
rule_targets (single name field) (found, word) =
    let is = table-IsName single_tags name refl found in
    let no_pair = tables-apart single_tags pair_tags name refl found in
    let no_list = tables-apart single_tags list_tags name refl found in
    parameter_lem name field is (IsWord-Ends field word) ∙ rw (no_pair, no_list, found) refl
rule_targets (other name param) (free, is, word) =
    let (no_pair, more) = or_false (contains pair_tags name) _ free in
    let (no_list, no_single) = or_false (contains list_tags name) _ more in
    parameter_lem name param is (IsWord-Ends param word) ∙ rw (no_pair, no_list, no_single) refl
rule_targets (bare name) (word, lacks) =
    ap (λ s. cut_targets (cut s b'='))
      (trim_space-trimmed name (IsWord-Starts name word) (IsWord-Ends name word))
    ∙ ap cut_targets (cut-Lacks name b'=' lacks)
