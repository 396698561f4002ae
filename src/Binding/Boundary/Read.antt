-- ===== src/Binding/Boundary/Read.antt =====
-- The references of a written tag are read back.
use golang_postgres_starter.Base.{
  Text, true, nat_eq, text_eq, List, [], ◌∷◌, ◌++◌, map, split, join, cut, trim_space, trim,
  trim_left, ◌≡◌, ◌≢◌, refl, ◌∙◌, ap, ap₂, arith, All, All-append, All-map, Lacks, split-join,
}
use golang_postgres_starter.Binding.Boundary.{
  pair_tags, list_tags, single_tags, alternative_targets, entry_targets, cross_field_targets,
}
use golang_postgres_starter.Binding.Boundary.Parts.{is_plain, IsWord, All-join, plain_lem}
use golang_postgres_starter.Binding.Boundary.Written.{
  Rule, pairs, listed, single, other, bare, tokens_of, entry_references, tag_references,
  with_parameter, write_rule, write_entry, write_tag, IsRule, IsEntry,
}
use golang_postgres_starter.Binding.Boundary.Rules.{rule_targets, table-IsName, tokens_of-IsWord}

-- No separator stands in a written rule.
IsWord-Lacks : (w : Text) → IsWord w → Lacks b',' w × Lacks b'|' w
IsWord-Lacks w (_, plain) = (
  All-map (λ c. is_plain c ≡ true) (λ c. c ≢ b',') (λ c h. (plain_lem c h).1) w plain,
  All-map (λ c. is_plain c ≡ true) (λ c. c ≢ b'|') (λ c h. (plain_lem c h).2) w plain,
)

join-Lacks :
    (ws : List Text) → All IsWord ws → Lacks b',' (join ws 0x20) × Lacks b'|' (join ws 0x20)
join-Lacks ws words = (
  All-join (λ c. c ≢ b',') ws 0x20 (omega arith)
      (All-map IsWord (Lacks b',') (λ w h. (IsWord-Lacks w h).0) ws words),
  All-join (λ c. c ≢ b'|') ws 0x20 (omega arith)
      (All-map IsWord (Lacks b'|') (λ w h. (IsWord-Lacks w h).1) ws words),
)

with_parameter-Lacks :
    (name param : Text)
    → IsWord name
    → Lacks b',' param × Lacks b'|' param
    → Lacks b',' (with_parameter name param) × Lacks b'|' (with_parameter name param)
with_parameter-Lacks name param word (commas, bars) =
    let (name_commas, name_bars) = IsWord-Lacks name word in
    (
      All-append (λ c. c ≢ b',') name (b'=' ∷ param) name_commas ((omega arith), commas),
      All-append (λ c. c ≢ b'|') name (b'=' ∷ param) name_bars ((omega arith), bars),
    )

write_rule-Lacks :
    (rule : Rule) → IsRule rule → Lacks b',' (write_rule rule) × Lacks b'|' (write_rule rule)
write_rule-Lacks (pairs name ps) (found, _, words) =
    with_parameter-Lacks name _ (table-IsName pair_tags name refl found).0
      (join-Lacks (tokens_of ps) (tokens_of-IsWord ps words))
write_rule-Lacks (listed name fields) (found, _, words) =
    with_parameter-Lacks name _ (table-IsName list_tags name refl found).0 (join-Lacks fields words)
write_rule-Lacks (single name field) (found, word) =
    with_parameter-Lacks name field (table-IsName single_tags name refl found).0
      (IsWord-Lacks field word)
write_rule-Lacks (other name param) (_, is, word) =
    with_parameter-Lacks name param is.0 (IsWord-Lacks param word)
write_rule-Lacks (bare name) (word, _) = IsWord-Lacks name word

rules-Lacks :
    (rules : List Rule)
    → All IsRule rules
    → All (Lacks b',') (map write_rule rules) × All (Lacks b'|') (map write_rule rules)
rules-Lacks [] h = (tt, tt)
rules-Lacks (rule ∷ rules) (here, h) =
    let (commas, bars) = write_rule-Lacks rule here in
    let (more_commas, more_bars) = rules-Lacks rules h in ((commas, more_commas), (bars, more_bars))

alternatives_read :
    (rules : List Rule)
    → All IsRule rules
    → alternative_targets (map write_rule rules) ≡ entry_references rules
unfolding alternative_targets
alternatives_read [] h = refl
alternatives_read (rule ∷ rules) (here, h) =
    ap₂ (λ (xs ys : List Text). xs ++ ys) (rule_targets rule here) (alternatives_read rules h)

map-ne-nil : {A : Type 0} (f : A → Text) (xs : List A) → xs ≢ [] → map f xs ≢ []
map-ne-nil f [] h e = h refl
map-ne-nil f (x ∷ xs) h e = cc

entry_read :
    (rules : List Rule)
    → IsEntry rules
    → alternative_targets (split (write_entry rules) b'|') ≡ entry_references rules
entry_read rules (ne, h) =
    ap alternative_targets (
      split-join (map write_rule rules) b'|'
        (map-ne-nil write_rule rules ne, (rules-Lacks rules h).1))
    ∙ alternatives_read rules h

entries_read :
    (entries : List (List Rule))
    → All IsEntry entries
    → entry_targets (map write_entry entries) ≡ tag_references entries
unfolding entry_targets
entries_read [] h = refl
entries_read (entry ∷ entries) (here, h) =
    ap₂ (λ (xs ys : List Text). xs ++ ys) (entry_read entry here) (entries_read entries h)

entries-Lacks :
    (entries : List (List Rule)) → All IsEntry entries → All (Lacks b',') (map write_entry entries)
entries-Lacks [] h = tt
entries-Lacks (entry ∷ entries) ((_, here), h) = (
  All-join (λ c. c ≢ b',') (map write_rule entry) b'|' (omega arith) (rules-Lacks entry here).0,
  entries-Lacks entries h,
)

-- The test for an empty tag makes no difference.
targets_lem : (tag : Text) → cross_field_targets tag ≡ entry_targets (split tag b',')
unfolding cross_field_targets entry_targets alternative_targets split trim_space trim trim_left cut
targets_lem [] = refl
targets_lem (c ∷ tag) = refl

no_rules : cross_field_targets (write_tag []) ≡ []
unfolding cross_field_targets join
no_rules = refl

-- What the source reads out of a written tag are the references of its rules, in their order.
pub cross_field_targets-write_tag :
    (entries : List (List Rule))
    → All IsEntry entries
    → cross_field_targets (write_tag entries) ≡ tag_references entries
cross_field_targets-write_tag [] h = no_rules
cross_field_targets-write_tag (entry ∷ entries) h =
    targets_lem (write_tag (entry ∷ entries))
    ∙ ap entry_targets (
        split-join (map write_entry (entry ∷ entries)) b','
          ((λ e. cc), entries-Lacks (entry ∷ entries) h))
    ∙ entries_read (entry ∷ entries) h
