-- ===== src/Raw/Checks.antt =====
-- What each check of a raw document says.
use golang_postgres_starter.Base.{
  unless, append-eq-nil_iff, ℕ, ◌≤◌, Text, codes, Bool, true, false, not, ◌&&◌, ◌||◌, Comparable,
  ◌==◌, nat_eq, text_eq, list_beq_iff, List, [], ◌∷◌, ◌++◌, map, contains, trim_space, ◌≡◌, ◌≢◌,
  refl, ◌↔◌, ◌⊎◌, arith, All,
}
use golang_postgres_starter.Success.{status_forbids_body}
use golang_postgres_starter.Binding.{Parsers}
use golang_postgres_starter.Raw.{
  DocParam, RawResponse, RawError, is_response_status, check_raw_body, is_location, param_key,
  has_setter, check_param, check_raw_params, lacking, check_response, check_responses,
}

unless_iff : (b : Bool) (e : RawError) → (unless b e ≡ []) ↔ (b ≡ true)
unless_iff true e = ground arith
unless_iff false e = ground arith

-- Keys of which none is listed already and none is repeated.
module _ {K : Type 0} ⦃c : Comparable K⦄ where
  abbrev pub Fresh : List K → List K → Type 0
  Fresh seen [] = Unit {0}
  Fresh seen (k ∷ ks) = (contains seen k ≡ false) × Fresh (k ∷ seen) ks

  abbrev pub AreApart : List K → Type 0
  AreApart [] = Unit {0}
  AreApart (k ∷ ks) = All (λ other. k ≢ other) ks × AreApart ks

  unseen_iff :
      (k : K) (seen ks : List K)
      → All (λ other. contains (k ∷ seen) other ≡ false) ks
        ↔ (All (λ other. k ≢ other) ks × All (λ other. contains seen other ≡ false) ks)
  unseen_iff k seen [] = ground arith
  unseen_iff k seen (o ∷ ks) = ground (arith, unseen_iff k seen ks, c.same_iff k o)

  keys_iff :
      (seen ks : List K)
      → Fresh seen ks ↔ (All (λ other. contains seen other ≡ false) ks × AreApart ks)
  keys_iff seen [] = ground arith
  keys_iff seen (k ∷ ks) = ground (arith, keys_iff (k ∷ seen) ks, unseen_iff k seen ks)

never_seen : {K : Type 0} ⦃c : Comparable K⦄ (ks : List K) → All (λ k. contains [] k ≡ false) ks
never_seen [] = tt
never_seen (k ∷ ks) = (refl, never_seen ks)

pub keys_none_iff : {K : Type 0} ⦃c : Comparable K⦄ (ks : List K) → Fresh [] ks ↔ AreApart ks
keys_none_iff ks =
    ((λ h. ((keys_iff [] ks).0 h).1), λ apart. (keys_iff [] ks).1 (never_seen ks, apart))

pub keys_one_iff :
    {K : Type 0} ⦃c : Comparable K⦄ (k : K) (ks : List K) → Fresh (k ∷ []) ks ↔ AreApart (k ∷ ks)
keys_one_iff k ks =
    let all = keys_iff (k ∷ []) ks in
    let others = unseen_iff k [] ks in
    (
      (λ h. ((others.0 (all.0 h).0).0, (all.0 h).1)),
      λ (differ, apart). all.1 (others.1 (differ, never_seen ks), apart),
    )

pub body_iff :
    (forbidden has_type no_body : Bool)
    → (check_raw_body forbidden has_type no_body ≡ []) ↔ (
        ((forbidden ≡ true) × (has_type ≡ false))
        ⊎ ((forbidden ≡ false) × (has_type ≡ not no_body)))
unfolding check_raw_body
body_iff true true true = ground arith
body_iff true true false = ground arith
body_iff true false true = ground arith
body_iff true false false = ground arith
body_iff false true true = ground arith
body_iff false true false = ground arith
body_iff false false true = ground arith
body_iff false false false = ground arith

-- The two halves of a list of violations.
pub both {ℓ κ} :
    {P : Type ℓ} {Q : Type κ} {first second : List RawError}
    → (first ≡ []) ↔ P
    → (second ≡ []) ↔ Q
    → (first ++ second ≡ []) ↔ (P × Q)
both {first = first} {second = second} p q =
    let halves = append-eq-nil_iff {p = first} {q = second} in
    ((λ h. let (a, b) = halves.0 h in (p.0 a, q.0 b)), λ (a, b). halves.1 (p.1 a, q.1 b))

-- A check whose condition says P.
pub check_for {ℓ} : {P : Type ℓ} (b : Bool) (e : RawError) → (b ≡ true) ↔ P → (unless b e ≡ []) ↔ P
check_for b e says = ((λ h. says.0 ((unless_iff b e).0 h)), λ p. (unless_iff b e).1 (says.1 p))

pub same : {P : Type 0} → P ↔ P
same = ((λ p. p), λ p. p)

nonblank_iff : (s : Text) → (not (s == []) ≡ true) ↔ (s ≢ [])
nonblank_iff s = ground (arith, list_beq_iff s [])

pub not_iff : (b : Bool) → (not b ≡ true) ↔ (b ≡ false)
not_iff true = ground arith
not_iff false = ground arith

implies_iff : (a b : Bool) → ((not a || b) ≡ true) ↔ (a ≡ true → b ≡ true)
implies_iff true true = ground arith
implies_iff true false = ground arith
implies_iff false b = ground arith

pub excluded_iff : (a b : Bool) → (not (a && b) ≡ true) ↔ (a ≡ true → b ≡ false)
excluded_iff true true = ground arith
excluded_iff true false = ground arith
excluded_iff false b = ground arith

pub status_iff : (s : ℕ) → (is_response_status s ≡ true) ↔ ((200 ≤ s) × (s ≤ 399))
status_iff s = ground arith

-- A body is set exactly where none is excluded.
abbrev pub BodyFits : ℕ → Bool → Bool → Type 0
BodyFits status has_type no_body =
    ((status_forbids_body status ≡ true) × (has_type ≡ false))
    ⊎ ((status_forbids_body status ≡ false) × (has_type ≡ not no_body))

module _ {L : Type 0} (lib : Parsers L) where
  pub record IsParam (p : DocParam) : Type 0 where
    pub named : trim_space p.name ≢ []
    pub located : is_location p.location ≡ true
    pub typed : has_setter lib p.type_of ≡ true
    pub required : (p.location == codes "path") ≡ true → p.required ≡ true

  check_param_iff :
      (seen : List Text) (p : DocParam)
      → (check_param lib seen p ≡ []) ↔ ((contains seen (param_key p) ≡ false) × IsParam p)
  unfolding check_param
  check_param_iff seen p =
      let all = both (check_for _ _ (nonblank_iff (trim_space p.name))) (
        both (check_for _ _ same) (
          both (check_for _ _ (not_iff (contains seen (param_key p)))) (
            both (check_for _ _ same)
              (check_for _ _ (implies_iff (p.location == codes "path") p.required))))) in
      (
        (λ h.
            let (named, (located, (fresh, (typed, required)))) = all.0 h in
            (
              fresh,
              record { named = named; located = located; typed = typed; required = required },
            )),
        λ (fresh, is). all.1 (is.named, (is.located, (fresh, (is.typed, is.required)))),
      )

  pub check_raw_params_iff :
      (seen : List Text) (ps : List DocParam)
      → (check_raw_params lib seen ps ≡ []) ↔ (Fresh seen (map param_key ps) × All IsParam ps)
  unfolding check_raw_params
  check_raw_params_iff seen [] = ground arith
  check_raw_params_iff seen (p ∷ ps) =
      let all = both (check_param_iff seen p) (check_raw_params_iff (param_key p ∷ seen) ps) in
      (
        (λ h. let ((fresh, is), (rest, are)) = all.0 h in ((fresh, rest), (is, are))),
        λ ((fresh, rest), (is, are)). all.1 ((fresh, is), (rest, are)),
      )

pub lacking_iff :
    (names : List Text) (e : Text → RawError) (ns : List Text)
    → (lacking names e ns ≡ []) ↔ All (λ n. contains names n ≡ true) ns
unfolding lacking
lacking_iff names e [] = ground arith
lacking_iff names e (n ∷ ns) = both (check_for _ _ same) (lacking_iff names e ns)

pub record IsResponse (r : RawResponse) : Type 0 where
  pub succeeds : (200 ≤ r.status) × (r.status ≤ 399)
  pub described : trim_space r.description ≢ []
  pub fits : BodyFits r.status r.has_type r.no_body

check_response_iff :
    (seen : List ℕ) (r : RawResponse)
    → (check_response seen r ≡ []) ↔ ((contains seen r.status ≡ false) × IsResponse r)
unfolding check_response
check_response_iff seen r =
    let all = both (check_for _ _ (status_iff r.status)) (
      both (check_for _ _ (not_iff (contains seen r.status))) (
        both (check_for _ _ (nonblank_iff (trim_space r.description)))
          (body_iff (status_forbids_body r.status) r.has_type r.no_body))) in
    (
      (λ h.
          let (succeeds, (fresh, (described, fits))) = all.0 h in
          (fresh, record { succeeds = succeeds; described = described; fits = fits })),
      λ (fresh, is). all.1 (is.succeeds, (fresh, (is.described, is.fits))),
    )

pub check_responses_iff :
    (seen : List ℕ) (rs : List RawResponse)
    → (check_responses seen rs ≡ [])
      ↔ (Fresh seen (map (λ (r : RawResponse). r.status) rs) × All IsResponse rs)
unfolding check_responses
check_responses_iff seen [] = ground arith
check_responses_iff seen (r ∷ rs) =
    let all = both (check_response_iff seen r) (check_responses_iff (r.status ∷ seen) rs) in
    (
      (λ h. let ((fresh, is), (rest, are)) = all.0 h in ((fresh, rest), (is, are))),
      λ ((fresh, rest), (is, are)). all.1 ((fresh, is), (rest, are)),
    )
