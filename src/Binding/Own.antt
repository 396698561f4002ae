-- ===== src/Binding/Own.antt =====
-- What a bound request holds: each parameter comes from its own source.
use golang_postgres_starter.Base.{
  false≢true, ℕ, suc, ◌≤◌, ◌<◌, Text, Bool, true, false, nat_eq, List, [], ◌∷◌, Option, none, some,
  subst, ◌≡◌, ◌≢◌, refl, sym, ◌∙◌, ap, inl, inr, ◌⊎◌, Option-cases, arith, All,
}
use golang_postgres_starter.Problem.Errors.{
  GoError, Result, Result-cases, ok, failed, ok-injective, failed-injective, failed-ne-ok,
}
use golang_postgres_starter.Binding.{
  Source, path, query, header, cookie, Raw, Value, Parsers, Parameters, lookup_raw,
}
use golang_postgres_starter.Binding.Body.{Decoding, BodyValue, absent}
use golang_postgres_starter.Binding.Wire.{Carrier, Stream}
use golang_postgres_starter.Binding.Bind.{
  FieldBinder, RequestPlan, Target, put, read_query, bind_fields, validate_enum_values, or_target,
  validated, bind_parameters, bind_read, read_body, bind,
}
use golang_postgres_starter.Binding.Plan.{StructField, is_query}
use golang_postgres_starter.Binding.Plan.Compile.{compile_request}
use golang_postgres_starter.Binding.Plan.Sound.{compile_request-IsSound}
use golang_postgres_starter.Binding.Plan.Promises.{Ascends, IsSure}

module _ {L : Type 0} where
  -- The value of a field from the raw value of its source, or as it was where there is none.
  abbrev pub Holds : Option Raw → FieldBinder L → Value L → Value L → Type 0
  Holds none f before after = after ≡ before
  Holds (some raw) f before after = f.assign before raw ≡ some after

  abbrev pub IsOwn : Parameters → (ℕ → Value L) → (ℕ → Value L) → FieldBinder L → Type 0
  IsOwn r zero out f = Holds (lookup_raw f.source f.name r) f (zero f.index) (out f.index)

  put-other :
      (index i : ℕ) (v : Value L) (values : ℕ → Value L)
      → i ≢ index
      → put index v values i ≡ values i
  put-other index i v values other = ground arith

  put-same : (index : ℕ) (v : Value L) (values : ℕ → Value L) → put index v values index ≡ v
  put-same index v values = ground arith

  bind_fields-IsOwn :
      (low high : ℕ) (fs : List (FieldBinder L)) (r : Parameters) (zero values out : ℕ → Value L)
      → Ascends low high fs
      → ((i : ℕ) → low ≤ i → values i ≡ zero i)
      → bind_fields fs r values ≡ ok out
      → All (IsOwn r zero out) fs × ((i : ℕ) → i < low → out i ≡ values i)
  unfolding bind_fields
  bind_fields-IsOwn low high [] r zero values out given agree done =
      (tt, λ i below. ap (λ (g : ℕ → Value L). g i) (sym (ok-injective done)))
  bind_fields-IsOwn low high (f ∷ fs) r zero values out (le, lt, rest) agree done =
      elim (Option-cases (lookup_raw f.source f.name r)) [
        | inl lacking ↦
            let (own, below) =
              bind_fields-IsOwn (suc f.index) high fs r zero values out rest
                (λ i above. agree i (omega (arith, above, le)))
                (rw (lacking, bind_fields) at done) in
            (
              (
                subst (λ raw. Holds raw f (zero f.index) (out f.index)) (sym lacking)
                    (below f.index (omega arith) ∙ agree f.index le),
                own,
              ),
              (λ i under. below i (omega (arith, under, le))),
            )
        | inr (raw, found) ↦ elim (Option-cases (f.assign (values f.index) raw)) [
          | inl wrong ↦ absurd (failed-ne-ok (rw (found, bind_fields, wrong) at done))
          | inr (v, made) ↦
              let (own, below) =
                bind_fields-IsOwn (suc f.index) high fs r zero (put f.index v values) out rest
                  (λ i above.
                    put-other f.index i v values (λ same. omega (arith, above, same))
                    ∙ agree i (omega (arith, above, le)))
                  (rw (found, bind_fields, made) at done) in
              (
                (
                  subst (λ raw. Holds raw f (zero f.index) (out f.index)) (sym found)
                      (ap (λ b. f.assign b raw) (sym (agree f.index le))
                        ∙ made
                        ∙ ap some (sym (below f.index (omega arith) ∙ put-same f.index v values))),
                  own,
                ),
                (λ i under.
                    below i (omega (arith, under, le))
                    ∙ put-other f.index i v values (λ same. omega (arith, under, le, same))),
              )
        ]
      ]

  -- A plan whose fields are sure binds every request.
  pub bind_fields-sure :
      (fs : List (FieldBinder L)) (r : Parameters) (values : ℕ → Value L)
      → All IsSure fs
      → (out : ℕ → Value L) × (bind_fields fs r values ≡ ok out)
  unfolding bind_fields
  bind_fields-sure [] r values sure = (values, refl)
  bind_fields-sure (f ∷ fs) r values (here, sure) =
      elim (Option-cases (lookup_raw f.source f.name r)) [
        | inl lacking ↦ rw (lacking, bind_fields) (bind_fields-sure fs r values sure)
        | inr (raw, found) ↦
            let (w, made) = here r raw found (values f.index) in
            rw (found, bind_fields, made) (bind_fields-sure fs r (put f.index w values) sure)
      ]

lookup-read_query :
    (has_query : Bool) (source : Source) (name : Text) (r : Parameters)
    → (is_query source ≡ true → has_query ≡ true)
    → lookup_raw source name (read_query has_query r) ≡ lookup_raw source name r
unfolding lookup_raw
lookup-read_query true source name r h = refl
lookup-read_query false path name r h = refl
lookup-read_query false query name r h = absurd (false≢true (h refl))
lookup-read_query false header name r h = refl
lookup-read_query false cookie name r h = refl

module _ {L B : Type 0} (validate : Target L B → Option GoError) (plan : RequestPlan L B) where
  or_target-ok : (o : Option GoError) (t u : Target L B) → or_target o t ≡ ok u → t ≡ u
  or_target-ok none t u h = ok-injective h
  or_target-ok (some err) t u h = absurd (failed-ne-ok h)

  or_target-failed :
      (o : Option GoError) (t : Target L B) (err : GoError)
      → or_target o t ≡ failed err
      → o ≡ some err
  or_target-failed none t err h = absurd (failed-ne-ok (sym h))
  or_target-failed (some e) t err h = ap some (failed-injective h)

  validated-ok : (t u : Target L B) → validated validate plan t ≡ ok u → t ≡ u
  unfolding validated
  validated-ok t u h = elim (Option-cases (validate t)) [
    | inl passed ↦ or_target-ok (validate_enum_values plan t) t u (rw (passed, validated) at h)
    | inr (err, wrong) ↦ absurd (failed-ne-ok (rw (wrong, validated) at h))
  ]

  pub validated-failed :
      (t : Target L B) (err : GoError)
      → validated validate plan t ≡ failed err
      → (validate t ≡ some err) ⊎ ((validate t ≡ none) × (validate_enum_values plan t ≡ some err))
  unfolding validated
  validated-failed t err h = elim (Option-cases (validate t)) [
    | inl passed ↦
        inr (
          passed,
          or_target-failed (validate_enum_values plan t) t err (rw (passed, validated) at h),
        )
    | inr (e, wrong) ↦ inl (wrong ∙ ap some (failed-injective (rw (wrong, validated) at h)))
  ]

module _ {L B : Type 0} (quote : Text → Text) (unmarshal : Stream → Decoding B)
    (unmarshal_raw : List ℕ → B × Option GoError) (validate : Target L B → Option GoError)
    (lib : Parsers L) (checks : RequestPlan L B → List Text) (method : Text)
    (fields : Option (List (StructField L B))) (plan : RequestPlan L B)
    (compiled : (compile_request lib checks method fields).0 ≡ some plan) (carrier : Carrier)
    (r : Parameters) (zero : ℕ → Value L) where
  unbound_parameters :
      (out : ℕ → Value L) (err : GoError)
      → bind_fields plan.fields (read_query plan.has_query r) zero ≡ ok out
      → bind_read validate plan r zero (ok absent) ≡ failed err
      → validated validate plan (record { fields = out; body = absent }) ≡ failed err
  unfolding bind_read
  unbound_parameters out err set h = rw (set, bind_parameters) at h

  fields_bound :
      (out : ℕ → Value L)
      → bind_fields plan.fields (read_query plan.has_query r) zero ≡ ok out
      → All (IsOwn r zero out) plan.fields
  fields_bound out done =
      let (high, s) = compile_request-IsSound lib checks method fields plan compiled in
      restore plan.fields s.queried
        (bind_fields-IsOwn 0 high plan.fields (read_query plan.has_query r) zero zero out s.ascends
          (λ i le. refl) done).0
    where
      restore :
          (fs : List (FieldBinder L))
          → All (λ f. is_query f.source ≡ true → plan.has_query ≡ true) fs
          → All (IsOwn (read_query plan.has_query r) zero out) fs
          → All (IsOwn r zero out) fs
      restore [] queried own = tt
      restore (f ∷ fs) (q, queried) (o, own) = (
        subst (λ raw. Holds raw f (zero f.index) (out f.index))
            (lookup-read_query plan.has_query f.source f.name r q) o,
        restore fs queried own,
      )

  bind_read-IsOwn :
      (m : Result (BodyValue B)) (t : Target L B)
      → bind_read validate plan r zero m ≡ ok t
      → All (IsOwn r zero t.fields) plan.fields
  unfolding bind_read
  bind_read-IsOwn (failed err) t done = absurd (failed-ne-ok done)
  bind_read-IsOwn (ok body) t done =
      elim (Result-cases (bind_fields plan.fields (read_query plan.has_query r) zero)) [
        | inr (err, wrong) ↦ absurd (failed-ne-ok (rw (wrong, bind_parameters) at done))
        | inl (out, set) ↦
            let same =
              validated-ok validate plan (record { fields = out; body = body }) t
                (rw (set, bind_parameters) at done) in
            subst (λ (t : Target L B). All (IsOwn r zero t.fields) plan.fields) same
              (fields_bound out set)
      ]

  -- A request that a compiled plan binds holds in each parameter field what the field's setter makes
  -- of the raw value of the field's own source, or the field's zero value where the source has
  -- none, whatever the body holds.
  pub bind-IsOwn :
      (t : Target L B)
      → bind quote unmarshal unmarshal_raw validate plan carrier r zero ≡ ok t
      → All (IsOwn r zero t.fields) plan.fields
  unfolding bind
  bind-IsOwn t done = bind_read-IsOwn _ t done

  -- A compiled plan of which the document says that binding cannot fail binds every request: where
  -- it returns an error, the error is that of the validator or of the enum checks on the struct with
  -- all its parameters set.
  pub bind-safe :
      (err : GoError)
      → plan.can_fail_bind ≡ false
      → bind quote unmarshal unmarshal_raw validate plan carrier r zero ≡ failed err
      → (t : Target L B) × (All (IsOwn r zero t.fields) plan.fields)
        × ((validate t ≡ some err)
            ⊎ ((validate t ≡ none) × (validate_enum_values plan t ≡ some err)))
  unfolding bind
  bind-safe err safe h =
      let (high, s) = compile_request-IsSound lib checks method fields plan compiled in
      let (out, set) =
        bind_fields-sure plan.fields (read_query plan.has_query r) zero (s.sure safe) in
      let unread =
        sym (
          ap
            (λ body.
              bind_read validate plan r zero (read_body quote unmarshal unmarshal_raw body carrier))
            (s.bodiless safe))
        ∙ h in
      (
        record { fields = out; body = absent },
        fields_bound out set,
        validated-failed validate plan (record { fields = out; body = absent }) err
            (unbound_parameters out err set unread),
      )
