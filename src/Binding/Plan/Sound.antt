-- ===== src/Binding/Plan/Sound.antt =====
-- What a compiled plan guarantees: its fields stand in the order of the struct, and it says rightly
-- whether a parameter can fail.
use golang_postgres_starter.Base.{
  some-injective, ℕ, suc, Text, codes, true, not, ◌&&◌, ◌||◌, ◌==◌, nat_eq, text_eq, List, [], ◌∷◌,
  ◌++◌, contains, Option, none, some, lookup, subst, ◌≡◌, refl, sym, if-both, arith, All-append,
  All-map,
}
use golang_postgres_starter.Binding.{Source, Setter, Parsers, compile_setter}
use golang_postgres_starter.Binding.Settable.{compile_setter-never_fails}
use golang_postgres_starter.Binding.Body.{BodyPlan}
use golang_postgres_starter.Binding.Bind.{RequestPlan}
use golang_postgres_starter.Binding.Plan.{
  StructField, RequestViolation, is_query, tag_of, parameter_type_can_fail_binding,
}
use golang_postgres_starter.Binding.Plan.Compile.{
  Compiled, report_some, take_body, compile_body_field, unenforceable_required_param, binder,
  take_setter, noted, compile_parameter, compile_tagged, compile_field, compile_fields, start,
  close, compile_request, unless_retired,
}
use golang_postgres_starter.Binding.Plan.Promises.{
  Ascends-append, Ascends-widen, IsSound, IsSure, or_left, or_right, or_true, true_or,
}

module _ {L B : Type 0} where
  IsSound-widen : (i : ℕ) (plan : RequestPlan L B) → IsSound i plan → IsSound (suc i) plan
  IsSound-widen i plan s = record {
    ascends = Ascends-widen 0 i plan.fields s.ascends;
    queried = s.queried;
    bodiless = s.bodiless;
    sure = s.sure;
  }

  noted-IsSound :
      (i : ℕ) (source : Source) (name : Text) (c : Compiled L B)
      → IsSound i c.plan
      → IsSound i (noted source name c).plan
  noted-IsSound i source name c s = record {
    ascends = s.ascends;
    queried =
        All-map (λ f. is_query f.source ≡ true → c.plan.has_query ≡ true)
          (λ f. is_query f.source ≡ true → (c.plan.has_query || is_query source) ≡ true)
          (λ f h q. or_true c.plan.has_query (is_query source) (h q)) c.plan.fields s.queried;
    bodiless = s.bodiless;
    sure = s.sure;
  }

  report_some-plan :
      (v : Option RequestViolation) (c : Compiled L B) → (report_some v c).plan ≡ c.plan
  report_some-plan none c = refl
  report_some-plan (some v) c = refl

  take_setter-IsSound :
      (lib : Parsers L) (m : Option (Setter L)) (f : StructField L B) (i : ℕ) (source : Source)
      (name : Text) (c : Compiled L B)
      → compile_setter lib f.type_of ≡ m
      → (is_query source ≡ true → c.plan.has_query ≡ true)
      → IsSound i c.plan
      → IsSound (suc i) (take_setter m f i source name c).plan
  unfolding take_setter
  take_setter-IsSound lib none f i source name c made queried s = IsSound-widen i c.plan s
  take_setter-IsSound lib (some assign) f i source name c made queried s =
      let this = binder f i source name assign in
      let fails = parameter_type_can_fail_binding source f.type_of in
      record {
        ascends = Ascends-append 0 i c.plan.fields this s.ascends (omega arith) refl;
        queried =
            All-append (λ g. is_query g.source ≡ true → c.plan.has_query ≡ true) c.plan.fields
              (this ∷ []) s.queried (queried, tt);
        bodiless = λ safe. s.bodiless (or_left c.plan.can_fail_bind fails safe);
        sure = λ safe.
            All-append IsSure c.plan.fields (this ∷ [])
              (s.sure (or_left c.plan.can_fail_bind fails safe))
              (
                (λ r raw found.
                    compile_setter-never_fails lib source f.type_of assign name r raw
                      (or_right c.plan.can_fail_bind fails safe) made found),
                tt,
              );
      }

  compile_parameter-IsSound :
      (lib : Parsers L) (f : StructField L B) (i : ℕ) (source : Source) (name : Text)
      (c : Compiled L B)
      → IsSound i c.plan
      → IsSound (suc i) (compile_parameter lib f i source name c).plan
  unfolding compile_parameter
  compile_parameter-IsSound lib f i source name c s =
      if-both sound (name == []) _ _ (IsSound-widen i c.plan s) (
        if-both sound (contains c.seen (tag_of source ++ (b':' ∷ name))) _ _
          (IsSound-widen i c.plan s)
          (take_setter-IsSound lib _ f i source name reported refl
            (λ q.
              subst (λ (p : RequestPlan L B). p.has_query ≡ true) (sym same)
                (true_or c.plan.has_query (is_query source) q))
            (subst (IsSound i) (sym same) (noted-IsSound i source name c s))))
    where
      sound : Compiled L B → Type 0
      sound c = IsSound (suc i) c.plan

      reported : Compiled L B
      reported = report_some (unenforceable_required_param f source name) (noted source name c)

      same : reported.plan ≡ (noted source name c).plan
      same = report_some-plan (unenforceable_required_param f source name) (noted source name c)

  take_body-IsSound :
      (v : Option RequestViolation) (f : StructField L B) (i : ℕ) (value : Text) (c : Compiled L B)
      → IsSound i c.plan
      → IsSound (suc i) (take_body v i value f c).plan
  take_body-IsSound (some v) f i value c s = IsSound-widen i c.plan s
  take_body-IsSound none f i value c s = record {
    ascends = Ascends-widen 0 i c.plan.fields s.ascends;
    queried = s.queried;
    bodiless = λ safe. cc;
    sure = λ safe. cc;
  }

  compile_body_field-IsSound :
      (held : Option BodyPlan) (method : Text) (f : StructField L B) (i : ℕ) (value : Text)
      (c : Compiled L B)
      → IsSound i c.plan
      → IsSound (suc i) (compile_body_field held method f i value c).plan
  unfolding compile_body_field
  compile_body_field-IsSound (some body) method f i value c s = IsSound-widen i c.plan s
  compile_body_field-IsSound none method f i value c s =
      if-both sound (not (value == codes "required") && not (value == codes "optional")) _ _
        (IsSound-widen i c.plan s)
        (if-both sound (method == codes "GET" || method == codes "HEAD") _ _
          (IsSound-widen i c.plan s) (take_body-IsSound _ f i value c s))
    where
      sound : Compiled L B → Type 0
      sound c = IsSound (suc i) c.plan

  compile_tagged-IsSound :
      (lib : Parsers L) (method : Text) (f : StructField L B) (i : ℕ) (tags : List (Source × Text))
      (body : Option Text) (c : Compiled L B)
      → IsSound i c.plan
      → IsSound (suc i) (compile_tagged lib method f i tags body c).plan
  unfolding compile_tagged
  compile_tagged-IsSound lib method f i [] none c s =
      if-both (λ (c : Compiled L B). IsSound (suc i) c.plan) f.is_exported _ _
        (IsSound-widen i c.plan s) (IsSound-widen i c.plan s)
  compile_tagged-IsSound lib method f i [] (some value) c s =
      if-both (λ (c : Compiled L B). IsSound (suc i) c.plan) (not f.is_exported) _ _
        (IsSound-widen i c.plan s) (compile_body_field-IsSound c.plan.body method f i value c s)
  compile_tagged-IsSound lib method f i ((source, name) ∷ []) none c s =
      if-both (λ (c : Compiled L B). IsSound (suc i) c.plan) (not f.is_exported) _ _
        (IsSound-widen i c.plan s) (compile_parameter-IsSound lib f i source name c s)
  compile_tagged-IsSound lib method f i ((source, name) ∷ []) (some value) c s =
      IsSound-widen i c.plan s
  compile_tagged-IsSound lib method f i (t ∷ u ∷ rest) body c s = IsSound-widen i c.plan s

  compile_field-IsSound :
      (lib : Parsers L) (method : Text) (f : StructField L B) (i : ℕ) (c : Compiled L B)
      → IsSound i c.plan
      → IsSound (suc i) (compile_field lib method f i c).plan
  unfolding compile_field
  compile_field-IsSound lib method f i c s =
      go (lookup (codes "source") f.tags) _ (compile_tagged-IsSound lib method f i _ _ c s)
    where
      go :
          (v : Option Text) (next : Compiled L B)
          → IsSound (suc i) next.plan
          → IsSound (suc i) (unless_retired v f next c).plan
      go none next h = h
      go (some v) next h = IsSound-widen i c.plan s

  compile_fields-IsSound :
      (lib : Parsers L) (method : Text) (fs : List (StructField L B)) (i : ℕ) (c : Compiled L B)
      → IsSound i c.plan
      → (high : ℕ) × IsSound high (compile_fields lib method fs i c).plan
  unfolding compile_fields
  compile_fields-IsSound lib method [] i c s = (i, s)
  compile_fields-IsSound lib method (f ∷ fs) i c s =
      compile_fields-IsSound lib method fs (suc i) (compile_field lib method f i c)
        (compile_field-IsSound lib method f i c s)

  start-IsSound : IsSound 0 (start {L = L} {B = B}).plan
  start-IsSound = record { ascends = tt; queried = tt; bodiless = λ safe. refl; sure = λ safe. tt }

  pub compile_request-IsSound :
      (lib : Parsers L) (checks : RequestPlan L B → List Text) (method : Text)
      (fields : Option (List (StructField L B))) (plan : RequestPlan L B)
      → (compile_request lib checks method fields).0 ≡ some plan
      → (high : ℕ) × IsSound high plan
  unfolding compile_request close
  compile_request-IsSound lib checks method none plan h = cc
  compile_request-IsSound lib checks method (some fields) plan h =
      let (high, s) = compile_fields-IsSound lib method fields 0 start start-IsSound in
      (
        high,
        subst (IsSound high) (some-injective _ _ h) (record {
          ascends = s.ascends;
          queried = s.queried;
          bodiless = s.bodiless;
          sure = s.sure;
        }),
      )
