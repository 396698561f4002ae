-- ===== src/Binding/Plan/Tagged.antt =====
-- A plan that is compiled without a violation has a binder for every parameter tag of the struct.
use golang_postgres_starter.Base.{
  ℕ, suc, Text, codes, not, ◌&&◌, ◌||◌, ◌==◌, nat_eq, text_eq, List, [], ◌∷◌, ◌++◌, contains,
  Option, none, some, lookup, subst, ◌≡◌, ◌≢◌, refl, sym, ap, ◌∙◌, inl, inr, if-both, Any,
  Any-append_left, Any-append_right,
}
use golang_postgres_starter.Binding.{
  Source, path, query, header, cookie, Setter, Parsers, compile_setter,
}
use golang_postgres_starter.Binding.Body.{BodyPlan}
use golang_postgres_starter.Binding.Bind.{FieldBinder}
use golang_postgres_starter.Binding.Plan.{
  StructField, RequestViolation, tag_of, parameter_sources, with_tag, parameter_tags,
}
use golang_postgres_starter.Binding.Plan.Compile.{
  Compiled, report, report_some, take_body, compile_body_field, unenforceable_required_param,
  take_setter, noted, compile_parameter, compile_tagged, compile_field, compile_fields,
  unless_retired,
}

-- A binder for the field that reads from the source under the name, with the setter of its type.
abbrev pub Binds :
    {L B : Type 0} → Parsers L → StructField L B → ℕ → Source → Text → FieldBinder L → Type 0
Binds lib f i source name b =
    (b.index ≡ i)
    × (b.source ≡ source)
    × (b.name ≡ name)
    × (compile_setter lib f.type_of ≡ some b.assign)

-- The parameter tags of the field all have binders, and so have those of the fields behind it.
abbrev pub AreBound :
    {L B : Type 0} → Parsers L → List (FieldBinder L) → ℕ → List (StructField L B) → Type 0
AreBound lib binders i [] = Unit {0}
AreBound lib binders i (f ∷ fs) =
    ((source : Source) (name : Text)
      → lookup (tag_of source) f.tags ≡ some name
      → Any (Binds lib f i source name) binders)
    × AreBound lib binders (suc i) fs

reported-nil : {A : Type 0} (vs : List A) (v : A) → vs ++ (v ∷ []) ≢ []
reported-nil [] v e = cc
reported-nil (u ∷ vs) v e = cc

-- Every tag of a parameter is among the parameter tags.
parameter_tags-Any :
    (sources : List Source) (tags : List (Text × Text)) (source : Source) (name : Text)
    → Any (λ s. s ≡ source) sources
    → lookup (tag_of source) tags ≡ some name
    → Any (λ t. t ≡ (source, name)) (parameter_tags sources tags)
unfolding parameter_tags
parameter_tags-Any [] tags source name a h = a
parameter_tags-Any (s ∷ sources) tags source name (inl same) h =
    rw (ap (λ x. lookup (tag_of x) tags) same ∙ h) (inl (ap (λ x. (x, name)) same))
parameter_tags-Any (s ∷ sources) tags source name (inr a) h =
    go (lookup (tag_of s) tags) (parameter_tags-Any sources tags source name a h)
  where
    go :
        (found : Option Text)
        → Any (λ t. t ≡ (source, name)) (parameter_tags sources tags)
        → Any (λ t. t ≡ (source, name)) (with_tag s found (parameter_tags sources tags))
    go none a = a
    go (some v) a = inr a

among_sources : (source : Source) → Any (λ s. s ≡ source) parameter_sources
among_sources path = inl refl
among_sources query = inr (inl refl)
among_sources header = inr (inr (inl refl))
among_sources cookie = inr (inr (inr (inl refl)))

module _ {L B : Type 0} (lib : Parsers L) (method : Text) where
  -- Compiling keeps the violations and the binders that are there.
  module _ (Q : FieldBinder L → Type 0) where
    abbrev Keeps : Compiled L B → Compiled L B → Type 0
    Keeps c next =
        (next.violations ≡ [] → c.violations ≡ []) × (Any Q c.plan.fields → Any Q next.plan.fields)

    report-Keeps : (v : RequestViolation) (c : Compiled L B) → Keeps c (report v c)
    report-Keeps v c = ((λ e. absurd (reported-nil c.violations v e)), λ a. a)

    report_some-Keeps :
        (v : Option RequestViolation) (c next : Compiled L B)
        → Keeps c next
        → Keeps c (report_some v next)
    report_some-Keeps none c next k = k
    report_some-Keeps (some v) c next k = ((λ e. absurd (reported-nil next.violations v e)), k.1)

    take_setter-Keeps :
        (m : Option (Setter L)) (f : StructField L B) (i : ℕ) (source : Source) (name : Text)
        (c next : Compiled L B)
        → Keeps c next
        → Keeps c (take_setter m f i source name next)
    unfolding take_setter
    take_setter-Keeps none f i source name c next k =
        ((λ e. absurd (reported-nil next.violations _ e)), k.1)
    take_setter-Keeps (some assign) f i source name c next k =
        (k.0, λ a. Any-append_left Q next.plan.fields _ (k.1 a))

    compile_parameter-Keeps :
        (f : StructField L B) (i : ℕ) (source : Source) (name : Text) (c : Compiled L B)
        → Keeps c (compile_parameter lib f i source name c)
    unfolding compile_parameter
    compile_parameter-Keeps f i source name c =
        if-both (Keeps c) (name == []) _ _ (report-Keeps _ c) (
          if-both (Keeps c) (contains c.seen (tag_of source ++ (b':' ∷ name))) _ _
            (report-Keeps _ c)
            (take_setter-Keeps _ f i source name c _ (
              report_some-Keeps (unenforceable_required_param f source name) c (noted source name c)
                ((λ e. e), λ a. a))))

    take_body-Keeps :
        (v : Option RequestViolation) (f : StructField L B) (i : ℕ) (value : Text)
        (c : Compiled L B)
        → Keeps c (take_body v i value f c)
    take_body-Keeps (some v) f i value c = report-Keeps v c
    take_body-Keeps none f i value c = ((λ e. e), λ a. a)

    compile_body_field-Keeps :
        (held : Option BodyPlan) (f : StructField L B) (i : ℕ) (value : Text) (c : Compiled L B)
        → Keeps c (compile_body_field held method f i value c)
    unfolding compile_body_field
    compile_body_field-Keeps (some body) f i value c = report-Keeps _ c
    compile_body_field-Keeps none f i value c =
        if-both (Keeps c) (not (value == codes "required") && not (value == codes "optional")) _ _
          (report-Keeps _ c)
          (if-both (Keeps c) (method == codes "GET" || method == codes "HEAD") _ _
            (report-Keeps _ c) (take_body-Keeps _ f i value c))

    compile_tagged-Keeps :
        (f : StructField L B) (i : ℕ) (tags : List (Source × Text)) (body : Option Text)
        (c : Compiled L B)
        → Keeps c (compile_tagged lib method f i tags body c)
    unfolding compile_tagged
    compile_tagged-Keeps f i [] none c =
        if-both (Keeps c) f.is_exported _ _ (report-Keeps _ c) ((λ e. e), λ a. a)
    compile_tagged-Keeps f i [] (some value) c =
        if-both (Keeps c) (not f.is_exported) _ _ (report-Keeps _ c)
          (compile_body_field-Keeps c.plan.body f i value c)
    compile_tagged-Keeps f i ((source, name) ∷ []) none c =
        if-both (Keeps c) (not f.is_exported) _ _ (report-Keeps _ c)
          (compile_parameter-Keeps f i source name c)
    compile_tagged-Keeps f i ((source, name) ∷ []) (some value) c = report-Keeps _ c
    compile_tagged-Keeps f i (t ∷ u ∷ rest) body c = report-Keeps _ c

    compile_field-Keeps :
        (f : StructField L B) (i : ℕ) (c : Compiled L B) → Keeps c (compile_field lib method f i c)
    unfolding compile_field
    compile_field-Keeps f i c =
        go (lookup (codes "source") f.tags) _ (compile_tagged-Keeps f i _ _ c)
      where
        go :
            (v : Option Text) (next : Compiled L B)
            → Keeps c next
            → Keeps c (unless_retired v f next c)
        go none next k = k
        go (some v) next k = report-Keeps _ c

    compile_fields-Keeps :
        (fs : List (StructField L B)) (i : ℕ) (c : Compiled L B)
        → Keeps c (compile_fields lib method fs i c)
    unfolding compile_fields
    compile_fields-Keeps [] i c = ((λ e. e), λ a. a)
    compile_fields-Keeps (f ∷ fs) i c =
        let here = compile_field-Keeps f i c in
        let rest = compile_fields-Keeps fs (suc i) (compile_field lib method f i c) in
        ((λ e. here.0 (rest.0 e)), λ a. rest.1 (here.1 a))

  -- The step of one field, without a violation, makes the binder.
  module _ (f : StructField L B) (i : ℕ) (source : Source) (name : Text) where
    abbrev Made : Compiled L B → Type 0
    Made next = next.violations ≡ [] → Any (Binds lib f i source name) next.plan.fields

    reported-Made : (v : RequestViolation) (c : Compiled L B) → Made (report v c)
    reported-Made v c e = absurd (reported-nil c.violations v e)

    take_setter-Made :
        (m : Option (Setter L)) (c : Compiled L B)
        → compile_setter lib f.type_of ≡ m
        → Made (take_setter m f i source name c)
    unfolding take_setter
    take_setter-Made none c made e = absurd (reported-nil c.violations _ e)
    take_setter-Made (some assign) c made e =
        Any-append_right (Binds lib f i source name) c.plan.fields _ (inl (refl, refl, refl, made))

    compile_parameter-Made : (c : Compiled L B) → Made (compile_parameter lib f i source name c)
    unfolding compile_parameter
    compile_parameter-Made c = if-both Made (name == []) _ _ (reported-Made _ c) (
        if-both Made (contains c.seen (tag_of source ++ (b':' ∷ name))) _ _ (reported-Made _ c)
          (take_setter-Made _ _ refl))

    compile_tagged-Made :
        (tags : List (Source × Text)) (body : Option Text) (c : Compiled L B)
        → Any (λ t. t ≡ (source, name)) tags
        → Made (compile_tagged lib method f i tags body c)
    unfolding compile_tagged
    compile_tagged-Made [] body c a = absurd a
    compile_tagged-Made (t ∷ []) none c (inl same) =
        subst (λ (t : Source × Text). Made (compile_tagged lib method f i (t ∷ []) none c))
          (sym same)
          (if-both Made (not f.is_exported) _ _ (reported-Made _ c) (compile_parameter-Made c))
    compile_tagged-Made (t ∷ []) none c (inr a) = absurd a
    compile_tagged-Made ((s, n) ∷ []) (some value) c a = reported-Made _ c
    compile_tagged-Made (t ∷ u ∷ rest) body c a = reported-Made _ c

    compile_field-Made :
        (c : Compiled L B)
        → lookup (tag_of source) f.tags ≡ some name
        → Made (compile_field lib method f i c)
    unfolding compile_field
    compile_field-Made c tagged = go (lookup (codes "source") f.tags) _ (
        compile_tagged-Made (parameter_tags parameter_sources f.tags) _ c
          (parameter_tags-Any parameter_sources f.tags source name (among_sources source) tagged))
      where
        go : (v : Option Text) (next : Compiled L B) → Made next → Made (unless_retired v f next c)
        go none next h = h
        go (some v) next h = reported-Made _ c

  pub compile_fields-AreBound :
      (fs : List (StructField L B)) (i : ℕ) (c : Compiled L B)
      → (compile_fields lib method fs i c).violations ≡ []
      → AreBound lib (compile_fields lib method fs i c).plan.fields i fs
  unfolding compile_fields
  compile_fields-AreBound [] i c clean = tt
  compile_fields-AreBound (f ∷ fs) i c clean = (
    (λ source name tagged.
        let rest =
          compile_fields-Keeps (Binds lib f i source name) fs (suc i)
            (compile_field lib method f i c) in
        rest.1 (compile_field-Made f i source name c tagged (rest.0 clean))),
    compile_fields-AreBound fs (suc i) (compile_field lib method f i c) clean,
  )
