-- ===== src/Binding/Filled.antt =====
-- What a bound request holds in the fields of the struct, by their tags.
use golang_postgres_starter.Base.{
  ℕ, suc, Text, nat_eq, text_eq, List, [], ◌∷◌, ◌++◌, Option, none, some, lookup, some-injective,
  subst, ◌≡◌, ◌≢◌, ◌↔◌, ◌⊎◌, refl, ap, inl, inr, Option-cases, All, Any, Bool, is_empty,
}
use golang_postgres_starter.Problem.Errors.{GoError, ok}
use golang_postgres_starter.Binding.{
  Source, path, query, header, cookie, Raw, one, many, Value, Setter, Parsers, Parameters,
  found_text, found_values, lookup_raw, compile_setter,
}
use golang_postgres_starter.Binding.Body.{Decoding}
use golang_postgres_starter.Binding.Wire.{Carrier, Stream}
use golang_postgres_starter.Binding.Bind.{FieldBinder, RequestPlan, Target, bind}
use golang_postgres_starter.Binding.Plan.{StructField, tag_of}
use golang_postgres_starter.Binding.Plan.Compile.{
  Compiled, compile_request, compile_fields, start, close,
}
use golang_postgres_starter.Binding.Plan.Tagged.{Binds, AreBound, compile_fields-AreBound}
use golang_postgres_starter.Binding.Own.{IsOwn, bind-IsOwn}

-- One text that is there and not empty.
abbrev pub IsText : Option Text → Raw → Type 0
IsText given (one s) = (s ≢ []) × (given ≡ some s)
IsText given (many ss) = ⊥

-- One value, or the list of all where there are more.
abbrev pub AreTexts : Option (List Text) → Raw → Type 0
AreTexts given (one s) = given ≡ some (s ∷ [])
AreTexts given (many []) = ⊥
AreTexts given (many (s ∷ [])) = ⊥
AreTexts given (many (s ∷ t ∷ ss)) = given ≡ some (s ∷ t ∷ ss)

-- The source has this raw value under the name: the router's parameter, the values of the query,
-- the line of the header, or the value of the cookie.
abbrev pub Reads : Source → Text → Parameters → Raw → Type 0
Reads path name r raw = IsText (lookup name r.params) raw
Reads query name r raw = AreTexts (lookup name r.query) raw
Reads header name r raw = IsText (some (r.header_of name)) raw
Reads cookie name r raw = IsText (r.cookie_of name) raw

found_text_iff : (o : Option Text) (raw : Raw) → (found_text o ≡ some raw) ↔ IsText o raw
found_text_iff none (one s) = ((λ h. cc), λ (named, h). cc)
found_text_iff none (many ss) = ((λ h. cc), λ h. absurd h)
found_text_iff (some []) (one s) = ((λ h. cc), λ (named, h). absurd (named (cc)))
found_text_iff (some []) (many ss) = ((λ h. cc), λ h. absurd h)
found_text_iff (some (c ∷ cs)) (one s) = ((λ h. ((λ e. cc), cc)), λ (named, h). cc)
found_text_iff (some (c ∷ cs)) (many ss) = ((λ h. cc), λ h. absurd h)

found_values_iff :
    (o : Option (List Text)) (raw : Raw) → (found_values o ≡ some raw) ↔ AreTexts o raw
found_values_iff none (one s) = ((λ h. cc), λ h. cc)
found_values_iff none (many []) = ((λ h. cc), λ h. absurd h)
found_values_iff none (many (s ∷ [])) = ((λ h. cc), λ h. absurd h)
found_values_iff none (many (s ∷ t ∷ ss)) = ((λ h. cc), λ h. cc)
found_values_iff (some []) (one s) = ((λ h. cc), λ h. cc)
found_values_iff (some []) (many []) = ((λ h. cc), λ h. absurd h)
found_values_iff (some []) (many (s ∷ [])) = ((λ h. cc), λ h. absurd h)
found_values_iff (some []) (many (s ∷ t ∷ ss)) = ((λ h. cc), λ h. cc)
found_values_iff (some (v ∷ [])) (one s) = ((λ h. cc), λ h. cc)
found_values_iff (some (v ∷ [])) (many []) = ((λ h. cc), λ h. absurd h)
found_values_iff (some (v ∷ [])) (many (s ∷ [])) = ((λ h. cc), λ h. absurd h)
found_values_iff (some (v ∷ [])) (many (s ∷ t ∷ ss)) = ((λ h. cc), λ h. cc)
found_values_iff (some (v ∷ w ∷ vs)) (one s) = ((λ h. cc), λ h. cc)
found_values_iff (some (v ∷ w ∷ vs)) (many []) = ((λ h. cc), λ h. absurd h)
found_values_iff (some (v ∷ w ∷ vs)) (many (s ∷ [])) = ((λ h. cc), λ h. absurd h)
found_values_iff (some (v ∷ w ∷ vs)) (many (s ∷ t ∷ ss)) = ((λ h. cc), λ h. cc)

lookup_raw_iff :
    (source : Source) (name : Text) (r : Parameters) (raw : Raw)
    → (lookup_raw source name r ≡ some raw) ↔ Reads source name r raw
unfolding lookup_raw
lookup_raw_iff path name r raw = found_text_iff (lookup name r.params) raw
lookup_raw_iff query name r raw = found_values_iff (lookup name r.query) raw
lookup_raw_iff header name r raw = found_text_iff (some (r.header_of name)) raw
lookup_raw_iff cookie name r raw = found_text_iff (r.cookie_of name) raw

module _ {L : Type 0} where
  -- The field holds what the setter makes of the raw value, or what it held where there is none.
  abbrev pub IsFilled : Parameters → Setter L → Source → Text → Value L → Value L → Type 0
  IsFilled r assign source name before after =
      ((raw : Raw) × Reads source name r raw × (assign before raw ≡ some after))
      ⊎ (((raw : Raw) → ¬ Reads source name r raw) × (after ≡ before))

  own-IsFilled :
      (r : Parameters) (zero out : ℕ → Value L) (b : FieldBinder L)
      → IsOwn r zero out b
      → IsFilled r b.assign b.source b.name (zero b.index) (out b.index)
  own-IsFilled r zero out b own = elim (Option-cases (lookup_raw b.source b.name r)) [
    | inl lacking ↦ inr (
      (λ raw reads. cc (lacking, (lookup_raw_iff b.source b.name r raw).1 reads)),
      rw lacking at own,
    )
    | inr (raw, found) ↦ inl (raw, (lookup_raw_iff b.source b.name r raw).0 found, rw found at own)
  ]

module _ {L B : Type 0} (lib : Parsers L) (r : Parameters) (zero out : ℕ → Value L) where
  -- The field of each parameter tag is filled, by the setter of its type.
  abbrev pub IsFieldFilled : ℕ → StructField L B → Type 0
  IsFieldFilled i f =
      (source : Source) (name : Text)
      → lookup (tag_of source) f.tags ≡ some name
      → (assign : Setter L) × (compile_setter lib f.type_of ≡ some assign)
        × IsFilled r assign source name (zero i) (out i)

  abbrev pub AreFilled : ℕ → List (StructField L B) → Type 0
  AreFilled i [] = Unit {0}
  AreFilled i (f ∷ fs) = IsFieldFilled i f × AreFilled (suc i) fs

  binder-IsFilled :
      (f : StructField L B) (i : ℕ) (source : Source) (name : Text) (binders : List (FieldBinder L))
      → All (IsOwn r zero out) binders
      → Any (Binds lib f i source name) binders
      → (assign : Setter L) × (compile_setter lib f.type_of ≡ some assign)
        × IsFilled r assign source name (zero i) (out i)
  binder-IsFilled f i source name [] own a = absurd a
  binder-IsFilled f i source name (b ∷ bs) (own, owns) (inr a) =
      binder-IsFilled f i source name bs owns a
  binder-IsFilled f i source name (b ∷ bs) (own, owns) (inl (index, from, named, made)) = (
    b.assign,
    made,
    subst (λ i. IsFilled r b.assign source name (zero i) (out i)) index
        (subst (λ s. IsFilled r b.assign s name (zero b.index) (out b.index)) from
          (subst (λ n. IsFilled r b.assign b.source n (zero b.index) (out b.index)) named
            (own-IsFilled r zero out b own))),
  )

  AreBound-AreFilled :
      (binders : List (FieldBinder L)) (i : ℕ) (fs : List (StructField L B))
      → All (IsOwn r zero out) binders
      → AreBound lib binders i fs
      → AreFilled i fs
  AreBound-AreFilled binders i [] own bound = tt
  AreBound-AreFilled binders i (f ∷ fs) own (here, bound) = (
    (λ source name tagged. binder-IsFilled f i source name binders own (here source name tagged)),
    AreBound-AreFilled binders (suc i) fs own bound,
  )

left-nil : {A : Type 0} (p q r : List A) → (p ++ q) ++ r ≡ [] → p ≡ []
left-nil [] q r h = refl
left-nil (a ∷ p) q r h = cc

close-nil :
    {L B : Type 0} (checks : RequestPlan L B → List Text) (no_fields : Bool) (c : Compiled L B)
    → (close checks no_fields c).1 ≡ []
    → c.violations ≡ []
unfolding close
close-nil checks no_fields c h = left-nil c.violations _ _ h

accepted-AreBound :
    {L B : Type 0} (lib : Parsers L) (checks : RequestPlan L B → List Text) (method : Text)
    (fields : List (StructField L B)) (plan : RequestPlan L B)
    → compile_request lib checks method (some fields) ≡ (some plan, [])
    → AreBound lib plan.fields 0 fields
unfolding compile_request close
accepted-AreBound lib checks method fields plan h =
    let c = compile_fields lib method fields 0 start in
    let clean = close-nil checks (is_empty fields) c (ap (λ x. x.1) h) in
    subst (λ (p : RequestPlan _ _). AreBound lib p.fields 0 fields)
      (some-injective _ _ (ap (λ x. x.0) h))
      (compile_fields-AreBound lib method fields 0 start clean)

module _ {L B : Type 0} (quote : Text → Text) (unmarshal : Stream → Decoding B)
    (unmarshal_raw : List ℕ → B × Option GoError) (validate : Target L B → Option GoError)
    (lib : Parsers L) (checks : RequestPlan L B → List Text) (method : Text)
    (fields : List (StructField L B)) (plan : RequestPlan L B)
    (accepted : compile_request lib checks method (some fields) ≡ (some plan, []))
    (carrier : Carrier) (r : Parameters) (zero : ℕ → Value L) where
  -- A request that the plan of a struct binds, where the struct is compiled without a violation,
  -- fills every field with a parameter tag: it holds what the setter of its type makes of the raw
  -- value that the source of the tag has under the name of the tag, or its zero value where the
  -- source has none, whatever the body holds. The raw value is the router's parameter, the header's
  -- line or the cookie's value, if it is not empty, or the one value or the several of the query.
  pub bind-AreFilled :
      (t : Target L B)
      → bind quote unmarshal unmarshal_raw validate plan carrier r zero ≡ ok t
      → AreFilled lib r zero t.fields 0 fields
  bind-AreFilled t done =
      AreBound-AreFilled lib r zero t.fields plan.fields 0 fields
        (bind-IsOwn quote unmarshal unmarshal_raw validate lib checks method (some fields) plan
          (ap (λ x. x.0) accepted) carrier r zero t done)
        (accepted-AreBound lib checks method fields plan accepted)
