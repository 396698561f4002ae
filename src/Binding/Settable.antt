-- ===== src/Binding/Settable.antt =====
-- Which setters cannot fail on what their source yields.
use golang_postgres_starter.Base.{
  some-injective, Text, Bool, true, false, not, List, [], ◌∷◌, Option, none, some, subst, ◌≡◌, refl,
}
use golang_postgres_starter.Binding.{
  Source, path, query, header, cookie, ReflectType, pointer, slice, array, string_kind, bool_kind,
  int_kind, uint_kind, float_kind, struct_kind, other_kind, Raw, one, Value, Values, nil_pointer,
  pointed, slice_of, empty, item, Parsers, Parameters, Setter, nonempty, found_text, lookup_raw,
  set_pointer, set_items, set_slice, if_settable, compile_setter, zero_value, pointee, values_of,
}
use golang_postgres_starter.Binding.Plan.{
  is_string, is_query, base_kind, parameter_type_can_fail_binding,
}

-- A setter that takes every string.
abbrev pub TakesText : {L : Type 0} → Setter L → Type 0
TakesText {L} set = (v : Value L) (s : Text) → (w : Value L) × (set v (one s) ≡ some w)

-- A setter that takes every raw value.
abbrev pub TakesAll : {L : Type 0} → Setter L → Type 0
TakesAll {L} set = (v : Value L) (raw : Raw) → (w : Value L) × (set v raw ≡ some w)

not-false : (b : Bool) → not b ≡ false → b ≡ true
not-false true h = refl
not-false false h = cc

module _ {L : Type 0} where
  set_pointer-TakesText :
      (zero : Value L) (set : Setter L) → TakesText set → TakesText (set_pointer zero set)
  unfolding set_pointer
  set_pointer-TakesText zero set total v [] = (nil_pointer, refl)
  set_pointer-TakesText zero set total v (c ∷ cs) =
      let (w, e) = total (pointee zero v) (c ∷ cs) in (pointed w, rw e refl)

  set_items-some :
      (zero : Value L) (set : Setter L)
      → TakesText set
      → (ss : List Text) → (vs : Values L) × (set_items zero set ss ≡ some vs)
  unfolding set_items
  set_items-some zero set total [] = (empty, refl)
  set_items-some zero set total (s ∷ ss) =
      let (w, e) = total zero s in
      let (vs, es) = set_items-some zero set total ss in (item w vs, rw (e, es) refl)

  set_slice-TakesAll :
      (zero : Value L) (set : Setter L) → TakesText set → TakesAll (set_slice zero set)
  unfolding set_slice
  set_slice-TakesAll zero set total v raw =
      let (vs, e) = set_items-some zero set total (values_of raw) in (slice_of vs, rw e refl)

  -- What holds of a setter made from another.
  made-P {ℓ} :
      (P : Setter L → Type ℓ) (f : Setter L → Setter L) (m : Option (Setter L))
      → ((set : Setter L) → m ≡ some set → P (f set))
      → (set : Setter L) → if_settable f m ≡ some set
      → P set
  made-P P f none h set e = cc
  made-P P f (some inner) h set e = subst P (some-injective _ _ e) (h inner refl)

  module _ (lib : Parsers L) where
    -- A setter for texts behind pointers and slices takes every string.
    compile_setter-TakesText :
        (t : ReflectType)
        → is_string (base_kind t) ≡ true
        → (set : Setter L) → compile_setter lib t ≡ some set
        → TakesText set
    unfolding compile_setter base_kind
    compile_setter-TakesText (pointer t) text set e =
        made-P TakesText (set_pointer (zero_value t)) (compile_setter lib t)
          (λ set e. set_pointer-TakesText _ set (compile_setter-TakesText t text set e)) set e
    compile_setter-TakesText (slice t) text set e =
        made-P TakesText (set_slice (zero_value t)) (compile_setter lib t)
          (λ set e v s. set_slice-TakesAll _ set (compile_setter-TakesText t text set e) v (one s))
          set e
    compile_setter-TakesText string_kind text set e =
        subst TakesText (some-injective _ _ e) (λ v s. (Value.text s, refl))
    compile_setter-TakesText (array t) text set e = cc
    compile_setter-TakesText bool_kind text set e = cc
    compile_setter-TakesText (int_kind bits) text set e = cc
    compile_setter-TakesText (uint_kind bits) text set e = cc
    compile_setter-TakesText (float_kind bits) text set e = cc
    compile_setter-TakesText (struct_kind s) text set e = cc
    compile_setter-TakesText (other_kind name) text set e = cc

    -- A setter for a slice of such takes every raw value.
    compile_setter-TakesAll :
        (t : ReflectType)
        → is_string (base_kind (slice t)) ≡ true
        → (set : Setter L) → compile_setter lib (slice t) ≡ some set
        → TakesAll set
    unfolding compile_setter base_kind
    compile_setter-TakesAll t text =
        made-P TakesAll (set_slice (zero_value t)) (compile_setter lib t)
          (λ set e. set_slice-TakesAll _ set (compile_setter-TakesText t text set e))

    -- What a source other than the query yields is one string.
    nonempty-one : (s : Text) (raw : Raw) → nonempty s ≡ some raw → (t : Text) × (raw ≡ one t)
    nonempty-one [] raw h = cc
    nonempty-one (c ∷ cs) raw h = (c ∷ cs, cc)

    found_text-one :
        (s : Option Text) (raw : Raw) → found_text s ≡ some raw → (t : Text) × (raw ≡ one t)
    found_text-one none raw h = cc
    found_text-one (some s) raw h = nonempty-one s raw h

    lookup_raw-one :
        (source : Source) (name : Text) (r : Parameters) (raw : Raw)
        → is_query source ≡ false
        → lookup_raw source name r ≡ some raw
        → (t : Text) × (raw ≡ one t)
    unfolding lookup_raw
    lookup_raw-one path name r raw other h = found_text-one _ raw h
    lookup_raw-one query name r raw other h = cc
    lookup_raw-one header name r raw other h = nonempty-one _ raw h
    lookup_raw-one cookie name r raw other h = found_text-one _ raw h

    one-case :
        (t : ReflectType) (set : Setter L) (raw : Raw)
        → is_string (base_kind t) ≡ true
        → compile_setter lib t ≡ some set
        → ((s : Text) × (raw ≡ one s))
        → (v : Value L) → (w : Value L) × (set v raw ≡ some w)
    one-case t set raw text e (s, same) v =
        let (w, made) = compile_setter-TakesText t text set e v s in (w, rw same made)

    -- A parameter that cannot fail binding is set to whatever its source yields.
    pub compile_setter-never_fails :
        (source : Source) (t : ReflectType) (set : Setter L) (name : Text) (r : Parameters)
        (raw : Raw)
        → parameter_type_can_fail_binding source t ≡ false
        → compile_setter lib t ≡ some set
        → lookup_raw source name r ≡ some raw
        → (v : Value L) → (w : Value L) × (set v raw ≡ some w)
    unfolding parameter_type_can_fail_binding
    compile_setter-never_fails query (slice t) set name r raw safe e h v =
        compile_setter-TakesAll t (not-false _ safe) set e v raw
    compile_setter-never_fails query (pointer t) set name r raw safe e h v = cc
    compile_setter-never_fails query _ set name r raw safe e h v = cc
    compile_setter-never_fails path t set name r raw safe e h v =
        one-case t set raw (not-false _ safe) e (lookup_raw-one path name r raw refl h) v
    compile_setter-never_fails header t set name r raw safe e h v =
        one-case t set raw (not-false _ safe) e (lookup_raw-one header name r raw refl h) v
    compile_setter-never_fails cookie t set name r raw safe e h v =
        one-case t set raw (not-false _ safe) e (lookup_raw-one cookie name r raw refl h) v
