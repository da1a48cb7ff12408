-- ===== src/Validation/Engine/Retention.antt =====
-- No extracted field is lost: it is mapped, or kept as unknown with its value.
use ulpx.Base.{
  String, ◌≡◌, ◌⊎◌, inl, inr, sym, ap, ap₂, subst, ◌∙◌, true, false, Option, none, some, List, [],
  ◌∷◌, ◌==◌, any, ok, arith, eq_iff, eq_refl, Bool-cases,
}
use ulpx.Base.Dict.{Dict, lookup, lookup-cons, lookup-insert, lookup-nil, insert, contains}
use ulpx.Base.Floats.{Floats}
use ulpx.Base.Value.{Value}
use ulpx.Spec.{FieldDef, ParserSpec, fields_of}
use ulpx.Shadow.Runner.{canonical_of}
use ulpx.Validation.Extract.{RecordParsers, extract_raw}
use ulpx.Validation.Transform.{
  Casts, map_one, map_configured, transform, mapped_raw_keys, retain_unmapped,
}
use ulpx.Validation.Engine.{canonical_fields, extension_fields}

module _ {F : Type 0} where
  kept-unmapped :
      (k : String) (v : Value F) (mapped : List String) (d : Dict (Value F))
      → any (λ m. m == k) mapped ≡ false
      → lookup k d ≡ some v
      → lookup k (retain_unmapped mapped d) ≡ some v
  unfolding retain_unmapped
  kept-unmapped k v mapped [] a h = h
  kept-unmapped k v mapped ((j, w) ∷ d) a h = elim (Bool-cases (j == k)) [
    | inl here ↦
        let e = (eq_iff j k).0 here in
        ground (
          arith,
          ap (λ x. any (λ m. m == x) mapped) e ∙ a,
          lookup-cons k j w (retain_unmapped mapped d),
          lookup-cons k j w d,
        )
    | inr there ↦
        let rest = kept-unmapped k v mapped d a (ground (arith, lookup-cons k j w d)) in
        ground (arith, lookup-cons k j w (retain_unmapped mapped d))
  ]

  -- A mapped name has a field definition.
  mapped_raw_keys-field :
      (k : String) (fields : Dict FieldDef) (d : Dict (Value F))
      → any (λ m. m == k) (mapped_raw_keys fields d) ≡ true
      → (f : FieldDef) × (lookup k fields ≡ some f)
  unfolding mapped_raw_keys
  mapped_raw_keys-field k [] d h = absurd (ground arith)
  mapped_raw_keys-field k ((j, f) ∷ fields) d h = elim (Bool-cases (j == k)) [
    | inl here ↦ (f, ground (arith, lookup-cons k j f fields))
    | inr there ↦
        let (g, e) = mapped_raw_keys-field k fields d (ground arith) in
        (g, ground (arith, lookup-cons k j f fields))
  ]

module _ (fl : Floats) (repr : Value fl.F → String) (casts : Casts fl.F) where
  open fl use {F}

  insert-contains :
      (c k : String) (v : Value F) (d : Dict (Value F))
      → contains c d ≡ true
      → contains c (insert k v d) ≡ true
  unfolding contains
  insert-contains c k v d h = ground (arith, lookup-insert k c v d)

  map_one-contains :
      (c : String) (o : Option (Value F)) (k : String) (f : FieldDef) (d : Dict (Value F))
      → contains c d ≡ true
      → contains c (map_one fl repr casts o k f d) ≡ true
  map_one-contains c none k f d h = h
  map_one-contains c (some v) k f d h =
      insert-contains c (canonical_of k f) (transform fl repr casts f v) d h

  -- A target that is written stays.
  map_configured-keeps :
      (c : String) (fields : Dict FieldDef) (d mapped : Dict (Value F))
      → contains c mapped ≡ true
      → contains c (map_configured fl repr casts fields d mapped) ≡ true
  unfolding map_configured
  map_configured-keeps c [] d mapped h = h
  map_configured-keeps c ((k, f) ∷ fields) d mapped h =
      map_configured-keeps c fields d (map_one fl repr casts (lookup k d) k f mapped)
        (map_one-contains c (lookup k d) k f mapped h)

  written : (k : String) (v : Value F) (d : Dict (Value F)) → contains k (insert k v d) ≡ true
  unfolding contains
  written k v d = rw (lookup-insert k k v d, eq_refl)

  map_configured-contains :
      (k : String) (f : FieldDef) (v : Value F) (fields : Dict FieldDef) (d mapped : Dict (Value F))
      → lookup k fields ≡ some f
      → lookup k d ≡ some v
      → contains (canonical_of k f) (map_configured fl repr casts fields d mapped) ≡ true
  unfolding map_configured
  map_configured-contains k f v [] d mapped h _ =
      absurd (ground (arith, lookup-nil {V = FieldDef} k))
  map_configured-contains k f v ((j, g) ∷ fields) d mapped h e = elim (Bool-cases (j == k)) [
    | inl here ↦
        let q = (eq_iff j k).0 here in
        map_configured-keeps (canonical_of k f) fields d _
          (at (sym q) (ground (arith, lookup-cons k j g fields)))
    | inr there ↦
        map_configured-contains k f v fields d _ (ground (arith, lookup-cons k j g fields)) e
  ]
    where
      at :
          k ≡ j
          → g ≡ f
          → contains (canonical_of k f) (map_one fl repr casts (lookup j d) j g mapped) ≡ true
      at q r = rw (ap (λ x. lookup x d) (sym q) ∙ e) (
          subst
            (λ c.
              contains c (insert (canonical_of j g) (transform fl repr casts g v) mapped) ≡ true)
            (ap₂ canonical_of (sym q) r)
            (written (canonical_of j g) (transform fl repr casts g v) mapped))

module _ (fl : Floats) (repr : Value fl.F → String) (DateTime : Type 0)
    (parsers : RecordParsers fl.F) (casts : Casts fl.F) where
  open fl use {F}

  -- If the extraction returns, an extracted field either has a field definition, whose target is then among the canonical
  -- fields, or is kept as unknown with its value.
  pub extracted_retained :
      (raw : String) (spec : ParserSpec) (extracted : Dict (Value F)) (k : String) (v : Value F)
      → extract_raw parsers spec raw ≡ ok extracted
      → lookup k extracted ≡ some v
      → ((f : FieldDef) × (lookup k (fields_of spec) ≡ some f)
          × (contains
                (canonical_of k f)
                (canonical_fields fl repr DateTime parsers casts extracted spec)
              ≡ true))
        ⊎ (lookup k (extension_fields fl repr DateTime parsers casts extracted spec) ≡ some v)
  extracted_retained raw spec d k v _ h =
      let mapped = mapped_raw_keys (fields_of spec) d in
      elim (Bool-cases (any (λ m. m == k) mapped)) [
        | inl named ↦
            let (f, e) = mapped_raw_keys-field k (fields_of spec) d named in
            inl (f, e, map_configured-contains fl repr casts k f v (fields_of spec) d [] e h)
        | inr other ↦ inr (kept-unmapped k v mapped d other h)
      ]
