-- ===== src/Assist/Filter.antt =====
-- What the assistant's filter lets through, and what it keeps.
use ulpx.Base.{
  String, ◌≡◌, ◌⊎◌, inl, inr, refl, subst, Bool, true, false, Option, none, some, List, [], ◌∷◌,
  ◌++◌, any, All, Result, ok, bind_ok, ok-injective, err-ok, if_intro, Bool-cases, arith, ◌&&◌, not,
}
use ulpx.Base.Floats.{Floats}
use ulpx.Base.Value.{Value, Entries, null, bool, int, float, str, arr, dict, get, entries, truthy}
use ulpx.Base.Value.Equality.{same}
use ulpx.Assist.{build_structured_prompt}
use ulpx.Assist.{
  AssistError, in_registry, canonical_of_entry, raw_of_entry, list_of, add_unmapped, sort_entry,
  filter_entries, Proposal, PromptPayload, filter_hallucinated_fields, validate_candidate_structure,
  propose_mappings, read,
}

-- The value stands in the list.
abbrev pub In : {A : Type 0} → A → List A → Type 0
In x [] = ⊥
In x (y ∷ ys) = (y ≡ x) ⊎ In x ys

module _ {A : Type 0} where
  In-last : (x : A) (xs : List A) → In x (xs ++ x ∷ [])
  In-last x [] = inl refl
  In-last x (y ∷ xs) = inr (In-last x xs)

  In-append : (x : A) (xs ys : List A) → In x xs → In x (xs ++ ys)
  In-append x [] ys h = absurd h
  In-append x (y ∷ xs) ys (inl e) = inl e
  In-append x (y ∷ xs) ys (inr h) = inr (In-append x xs ys h)

  All-last : (P : A → Type 0) (xs : List A) (x : A) → All P xs → P x → All P (xs ++ x ∷ [])
  All-last P [] x h p = (p, tt)
  All-last P (y ∷ xs) x (q, h) p = (q, All-last P xs x h p)

  any-append : (p : A → Bool) (xs ys : List A) → any p xs ≡ true → any p (xs ++ ys) ≡ true
  any-append p [] ys h = absurd (ground arith)
  any-append p (x ∷ xs) ys h = elim (Bool-cases (p x)) [
    | inl here ↦ rw here
    | inr there ↦ rw there (any-append p xs ys (ground arith))
  ]

module _ (fl : Floats) where
  open fl use {F}

  -- The target is in the registry.
  abbrev pub IsKnown : Value F → Type 0
  IsKnown entry = in_registry (canonical_of_entry entry) ≡ ok true

  -- The raw field of the entry is empty, or listed, itself or as an equal value.
  abbrev pub IsListed : List (Value F) → Value F → Type 0
  IsListed unmapped entry =
      (truthy fl (raw_of_entry entry) ≡ false)
      ⊎ (In (raw_of_entry entry) unmapped
          ⊎ (any (λ u. same fl u (raw_of_entry entry)) unmapped ≡ true))

  -- The entry is kept, or its raw field is.
  abbrev pub IsKept : List (Value F) → List (Value F) → Value F → Type 0
  IsKept valid unmapped entry = In entry valid ⊎ IsListed unmapped entry

  IsListed-append : (us vs : List (Value F)) (e : Value F) → IsListed us e → IsListed (us ++ vs) e
  IsListed-append us vs e (inl falsy) = inl falsy
  IsListed-append us vs e (inr (inl here)) = inr (inl (In-append _ us vs here))
  IsListed-append us vs e (inr (inr equal)) = inr (inr (any-append _ us vs equal))

  -- Both lists only grow.
  grows-add_unmapped :
      (raw : Value F) (us : List (Value F)) (e : Value F)
      → IsListed us e
      → IsListed (add_unmapped fl raw us) e
  grows-add_unmapped raw us e h =
      if_intro (λ us'. IsListed us' e) (truthy fl raw && not (any (λ u. same fl u raw) us))
        (us ++ raw ∷ []) us (λ _. IsListed-append us (raw ∷ []) e h) (λ _. h)

  sort_entry-IsKept :
      (b : Bool) (x e : Value F) (r : List (Value F) × List (Value F))
      → IsKept r.0 r.1 e
      → IsKept (sort_entry fl b x r).0 (sort_entry fl b x r).1 e
  sort_entry-IsKept true x e (valid, us) (inl here) = inl (In-append e valid (x ∷ []) here)
  sort_entry-IsKept true x e (valid, us) (inr listed) = inr listed
  sort_entry-IsKept false x e (valid, us) (inl here) = inl here
  sort_entry-IsKept false x e (valid, us) (inr listed) =
      inr (grows-add_unmapped (raw_of_entry x) us e listed)

  -- The entry itself is kept, on either branch.
  IsListed-add_unmapped :
      (e : Value F) (us : List (Value F)) → IsListed (add_unmapped fl (raw_of_entry e) us) e
  IsListed-add_unmapped e us = elim (Bool-cases (truthy fl (raw_of_entry e))) [
    | inl some' ↦ elim (Bool-cases (any (λ u. same fl u (raw_of_entry e)) us)) [
      | inl equal ↦ rw (some', equal) (inr (inr equal))
      | inr fresh ↦ rw (some', fresh) (inr (inl (In-last (raw_of_entry e) us)))
    ]
    | inr falsy ↦ inl falsy
  ]

  own_entry :
      (b : Bool) (e : Value F) (r : List (Value F) × List (Value F))
      → IsKept (sort_entry fl b e r).0 (sort_entry fl b e r).1 e
  own_entry true e (valid, us) = inl (In-last e valid)
  own_entry false e (valid, us) = inr (IsListed-add_unmapped e us)

  sort_entry-IsKnown :
      (b : Bool) (e : Value F) (r : List (Value F) × List (Value F))
      → in_registry (canonical_of_entry e) ≡ ok b
      → All IsKnown r.0
      → All IsKnown (sort_entry fl b e r).0
  sort_entry-IsKnown true e (valid, us) q h = All-last IsKnown valid e h q
  sort_entry-IsKnown false e (valid, us) q h = h

  filter_entries-IsKept :
      (es : List (Value F)) (r : List (Value F) × List (Value F))
      {s : List (Value F) × List (Value F)}
      → filter_entries fl es r ≡ ok s
      → (e : Value F) → IsKept r.0 r.1 e
      → IsKept s.0 s.1 e
  unfolding filter_entries
  filter_entries-IsKept [] r h e k = subst (λ x. IsKept x.0 x.1 e) (ok-injective h) k
  filter_entries-IsKept (x ∷ es) r h e k =
      let (b, _, rest) = bind_ok (in_registry (canonical_of_entry x)) _ h in
      filter_entries-IsKept es (sort_entry fl b x r) rest e (sort_entry-IsKept b x e r k)

  filter_entries-outcome :
      (es : List (Value F)) (r : List (Value F) × List (Value F))
      {s : List (Value F) × List (Value F)}
      → filter_entries fl es r ≡ ok s
      → All IsKnown r.0
      → All IsKnown s.0 × All (IsKept s.0 s.1) es
  unfolding filter_entries
  filter_entries-outcome [] r h k = (subst (λ x. All IsKnown x.0) (ok-injective h) k, tt)
  filter_entries-outcome (x ∷ es) r h k =
      let (b, q, rest) = bind_ok (in_registry (canonical_of_entry x)) _ h in
      let (known, kept) =
        filter_entries-outcome es (sort_entry fl b x r) rest (sort_entry-IsKnown b x r q k) in
      (known, (filter_entries-IsKept es (sort_entry fl b x r) rest x (own_entry b x r), kept))

  module _ (dumps : PromptPayload fl → String) (loads : String → Option (Value F))
      (generate : String → Result AssistError String) where
    -- A response that was read has the required structure.
    read-structured :
        (o : Option (Value F)) (p : Proposal fl)
        → read fl dumps loads generate o ≡ ok p
        → (es : Entries F) × (o ≡ some (dict es))
          × (validate_candidate_structure (dict es) ≡ true)
          × (filter_hallucinated_fields fl (entries es) ≡ ok p)
    read-structured none p h = absurd (err-ok h)
    read-structured (some null) p h = absurd (err-ok h)
    read-structured (some (bool b)) p h = absurd (err-ok h)
    read-structured (some (int n)) p h = absurd (err-ok h)
    read-structured (some (float x)) p h = absurd (err-ok h)
    read-structured (some (str s)) p h = absurd (err-ok h)
    read-structured (some (arr vs)) p h = absurd (err-ok h)
    read-structured (some (dict es)) p h =
        elim (Bool-cases (validate_candidate_structure (dict es))) [
          | inl good ↦ (es, refl, good, rw good at h)
          | inr bad ↦ absurd (err-ok (rw bad at h))
        ]

    -- What a returned proposal shows of the response.
    abbrev pub Outcome : String → String → List (Value F) → String → Proposal fl → Type 0
    Outcome candidate_id source_format unmapped log_sample p =
        (response : String) × (es : Entries F) × (generate (
            build_structured_prompt fl dumps loads generate candidate_id source_format unmapped
              log_sample)
          ≡ ok response)
        × (loads response ≡ some (dict es))
        × (validate_candidate_structure (dict es) ≡ true)
        × All IsKnown p.mapped_fields
        × All (IsKept p.mapped_fields p.unmapped_fields)
            (list_of (get (entries es) "mapped_fields"))

    -- If a proposal is returned, the provider answered the structured prompt with a response that
    -- reads as a dict of the required structure, every mapped target of the proposal is in the
    -- registry, and every mapped entry of that response is still mapped or has its raw field, if that
    -- is not empty, among the unmapped ones.
    pub propose_mappings_outcome :
        (candidate_id source_format : String) (unmapped : List (Value F)) (log_sample : String)
        (p : Proposal fl)
        → propose_mappings fl dumps loads generate candidate_id source_format unmapped log_sample
          ≡ ok p
        → Outcome candidate_id source_format unmapped log_sample p
    unfolding propose_mappings filter_hallucinated_fields
    propose_mappings_outcome candidate_id source_format unmapped log_sample p h =
        let (response, answered, h1) = bind_ok (generate _) _ h in
        let (es, read, good, h2) = read-structured (loads response) p h1 in
        let (r, filtered, h3) =
          bind_ok
            (filter_entries fl (list_of (get (entries es) "mapped_fields"))
              ([], list_of (get (entries es) "unmapped_fields")))
            _ h2 in
        let (known, kept) = filter_entries-outcome _ _ filtered tt in
        let q = ok-injective h3 in
        (
          response,
          es,
          answered,
          read,
          good,
          subst (λ (x : Proposal fl). All IsKnown x.mapped_fields) q known,
          subst
              (λ (x : Proposal fl).
                All (IsKept x.mapped_fields x.unmapped_fields)
                  (list_of (get (entries es) "mapped_fields")))
              q kept,
        )
