-- ===== src/Ingest/History.antt =====
-- The ring buffer against the history of the calls.
use ulpx.Base.{
  ℕ, zero, suc, ◌+◌, ◌-◌, ◌≤◌, ◌≡◌, refl, sym, ap, ap₂, subst, ◌∙◌, Bool, true, false, List, [],
  ◌∷◌, ◌++◌, length, drop, length-append, length-drop, drop-append_of_le, drop-nil, count_if, arith,
  ltb, Bool-cases, inl, inr,
}
use ulpx.Base.Floats.{Floats}
use ulpx.Ingest.{
  IngestEvent, push_bounded, is_quarantined, EventRingBuffer, new_buffer, byte_length, append,
  clear, Call, append_event, clear_events, run_calls,
}

module _ {A : Type 0} where
  -- The last `n` items.
  abbrev pub last : ℕ → List A → List A
  last n xs = drop (length xs - n) xs

  drop_one : (n : ℕ) (xs : List A) → drop 1 (drop n xs) ≡ drop (suc n) xs
  drop_one zero xs = refl
  drop_one (suc n) [] = refl
  drop_one (suc n) (x ∷ xs) = drop_one n xs

  length-last : (n : ℕ) (xs : List A) → n ≤ length xs → length (last n xs) ≡ n
  length-last n xs h = omega (arith, length-drop (length xs - n) xs)

  append_nil : (xs : List A) → xs ++ [] ≡ xs
  append_nil [] = refl
  append_nil (x ∷ xs) = ap (λ r. x ∷ r) (append_nil xs)

  append_assoc : (xs ys zs : List A) → (xs ++ ys) ++ zs ≡ xs ++ (ys ++ zs)
  append_assoc [] ys zs = refl
  append_assoc (x ∷ xs) ys zs = ap (λ r. x ∷ r) (append_assoc xs ys zs)

  -- The bounded deque holds the last items of what was put in.
  push_bounded-last :
      (capacity : ℕ) (xs : List A) (x : A)
      → push_bounded capacity (last capacity xs) x ≡ last capacity (xs ++ x ∷ [])
  unfolding push_bounded
  push_bounded-last capacity xs x = elim (Bool-cases (ltb (length xs) capacity)) [
    | inl room ↦
        ap (λ n. push_bounded capacity (drop n xs) x) (none_lost room)
        ∙ rw (fits room) (ap (λ n. drop n (xs ++ x ∷ [])) (sym (none_left room)))
    | inr full ↦ rw (over full) (
        ap (drop 1) (sym (drop-append_of_le (length xs - capacity) xs (x ∷ []) (omega arith)))
        ∙ drop_one (length xs - capacity) (xs ++ x ∷ [])
        ∙ ap (λ n. drop n (xs ++ x ∷ [])) (one_more full))
  ]
    where
      size : length (xs ++ x ∷ []) ≡ length xs + 1
      size = length-append xs (x ∷ [])

      none_lost : ltb (length xs) capacity ≡ true → length xs - capacity ≡ 0
      none_lost room = ground arith

      none_left : ltb (length xs) capacity ≡ true → length (xs ++ x ∷ []) - capacity ≡ 0
      none_left room = ground (arith, size)

      fits : ltb (length xs) capacity ≡ true → ltb capacity (length (xs ++ x ∷ [])) ≡ false
      fits room = ground (arith, size)

      over :
          ltb (length xs) capacity ≡ false
          → ltb capacity (length (drop (length xs - capacity) xs ++ x ∷ [])) ≡ true
      over full = ground (
        arith,
        length-append (drop (length xs - capacity) xs) (x ∷ []),
        length-drop (length xs - capacity) xs,
      )

      one_more :
          ltb (length xs) capacity ≡ false
          → suc (length xs - capacity) ≡ length (xs ++ x ∷ []) - capacity
      one_more full = ground (arith, size)

-- The events that the calls append.
abbrev pub appended : {fl : Floats} → {sb : IngestEvent → ℕ} → List (Call fl sb) → List IngestEvent
appended [] = []
appended (append_event e ∷ cs) = e ∷ appended cs
appended (clear_events ∷ cs) = appended cs

-- Those since the last clearing, after earlier ones.
abbrev pub since_clear :
    {fl : Floats} → {sb : IngestEvent → ℕ} → List IngestEvent → List (Call fl sb) → List IngestEvent
since_clear h [] = h
since_clear h (append_event e ∷ cs) = since_clear (h ++ e ∷ []) cs
since_clear h (clear_events ∷ cs) = since_clear [] cs

module _ (fl : Floats) (str_bytes : IngestEvent → ℕ) where
  open fl use {F}

  abbrev pub total_bytes : List IngestEvent → ℕ
  total_bytes [] = 0
  total_bytes (e ∷ es) = byte_length fl str_bytes e + total_bytes es

  -- The buffer holds the last events of the history, and the counters all events.
  pub record Reflects (capacity : ℕ) (all history : List IngestEvent)
      (b : EventRingBuffer fl str_bytes) : Type 0 where
    pub bound : b.capacity ≡ capacity
    pub items : b.buffer ≡ last capacity history
    pub total : b.total_ingested ≡ length all
    pub bytes : b.bytes_ingested ≡ total_bytes all
    pub refused : b.quarantined ≡ count_if is_quarantined all

  total_bytes-append :
      (xs ys : List IngestEvent) → total_bytes (xs ++ ys) ≡ total_bytes xs + total_bytes ys
  total_bytes-append [] ys = omega arith
  total_bytes-append (x ∷ xs) ys = omega (arith, total_bytes-append xs ys)

  count_if-append :
      (p : IngestEvent → Bool) (xs ys : List IngestEvent)
      → count_if p (xs ++ ys) ≡ count_if p xs + count_if p ys
  count_if-append p [] ys = omega arith
  count_if-append p (x ∷ xs) ys = omega (arith, count_if-append p xs ys)

  append-Reflects :
      (capacity : ℕ) (all history : List IngestEvent) (e : IngestEvent)
      (b : EventRingBuffer fl str_bytes)
      → Reflects capacity all history b
      → Reflects capacity (all ++ e ∷ []) (history ++ e ∷ []) (append fl str_bytes e b)
  unfolding append
  append-Reflects capacity all history e b r = record {
    bound = r.bound;
    items =
        ap₂ (λ c xs. push_bounded c xs e) r.bound r.items ∙ push_bounded-last capacity history e;
    total = omega (arith, r.total, length-append all (e ∷ []));
    bytes = omega (arith, r.bytes, total_bytes-append all (e ∷ []));
    refused = ground (arith, r.refused, count_if-append is_quarantined all (e ∷ []));
  }

  clear-Reflects :
      (capacity : ℕ) (all history : List IngestEvent) (b : EventRingBuffer fl str_bytes)
      → Reflects capacity all history b
      → Reflects capacity all [] (clear fl str_bytes b)
  unfolding clear
  clear-Reflects capacity all history b r = record {
    bound = r.bound;
    items = sym (drop-nil (0 - capacity));
    total = r.total;
    bytes = r.bytes;
    refused = r.refused;
  }

  run_calls-Reflects :
      (capacity : ℕ) (all history : List IngestEvent) (cs : List (Call fl str_bytes))
      (b : EventRingBuffer fl str_bytes)
      → Reflects capacity all history b
      → Reflects capacity
          (all ++ appended cs)
          (since_clear history cs)
          (run_calls fl str_bytes cs b)
  unfolding run_calls
  run_calls-Reflects capacity all history [] b r =
      subst (λ xs. Reflects capacity xs history b) (sym (append_nil all)) r
  run_calls-Reflects capacity all history (append_event e ∷ cs) b r =
      subst
        (λ xs.
          Reflects capacity xs (since_clear (history ++ e ∷ []) cs)
            (run_calls fl str_bytes cs (append fl str_bytes e b)))
        (append_assoc all (e ∷ []) (appended cs))
        (run_calls-Reflects capacity (all ++ e ∷ []) (history ++ e ∷ []) cs _
          (append-Reflects capacity all history e b r))
  run_calls-Reflects capacity all history (clear_events ∷ cs) b r =
      run_calls-Reflects capacity all [] cs _ (clear-Reflects capacity all history b r)

  -- After any calls on an empty buffer, the buffer holds the last `capacity` events that were
  -- appended since the last clearing, and the counters count all events ever appended.
  pub run_calls_history :
      (capacity : ℕ) (now : F) (calls : List (Call fl str_bytes))
      → Reflects capacity
          (appended calls)
          (since_clear [] calls)
          (run_calls fl str_bytes calls (new_buffer fl str_bytes capacity now))
  run_calls_history capacity now calls = run_calls-Reflects capacity [] [] calls _ (record {
    bound = refl;
    items = sym (drop-nil (0 - capacity));
    total = refl;
    bytes = refl;
    refused = refl;
  })
