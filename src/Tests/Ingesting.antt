-- ===== src/Tests/Ingesting.antt =====
-- A buffer of two events, and an id.
use ulpx.Base.{
  ℕ, ◌<◌, String, ◌≡◌, refl, none, some, List, [], ◌∷◌, ◌++◌, ok, map, length, All, arith,
}
use ulpx.Base.Int.{ℤ}
use ulpx.Base.Floats.Fixed.{fixed}
use ulpx.Ingest.{
  IngestEvent, new_buffer, Call, append_event, clear_events, run_calls, append, push_bounded,
  get_recent,
}
use ulpx.Ingest.History.{Reflects, appended, since_clear, run_calls_history}
use ulpx.Ingest.Ulid.{
  generate_contract_ulid, encode, time_places, group, read_places, generate_contract_ulid_outcome,
}

abbrev str_bytes : IngestEvent → ℕ
str_bytes e = 100

abbrev event : String → IngestEvent
event text = record { raw_length_bytes = none; ingest_status = some "ACCEPTED"; text = text }

abbrev calls : List (Call fixed str_bytes)
calls =
    append_event (event "a")
    ∷ clear_events
    ∷ append_event (event "b")
    ∷ append_event (event "c")
    ∷ append_event (event "d")
    ∷ []

run_calls_history_example :
    Reflects fixed str_bytes 2
      (appended calls)
      (since_clear [] calls)
      (run_calls fixed str_bytes calls (new_buffer fixed str_bytes 2 (fixed.ratio 0 1)))
run_calls_history_example = run_calls_history fixed str_bytes 2 (fixed.ratio 0 1) calls

newest :
    get_recent fixed str_bytes
      (ℤ.pos 1)
      (run_calls fixed str_bytes calls (new_buffer fixed str_bytes 2 (fixed.ratio 0 1)))
    ≡ event "d" ∷ []
unfolding run_calls append push_bounded get_recent
newest = refl

abbrev choices : List ℕ
choices = 1 ∷ 2 ∷ 3 ∷ 4 ∷ 5 ∷ 6 ∷ 7 ∷ 8 ∷ 9 ∷ 10 ∷ 11 ∷ 12 ∷ 13 ∷ 14 ∷ 15 ∷ 31 ∷ []

generate_contract_ulid_outcome_example :
    (generate_contract_ulid 1790000000000 choices
      ≡ ok (map encode (time_places 1790000000000 ++ choices)))
    × (length (map encode (time_places 1790000000000 ++ choices)) ≡ 26)
    × (group 1790000000000 9 < 8)
    × All (λ n. n < 32) (time_places 1790000000000)
    × (read_places (time_places 1790000000000) 0 ≡ 1790000000000)
generate_contract_ulid_outcome_example =
    generate_contract_ulid_outcome 1790000000000 choices (omega arith) refl
