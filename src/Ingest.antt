-- ===== src/Ingest.antt =====
-- scripts/cli.py: EventRingBuffer, the bounded buffer of ingested events. Each method holds the lock,
-- so calls are one after another; the clock's readings are arguments.
pub mod History
pub mod Ulid
use ulpx.Base.{
  ℕ, zero, suc, ◌+◌, ◌-◌, String, Bool, true, false, Option, none, some, List, [], ◌∷◌, ◌++◌, ◌==◌,
  length, drop, map, ltb, or_default, if◌then◌else◌,
}
use ulpx.Base.Int.{ℤ}
use ulpx.Base.Floats.{Floats, one_float, max}

-- What the buffer reads of an event, and the event's JSON text.
pub record IngestEvent : Type 0 where
  pub raw_length_bytes : Option ℕ
  pub ingest_status : Option String
  pub text : String

-- `collections.deque(maxlen=capacity)`: an append to a full deque drops the first item.
unfoldable pub push_bounded {ℓ} : {A : Type ℓ} → ℕ → List A → A → List A
push_bounded capacity items x =
    let longer = items ++ x ∷ [] in if ltb capacity (length longer) then drop 1 longer else longer

abbrev pub is_quarantined : IngestEvent → Bool
is_quarantined e = or_default e.ingest_status "" == "QUARANTINED"

module _ (fl : Floats) (str_bytes : IngestEvent → ℕ) where
  open fl use {F}

  pub record EventRingBuffer : Type 0 where
    pub capacity : ℕ
    pub buffer : List IngestEvent
    pub total_ingested : ℕ
    pub bytes_ingested : ℕ
    pub quarantined : ℕ
    pub start_time : F

  abbrev pub new_buffer : ℕ → F → EventRingBuffer
  new_buffer capacity now = record {
    capacity = capacity;
    buffer = [];
    total_ingested = 0;
    bytes_ingested = 0;
    quarantined = 0;
    start_time = now;
  }

  -- `event.get("raw_length_bytes", len(str(event).encode("utf-8")))`
  abbrev pub byte_length : IngestEvent → ℕ
  byte_length e = or_default e.raw_length_bytes (str_bytes e)

  unfoldable pub append : IngestEvent → EventRingBuffer → EventRingBuffer
  unfolding push_bounded
  append e b = record {
    capacity = b.capacity;
    buffer = push_bounded b.capacity b.buffer e;
    total_ingested = b.total_ingested + 1;
    bytes_ingested = b.bytes_ingested + byte_length e;
    quarantined = if is_quarantined e then b.quarantined + 1 else b.quarantined;
    start_time = b.start_time;
  }

  -- The last items, as a slice from the end; all of them for a limit that is not positive.
  unfoldable pub get_recent : ℤ → EventRingBuffer → List IngestEvent
  get_recent (ℤ.pos zero) b = b.buffer
  get_recent (ℤ.pos (suc n)) b = drop (length b.buffer - suc n) b.buffer
  get_recent (ℤ.negsuc n) b = b.buffer

  -- The lines that a snapshot writes, and their number.
  unfoldable pub snapshot : EventRingBuffer → List String × ℕ
  snapshot b = (map (λ e. e.text) b.buffer, length b.buffer)

  unfoldable pub clear : EventRingBuffer → EventRingBuffer
  clear b = record {
    capacity = b.capacity;
    buffer = [];
    total_ingested = b.total_ingested;
    bytes_ingested = b.bytes_ingested;
    quarantined = b.quarantined;
    start_time = b.start_time;
  }

  pub record BufferStats : Type 0 where
    pub events_received : ℕ
    pub bytes_ingested : ℕ
    pub quarantined : ℕ
    pub ring_buffer_count : ℕ
    pub ring_buffer_capacity : ℕ
    pub eps_rate : F
    pub dps_ratio : F

  unfoldable pub stats : F → EventRingBuffer → BufferStats
  stats now b =
      let elapsed = max fl (one_float fl) (fl.sub now b.start_time) in
      record {
        events_received = b.total_ingested;
        bytes_ingested = b.bytes_ingested;
        quarantined = b.quarantined;
        ring_buffer_count = length b.buffer;
        ring_buffer_capacity = b.capacity;
        eps_rate = fl.round (fl.div (fl.ratio b.total_ingested 1) elapsed) 2;
        dps_ratio = one_float fl;
      }

  -- The calls that change the buffer, in their order.
  pub data Call : Type 0 where
    append_event : IngestEvent → Call
    clear_events : Call

  abbrev pub call_step : Call → EventRingBuffer → EventRingBuffer
  call_step (append_event e) b = append e b
  call_step clear_events b = clear b

  unfoldable pub run_calls : List Call → EventRingBuffer → EventRingBuffer
  unfolding append clear
  run_calls [] b = b
  run_calls (c ∷ cs) b = run_calls cs (call_step c b)
