-- ===== src/Storage/Memory.antt =====
-- `MemoryStorage` of storage.rs: for each channel the newest events with their stream ids.
pub mod Window
pub mod Replay
pub mod Ids
use mathlib.Core.Option
use sse_gateway.Prelude.{
  ℕ, ◌+◌, ◌-◌, ◌%◌, ◌^◌, Text, codes, ◌==◌, Option, none, some, Bool, true, false, List, [], ◌∷◌,
  ◌++◌, length, drop, ltb, if◌then◌else◌,
}
use sse_gateway.Extern.Json.{Json}
use sse_gateway.Extern.DashMap.{DashMap}
use sse_gateway.Event.{SseEvent}
use sse_gateway.Std.Decimal.{ℤ, show, show_i64}
use sse_gateway.Storage.Trait.{MessageStorage}

module _ ⦃J : Json⦄ where
  abbrev pub Entry : Type 0
  Entry = Text × SseEvent

pub record MemoryStorage ⦃J : Json⦄ ⦃D : DashMap⦄ : Type 0 where
  pub streams : D.Map (List Entry)
  pub counter : ℕ
  pub max_per_channel : ℕ

-- `format!("{}-{}", ts, seq)`
unfoldable pub stream_id_text : ℤ → ℕ → Text
stream_id_text ts seq = show_i64 ts ++ b'-' ∷ show seq

-- `if v.len() > max { v.drain(0..v.len() - max) }`
unfoldable pub trim_old {ℓ} : {A : Type ℓ} → ℕ → List A → List A
trim_old max v = if ltb max (length v) then drop (length v - max) v else v

module _ ⦃J : Json⦄ where
  -- The `filter_map` with its flag `found`.
  unfoldable pub after_entries : Bool → Text → List Entry → List SseEvent
  after_entries found after_id [] = []
  after_entries true after_id ((id, event) ∷ entries) = event ∷ after_entries true after_id entries
  after_entries false after_id ((id, event) ∷ entries) =
      after_entries (if id == after_id then true else false) after_id entries

module _ ⦃J : Json⦄ ⦃D : DashMap⦄ where
  unfoldable pub new : ℕ → MemoryStorage
  new max_per_channel = record { streams = D.empty; counter = 0; max_per_channel = max_per_channel }

  -- `Default`
  unfoldable pub default : MemoryStorage
  unfolding new
  default = new 100

  -- `fetch_add` on an `AtomicU64` wraps around.
  unfoldable pub generate_id : ℤ → MemoryStorage → Text × MemoryStorage
  generate_id ts s = (stream_id_text ts s.counter, record s { counter = (s.counter + 1) % 2 ^ 64 })

  unfoldable pub store : Text → Text → SseEvent → MemoryStorage → MemoryStorage
  store channel_id stream_id event s = record s {
    streams =
        let stored_event = record event { stream_id = some stream_id } in
        D.alter channel_id (trim_old s.max_per_channel)
          (D.entry_or channel_id [] (λ v. v ++ (stream_id, stored_event) ∷ []) s.streams);
  }

  unfoldable pub get_messages_after : Text → Option Text → MemoryStorage → List SseEvent
  get_messages_after channel_id none s = []
  get_messages_after channel_id (some after_id) s = elim (D.get channel_id s.streams) [
    | none ↦ []
    | some entries ↦ after_entries false after_id entries
  ]

  abbrev pub memory_storage : MessageStorage
  memory_storage = record {
    State = MemoryStorage;
    generate_id = generate_id;
    store = store;
    get_messages_after = get_messages_after;
    is_available = λ s. true;
    name = codes "Memory";
  }
