-- ===== src/Tests/Waiting.antt =====
-- A client with a full channel that leaves while a message waits for it.
use sse_gateway.Prelude.{ℕ, ◌≡◌, refl, Text, codes, text_dec, none, false, [], ◌∷◌, Any, arith}
use sse_gateway.Extern.Samples.{text_json, assoc_map, without}
use sse_gateway.Extern.Samples.Slots.{Slots, slots, rooms}
use sse_gateway.Extern.Mpsc.{Mpsc}
use sse_gateway.Extern.Room.{Room}
use sse_gateway.Event.{SseEvent, message}
use sse_gateway.Connection.{SseConnection, send}
use sse_gateway.Manager
use sse_gateway.Manager.{ConnectionManager, register}
use sse_gateway.System.Waiting.{Tables, Stream, polled, Moves}
use sse_gateway.System.Waiting.Stuck.{WaitsFor, IsDropping}
use sse_gateway.System.Waiting.Deadlock.{abandoned, full_client_deadlocks}

instance abbrev event_slots : Mpsc SseEvent
event_slots = slots

instance abbrev event_rooms : Room SseEvent
event_rooms = rooms

abbrev hello : SseEvent
hello = message (codes "u") (codes "hello")

-- one shard for all keys
abbrev shard : Text → ℕ
shard key = 0

abbrev nothing : Slots SseEvent
nothing = record {
  queues = record { next = 0; closed = λ s. false; queue = λ s. [] };
  taken = λ s. false;
}

abbrev joined : SseConnection × ℕ × ConnectionManager × Slots SseEvent
joined = register (codes "a") 1000 (codes "room") none none (Manager.new (codes "gw-1")) nothing

abbrev a_stream : Stream
a_stream = record { id = codes "a"; receiver = 0; phase = polled }

-- the only slot of "a" is taken
abbrev full_state : Tables
full_state = record {
  manager = joined.2;
  wires = (send joined.0 hello joined.3).1;
  sends = [];
  streams = a_stream ∷ [];
}

abbrev left_alone : Tables
left_alone = abandoned shard full_state [] a_stream [] joined.0 (codes "room") hello []

full_client_deadlocks_example :
    Moves shard full_state left_alone
    × ((t : Tables)
        → Moves shard left_alone t
        → Any (WaitsFor (codes "a") 0) t.sends
          × Any (IsDropping (codes "a") 0) t.streams
          × (t.wires.queues.closed 0 ≡ false))
unfolding register Manager.new without text_dec Manager.channel_ids
full_client_deadlocks_example =
    full_client_deadlocks shard full_state [] a_stream [] joined.0 (codes "room") hello [] refl refl
      refl refl refl tt (omega arith) refl refl
