-- ===== src/Tests/Reads.antt =====
-- A stream with a replay, an event and a heartbeat.
use sse_gateway.Prelude.{
  ◌≡◌, refl, codes, text_dec, ◌==◌, if◌then◌else◌, Option, none, some, Bool, true, false, List, [],
  ◌∷◌, ◌++◌, map, retain,
}
use sse_gateway.Extern.Samples.{
  text_json, assoc_map, queues, fields_frame, Queues, queue_send, without,
}
use sse_gateway.Extern.Samples.Listeners.{subscribers}
use sse_gateway.Std.Decimal.{ℤ, pos}
use sse_gateway.Manager
use sse_gateway.Manager.{register}
use sse_gateway.Event.{SseEvent, message}
use sse_gateway.Source.{ConnectionInfo}
use sse_gateway.Storage.Memory.{get_messages_after, after_entries, store, new, trim_old}
use sse_gateway.Handler.{sse_event_to_axum}
use sse_gateway.Session.{ConnectRequest, start_stream}
use sse_gateway.Session.Stream.{read}
use sse_gateway.Session.Stream.Read.{is_event, take, events_among_heartbeats}
use sse_gateway.Tests.Fixtures.{hello, wires}
use sse_gateway.Tests.Sessions.{world, visitor}

abbrev info : ConnectionInfo
info = record { channel_id = codes "room"; connection_id = codes "a"; instance_id = codes "gw-1" }

-- the heartbeats are asked first; one of them was lost
abbrev turns : List Bool
turns = false ∷ true ∷ false ∷ []

abbrev beats : List (Option ℤ)
beats = none ∷ some (pos 1) ∷ some (pos 2) ∷ []

-- a client that saw the first of the two stored events
abbrev returning : ConnectRequest
returning = record visitor {
  headers = λ name. if name == codes "last-event-id" then some (codes "1-0") else none;
}

-- "hello" is in the queue of "a"
abbrev now : Queues SseEvent
now = (queue_send 0 hello wires).1

events_among_heartbeats_example :
    let stream = start_stream returning info 0 world in
    retain is_event (read (λ ts. codes "ts") turns beats stream now)
    ≡ stream.replay ++ take 1 (map sse_event_to_axum (hello ∷ []))
unfolding register Manager.new message without text_dec get_messages_after after_entries store new
    trim_old
events_among_heartbeats_example =
    events_among_heartbeats (λ ts. codes "ts") refl (λ ts. refl) turns beats returning info 0 world
      now ((refl, refl, refl, refl), tt) ((refl, refl, refl, refl), tt)
