-- ===== src/Session/Output.antt =====
-- What a client reads: the replay, then what its channel accepts.
use mathlib.Core.List.{map-append}
use sse_gateway.Prelude.{
  ◌≡◌, Text, ◌==◌, some, false, List, [], ◌∷◌, ◌++◌, map, append_assoc, if◌then◌else◌, Bool-cases,
  inl, inr,
}
use sse_gateway.Extern.Json.{Json}
use sse_gateway.Extern.DashMap.{DashMap}
use sse_gateway.Extern.Mpsc.{Mpsc}
use sse_gateway.Extern.SseFrame.{SseFrame}
use sse_gateway.Std.Decimal.{ℤ}
use sse_gateway.Event.{SseEvent}
use sse_gateway.Connection.{SseConnection}
use sse_gateway.Manager.Index.{IsIndexed}
use sse_gateway.Manager.Senders.{IsWired}
use sse_gateway.Storage.Trait.{MessageStorage}
use sse_gateway.Handler.{World, deliver, sse_event_to_axum}
use sse_gateway.Handler.Deliver.{deliver_lem, sent_event}
use sse_gateway.Session.{SseStream}

module _ ⦃J : Json⦄ ⦃D : DashMap⦄ ⦃M : Mpsc SseEvent⦄ ⦃F : SseFrame⦄ where
  -- `replay_stream.chain(realtime_stream)`, without the heartbeats
  abbrev pub output : SseStream → M.State → List F.Event
  output stream wires = stream.replay ++ map sse_event_to_axum (M.accepted stream.receiver wires)

  module _ {S : MessageStorage} {E : Type 0} (world : World S E) (stream : SseStream)
      (conn : SseConnection) where
    -- In a manager with consistent index and channels, and for a stream whose registered
    -- connection has its receiver: a message to the connection's channel comes at the end of what
    -- the client reads, once, and one to another channel leaves that as it was.
    output-deliver :
        (ts : ℤ) (c : Text) (event : SseEvent)
        → IsIndexed world.manager
        → IsWired world.manager world.wires
        → D.get stream.info.connection_id world.manager.connections ≡ some conn
        → conn.sender ≡ stream.receiver
        → M.is_closed conn.sender world.wires ≡ false
        → output stream (deliver ts c event world).1.wires ≡ (
            if conn.channel_id == c
            then output stream world.wires ++ sse_event_to_axum (sent_event ts c event world) ∷ []
            else output stream world.wires)
    output-deliver ts c event i h g same live =
        rw (← same, (deliver_lem ts c event world stream.info.connection_id conn i h g).0, live)
          (elim (Bool-cases (conn.channel_id == c)) [
            | inl e ↦ rw e (simp (map-append, append_assoc))
            | inr e ↦ rw e
          ])
