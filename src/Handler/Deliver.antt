-- ===== src/Handler/Deliver.antt =====
-- What a message to a channel does: the live clients and the storage get the same event.
use sse_gateway.Prelude.{
  ℕ, ◌+◌, ◌<◌, ◌≡◌, refl, ap, ◌∙◌, Text, ◌==◌, ==_refl, some, false, not, ◌&&◌, List, [], ◌∷◌, ◌++◌,
  length, keys, contains, if◌then◌else◌,
}
use sse_gateway.Extern.Json.{Json}
use sse_gateway.Extern.DashMap.{DashMap}
use sse_gateway.Extern.Mpsc.{Mpsc}
use sse_gateway.Std.Decimal.{ℤ}
use sse_gateway.Event.{SseEvent, with_stream_id}
use sse_gateway.Connection.{SseConnection}
use sse_gateway.Manager.Index.{IsIndexed}
use sse_gateway.Manager.Senders.{IsWired}
use sse_gateway.Manager.Delivery.{accepted-send_to_channel}
use sse_gateway.Storage.Trait.{MessageStorage, StoreCall}
use sse_gateway.Storage.Memory.{Entry, memory_storage, generate_id, stream_id_text}
use sse_gateway.Storage.Memory.Window.{stream}
use sse_gateway.Storage.Memory.Replay.{events, replay-store}
use sse_gateway.Storage.Memory.Ids.{stream_id_present}
use sse_gateway.Handler.{World, deliver, run_task, stamp}

module _ ⦃J : Json⦄ ⦃D : DashMap⦄ ⦃M : Mpsc SseEvent⦄ {S : MessageStorage} {E : Type 0} where
  module _ (ts : ℤ) (c : Text) (event : SseEvent) (world : World S E) where
    -- the event as `deliver` sends it
    abbrev pub sent_event : SseEvent
    sent_event = stamp (S.generate_id ts world.storage).0 event

    -- In a manager with consistent index and channels, a delivery gives the event once to each
    -- registered connection of the channel whose receiver is there, and to no other registered
    -- connection; the task that it leaves stores that same event under the same id.
    pub deliver_lem :
        (id : Text) (conn : SseConnection)
        → IsIndexed world.manager
        → IsWired world.manager world.wires
        → D.get id world.manager.connections ≡ some conn
        → (M.accepted conn.sender (deliver ts c event world).1.wires ≡ (
            if conn.channel_id == c && not (M.is_closed conn.sender world.wires)
            then M.accepted conn.sender world.wires ++ sent_event ∷ []
            else M.accepted conn.sender world.wires))
          × ((deliver ts c event world).1.tasks
              ≡ world.tasks
                ++ (record {
                  channel_id = c;
                  stream_id = (S.generate_id ts world.storage).0;
                  event = sent_event;
                })
                  ∷ [])
    unfolding deliver
    deliver_lem id conn i h g =
        (accepted-send_to_channel c sent_event world.manager world.wires id conn i h g, refl)

module _ ⦃J : Json⦄ where
  -- `store` sets the stream id that the event already has
  stamped_again :
      (ts : ℤ) (a : ℕ) (event : SseEvent)
      → let id = stream_id_text ts a in
        record (stamp id event) { stream_id = some id } ≡ stamp id event
  unfolding stamp with_stream_id
  stamped_again ts a event = rw (stream_id_present ts a)

module _ ⦃J : Json⦄ ⦃D : DashMap⦄ ⦃M : Mpsc SseEvent⦄ {E : Type 0} where
  -- what a client gets if it reconnects with the id of its last event
  abbrev pub missed : Text → Text → World memory_storage E → List SseEvent
  missed c last world = memory_storage.get_messages_after c (some last) world.storage

  -- the replay after the store of a delivery
  pub missed-deliver :
      (ts : ℤ) (c : Text) (event : SseEvent) (world : World memory_storage E) (last : Text)
      (e : SseEvent) (before rest : List Entry)
      → stream c world.storage ≡ before ++ (last, e) ∷ rest
      → contains last (keys before) ≡ false
      → length rest + 1 < world.storage.max_per_channel
      → let call : StoreCall = record {
        channel_id = c;
        stream_id = (memory_storage.generate_id ts world.storage).0;
        event = sent_event ts c event world;
      } in
        missed c last (run_task call (deliver ts c event world).1)
        ≡ events rest ++ sent_event ts c event world ∷ []
  unfolding deliver run_task generate_id
  missed-deliver ts c event world last e before rest split fresh few =
      let s = (generate_id ts world.storage).1 in
      let id = stream_id_text ts world.storage.counter in
      let same : stream c s ≡ before ++ (last, e) ∷ rest = unfold stream in split in
      replay-store s c last e before rest id (stamp id event) same fresh few
      ∙ ap (λ x. events rest ++ x ∷ []) (stamped_again ts world.storage.counter event)

  -- With the memory storage, let a registered connection of the channel in a manager with
  -- consistent index and channels have a live client. Then a delivery leaves one more task, and
  -- gives the connection one event behind what it had. Once that task has run, a client whose last
  -- event id is in the channel's stream, with no earlier entry of that id and fewer than
  -- `max_per_channel - 1` entries behind it, is replayed what it missed before and then that very
  -- event.
  pub deliver_replays :
      (ts : ℤ) (c : Text) (event : SseEvent) (world : World memory_storage E) (id : Text)
      (conn : SseConnection) (last : Text) (e : SseEvent) (before rest : List Entry)
      → IsIndexed world.manager
      → IsWired world.manager world.wires
      → D.get id world.manager.connections ≡ some conn
      → conn.channel_id ≡ c
      → M.is_closed conn.sender world.wires ≡ false
      → stream c world.storage ≡ before ++ (last, e) ∷ rest
      → contains last (keys before) ≡ false
      → length rest + 1 < world.storage.max_per_channel
      → (call : StoreCall) × (seen : SseEvent) × ((deliver ts c event world).1.tasks
          ≡ world.tasks ++ call ∷ [])
        × (M.accepted conn.sender (deliver ts c event world).1.wires
            ≡ M.accepted conn.sender world.wires ++ seen ∷ [])
        × (missed c last (run_task call (deliver ts c event world).1) ≡ events rest ++ seen ∷ [])
  deliver_replays ts c event world id conn last e before rest i h g its live split fresh few =
      let (given, spawned) = deliver_lem ts c event world id conn i h g in
      (
        record {
          channel_id = c;
          stream_id = (memory_storage.generate_id ts world.storage).0;
          event = sent_event ts c event world;
        },
        sent_event ts c event world,
        spawned,
        given ∙ rw (its, ==_refl c, live),
        missed-deliver ts c event world last e before rest split fresh few,
      )
