-- ===== src/System/Race.antt =====
-- A client connects while the store of a message is pending.
use sse_gateway.Prelude.{
  ℕ, ◌<◌, ◌≡◌, ap, ◌∙◌, Text, codes, some, false, List, [], ◌∷◌, ◌++◌, map, keys, contains, arith,
}
use sse_gateway.Extern.Json.{Json}
use sse_gateway.Extern.DashMap.{DashMap}
use sse_gateway.Extern.Mpsc.{Mpsc}
use sse_gateway.Extern.SseFrame.{SseFrame}
use sse_gateway.Std.Decimal.{ℤ}
use sse_gateway.Event.{SseEvent}
use sse_gateway.Manager.{register}
use sse_gateway.Storage.Memory.{
  Entry, memory_storage, generate_id, get_messages_after, after_entries,
}
use sse_gateway.Storage.Memory.Window.{stream}
use sse_gateway.Storage.Memory.Replay.{messages_from_stream, after_entries_at}
use sse_gateway.Handler.{World, Callbacks, deliver, run_task, sse_event_to_axum}
use sse_gateway.Handler.Deliver.{sent_event, missed, missed-deliver}
use sse_gateway.Session.{ConnectRequest, open_session, start_stream, SseStream}
use sse_gateway.Session.Output.{output}

module _ ⦃J : Json⦄ ⦃D : DashMap⦄ ⦃M : Mpsc SseEvent⦄ ⦃F : SseFrame⦄ {Response E : Type 0} (ts : ℤ)
    (event : SseEvent) (uuid : Text) (now : ℕ) (r : ConnectRequest) (k : Callbacks Response E)
    (world : World memory_storage E) where
  -- the message is delivered,
  abbrev delivered : World memory_storage E
  delivered = (deliver ts r.channel_id event world).1

  -- then the client is registered and its stream begins,
  abbrev joined : World memory_storage E
  joined = (open_session uuid now r k delivered).2

  abbrev pub late_stream : SseStream
  late_stream =
      let (info, receiver, w) = open_session uuid now r k delivered in
      start_stream r info receiver w

  -- and then the store of the message runs.
  abbrev pub settled : World memory_storage E
  settled =
      run_task
        (record {
          channel_id = r.channel_id;
          stream_id = (memory_storage.generate_id ts world.storage).0;
          event = sent_event ts r.channel_id event world;
        })
        joined

  -- With the memory storage, a message is delivered; then a client connects, whose last event is
  -- the newest in the stream of the channel and occurs there once, and then the store of the
  -- message runs. The client's output is empty, although a replay after that same event would now
  -- give the message. The window holds two events at least.
  pub message_missed :
      (last : Text) (e : SseEvent) (before : List Entry)
      → r.headers (codes "last-event-id") ≡ some last
      → stream r.channel_id world.storage ≡ before ++ (last, e) ∷ []
      → contains last (keys before) ≡ false
      → 1 < world.storage.max_per_channel
      → (output late_stream settled.wires ≡ [])
        × (missed r.channel_id last settled ≡ sent_event ts r.channel_id event world ∷ [])
  unfolding open_session start_stream run_task deliver register generate_id
  message_missed last e before asked split once room =
      let s = (generate_id ts world.storage).1 in
      let same : stream r.channel_id s ≡ before ++ (last, e) ∷ [] = unfold stream in split in
      let nothing : get_messages_after r.channel_id (some last) s ≡ [] =
        messages_from_stream r.channel_id last s
        ∙ ap (λ l. after_entries false last l) same
        ∙ after_entries_at last e before [] once in
      let unread = M.accepted late_stream.receiver joined.wires in
      (
        ap
              (λ o.
                map sse_event_to_axum (get_messages_after r.channel_id o s)
                ++ map sse_event_to_axum unread)
              asked
            ∙ ap (λ l. map sse_event_to_axum l ++ map sse_event_to_axum unread) nothing
            ∙ ap (map sse_event_to_axum) (M.channel_empty 100 delivered.wires),
        missed-deliver ts r.channel_id event world last e before [] split once (omega arith),
      )
