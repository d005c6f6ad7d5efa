-- ===== src/System/Reorder.antt =====
-- Two messages whose stores run in the other order.
use sse_gateway.Prelude.{
  ◌+◌, ◌^◌, ◌%◌, ◌<◌, ◌≡◌, ◌≢◌, refl, ap, ◌∙◌, Text, ==_refl, some, false, List, [], ◌∷◌, ◌++◌,
  keys, contains, contains-append, length, length-append, append-nil, append_assoc, arith,
}
use sse_gateway.Extern.Json.{Json}
use sse_gateway.Extern.DashMap.{DashMap}
use sse_gateway.Extern.Mpsc.{Mpsc}
use sse_gateway.Std.Decimal.{ℤ}
use sse_gateway.Event.{SseEvent}
use sse_gateway.Storage.Memory.{
  MemoryStorage, Entry, memory_storage, generate_id, store, after_entries,
}
use sse_gateway.Storage.Memory.Ids.{stream_id_ne}
use sse_gateway.Storage.Memory.Window.{stream, stream-store, newest_fits, max-store}
use sse_gateway.Storage.Memory.Replay.{messages_from_stream, after_entries_at}
use sse_gateway.Extern.SseFrame.{SseFrame}
use sse_gateway.Storage.Trait.{StoreCall}
use sse_gateway.Source.{IncomingMessage}
use sse_gateway.Handler.{World, Callbacks, deliver, run_task}
use sse_gateway.Gateway.{Arrival, message_event, handle, dispatch}
use sse_gateway.System.{System, Steps, dispatched, stored, here, next, run_stored}
use sse_gateway.Handler.Deliver.{sent_event, missed}

module _ ⦃J : Json⦄ ⦃D : DashMap⦄ where
  -- a store that the window has room for
  stream-store_fits :
      (c id : Text) (e : SseEvent) (s : MemoryStorage)
      → length (stream c s) < s.max_per_channel
      → stream c (store c id e s) ≡ stream c s ++ (id, record e { stream_id = some id }) ∷ []
  stream-store_fits c id e s room =
      let added = stream c s ++ (id, record e { stream_id = some id }) ∷ [] in
      stream-store c id e s c
      ∙ rw (==_refl c) (
          newest_fits s.max_per_channel added (
            omega
              (arith, length-append (stream c s) ((id, record e { stream_id = some id }) ∷ []))))

  keys-append : (l r : List Entry) → keys (l ++ r) ≡ keys l ++ keys r
  keys-append [] r = refl
  keys-append ((k, e) ∷ l) r = ap (λ t. k ∷ t) (keys-append l r)

  -- two stores of one channel
  stream-store_twice :
      (c id id' : Text) (e e' : SseEvent) (s : MemoryStorage)
      → length (stream c s) + 1 < s.max_per_channel
      → stream c (store c id' e' (store c id e s))
        ≡ (stream c s ++ (id, record e { stream_id = some id }) ∷ [])
          ++ (id', record e' { stream_id = some id' }) ∷ []
  stream-store_twice c id id' e e' s room =
      let first = stream-store_fits c id e s (omega arith) in
      let l : List Entry = (id, record e { stream_id = some id }) ∷ [] in
      stream-store_fits c id' e' (store c id e s)
        (rw (first, max-store c id e s) (omega (arith, length-append (stream c s) l)))
      ∙ ap (λ t. t ++ (id', record e' { stream_id = some id' }) ∷ []) first

module _ ⦃J : Json⦄ ⦃D : DashMap⦄ ⦃M : Mpsc SseEvent⦄ {E : Type 0} (c : Text) (ts ts' : ℤ)
    (event event' : SseEvent) (world : World memory_storage E) where
  -- the first message is delivered, then the second
  abbrev once : World memory_storage E
  once = (deliver ts c event world).1

  abbrev pub id : Text
  id = (memory_storage.generate_id ts world.storage).0

  abbrev pub id' : Text
  id' = (memory_storage.generate_id ts' once.storage).0

  -- but the second store runs first
  abbrev pub swapped : World memory_storage E
  swapped =
      run_task (record { channel_id = c; stream_id = id; event = sent_event ts c event world })
        (run_task (record { channel_id = c; stream_id = id'; event = sent_event ts' c event' once })
          (deliver ts' c event' once).1)

  -- what the two stores leave
  swapped_stores :
      length (stream c world.storage) + 1 < world.storage.max_per_channel
      → world.storage.counter + 1 < 2 ^ 64
      → contains id (keys (stream c world.storage)) ≡ false
      → (keys (stream c swapped.storage) ≡ keys (stream c world.storage) ++ id' ∷ id ∷ [])
        × (missed c id swapped ≡ [])
  unfolding deliver run_task generate_id stream store
  swapped_stores room fits fresh =
      let n = world.storage.counter in
      let s = (generate_id ts' (generate_id ts world.storage).1).1 in
      let before = stream c world.storage in
      let same : stream c s ≡ before = unfold stream in refl in
      let entry : Entry = (id, record (sent_event ts c event world) { stream_id = some id }) in
      let entry' : Entry = (id', record (sent_event ts' c event' once) { stream_id = some id' }) in
      let both : stream c (store c id entry.1 (store c id' entry'.1 s))
          ≡ (before ++ entry' ∷ []) ++ entry ∷ [] =
        stream-store_twice c id' id entry'.1 entry.1 s room in
      let differ : id ≢ id' =
        stream_id_ne ts ts' n ((n + 1) % 2 ^ 64) (omega arith) (omega arith) in
      let absent : contains id (keys (before ++ entry' ∷ [])) ≡ false =
        ap (contains id) (keys-append before (entry' ∷ []))
        ∙ contains-append id (keys before) (id' ∷ [])
        ∙ ground (arith, fresh, differ) in
      (
        ap keys both
            ∙ keys-append (before ++ entry' ∷ []) (entry ∷ [])
            ∙ ap (λ l. l ++ id ∷ []) (keys-append before (entry' ∷ []))
            ∙ append_assoc (keys before) (id' ∷ []) (id ∷ []),
        messages_from_stream c id _
            ∙ ap (after_entries false id) both
            ∙ after_entries_at id entry.1 (before ++ entry' ∷ []) [] absent,
      )

module _ ⦃J : Json⦄ ⦃D : DashMap⦄ ⦃M : Mpsc SseEvent⦄ ⦃F : SseFrame⦄ {Response E : Type 0}
    (k : Callbacks Response E) (c : Text) (a b : Arrival) (s : System memory_storage E) where
  abbrev to_channel : IncomingMessage → IncomingMessage
  to_channel m = record m { channel_id = some c }

  abbrev pub event_of : Arrival → SseEvent
  event_of x = message_event x.uuid (to_channel x.msg)

  -- the store of a message that is delivered
  abbrev store_of : Arrival → World memory_storage E → StoreCall
  store_of x world = record {
    channel_id = c;
    stream_id = (memory_storage.generate_id x.ts world.storage).0;
    event = sent_event x.ts c (event_of x) world;
  }

  abbrev after_one : World memory_storage E
  after_one = (handle a.uuid a.ts (to_channel a.msg) s.world).1

  abbrev after_two : World memory_storage E
  after_two = (handle b.uuid b.ts (to_channel b.msg) after_one).1

  -- the state after both messages and both stores, the second store first
  abbrev pub reordered : System memory_storage E
  reordered = record s {
    world = run_stored (store_of a s.world) (s.world.tasks ++ []) (
        run_stored (store_of b after_one) ((s.world.tasks ++ store_of a s.world ∷ []) ++ [])
          after_two);
  }

  reordering : Steps k s reordered
  unfolding handle dispatch deliver run_stored run_task
  reordering =
      next
        (next
          (next (next here (dispatched a.uuid a.ts (to_channel a.msg)))
            (dispatched b.uuid b.ts (to_channel b.msg)))
          (stored (s.world.tasks ++ store_of a s.world ∷ []) (store_of b after_one) [] refl))
        (stored s.world.tasks (store_of a s.world) [] (append-nil _))

  -- With the memory storage, let the window of a channel have room for two messages, the counter
  -- not wrap, and the first id be new to the stream. Then steps lead to a state where two messages
  -- were delivered to the channel and the store that the second left has run before that of the
  -- first. There both are stored, the second before the first, and a client whose last event is
  -- the first is replayed nothing.
  pub replay_out_of_order :
      length (stream c s.world.storage) + 1 < s.world.storage.max_per_channel
      → s.world.storage.counter + 1 < 2 ^ 64
      → contains
          (id c a.ts b.ts (event_of a) (event_of b) s.world)
          (keys (stream c s.world.storage))
        ≡ false
      → Steps k s reordered
        × (keys (stream c reordered.world.storage)
            ≡ keys (stream c s.world.storage)
              ++ id' c a.ts b.ts (event_of a) (event_of b) s.world
                ∷ id c a.ts b.ts (event_of a) (event_of b) s.world
                ∷ [])
        × (missed c (id c a.ts b.ts (event_of a) (event_of b) s.world) reordered.world ≡ [])
  unfolding handle dispatch deliver run_stored run_task
  replay_out_of_order room fits fresh =
      let (stored_so, nothing) =
        swapped_stores c a.ts b.ts (event_of a) (event_of b) s.world room fits fresh in
      (reordering, stored_so, nothing)
