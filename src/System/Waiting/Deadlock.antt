-- ===== src/System/Waiting/Deadlock.antt =====
-- A client that leaves while a delivery waits for room in its channel.
use sse_gateway.Prelude.{
  ℕ, ◌≡◌, ◌≢◌, inl, refl, sym, ap, ◌∙◌, subst, Text, some, false, List, [], ◌∷◌, ◌++◌, All, All-put,
  Any, Any-there,
}
use sse_gateway.Extern.Json.{Json}
use sse_gateway.Extern.DashMap.{DashMap}
use sse_gateway.Extern.Mpsc.{Mpsc}
use sse_gateway.Extern.Room.{Room}
use sse_gateway.Event.{SseEvent}
use sse_gateway.Connection.{SseConnection}
use sse_gateway.Manager.{channel_ids}
use sse_gateway.System.Waiting.{
  in_task, polled, dropping, Sending, Stream, Tables, start_sending, look_up, finish_send, Move,
  started, looked_up, sent, read, left, Moves, here, next,
}
use sse_gateway.System.Waiting.Stuck.{WaitsFor, IsDropping, IsAlone, IsStuck}
use sse_gateway.System.Waiting.Endless.{Moves-IsStuck}

module _ (shard : Text → ℕ) ⦃J : Json⦄ ⦃D : DashMap⦄ ⦃M : Mpsc SseEvent⦄ ⦃R : Room SseEvent⦄
    (s : Tables) (sends : List Sending) (x : Sending) (sends' : List Sending)
    (streams : List Stream) (y : Stream) (streams' : List Stream) (conn : SseConnection) where
  abbrev pub leaving : Tables
  leaving = record s { streams = streams ++ record y { phase = dropping } ∷ streams' }

  others-IsAlone :
      (l : List Stream)
      → All (λ (z : Stream). z.receiver ≢ y.receiver) l
      → All (IsAlone y.id y.receiver) l
  others-IsAlone [] h = tt
  others-IsAlone (z ∷ l) h = ((λ p. absurd (h.0 p)), others-IsAlone l h.1)

  pub leaving_deadlocks :
      {t : Tables}
      → s.sends ≡ sends ++ x ∷ sends'
      → x.caller ≡ in_task
      → x.held ≡ some (y.id, conn)
      → conn.sender ≡ y.receiver
      → s.streams ≡ streams ++ y ∷ streams'
      → y.phase ≡ polled
      → All (λ (z : Stream). z.receiver ≢ y.receiver) (streams ++ streams')
      → M.IsMade s.wires y.receiver
      → R.has_room y.receiver s.wires ≡ false
      → M.is_closed y.receiver s.wires ≡ false
      → Moves shard leaving t
      → Move shard s leaving
        × Any (WaitsFor y.id y.receiver) t.sends
        × Any (IsDropping y.id y.receiver) t.streams
        × (M.is_closed y.receiver t.wires ≡ false)
  leaving_deadlocks e task there its f p others made full open_ r =
      let gone : Stream = record y { phase = dropping } in
      let start : IsStuck y.id y.receiver leaving = record {
        waits =
            subst (Any (WaitsFor y.id y.receiver)) (sym e)
              (Any-there (WaitsFor y.id y.receiver) sends x sends' (conn, task, there, its));
        drops = Any-there (IsDropping y.id y.receiver) streams gone streams' (refl, refl, refl);
        alone =
            All-put (IsAlone y.id y.receiver) streams gone streams' (λ q. (refl, refl, refl))
              (others-IsAlone (streams ++ streams') others);
        made = made;
        full = full;
        open_ = open_;
      } in
      let h = Moves-IsStuck shard y.id y.receiver r start in
      (left streams y streams' f p, h.waits, h.drops, h.open_)

  -- the client reads, and then the send has a slot
  pub after_read : Tables
  after_read = record s { wires = R.recv y.receiver s.wires }

  pub reading_releases :
      s.sends ≡ sends ++ x ∷ sends'
      → x.held ≡ some (y.id, conn)
      → conn.sender ≡ y.receiver
      → s.streams ≡ streams ++ y ∷ streams'
      → y.phase ≡ polled
      → M.IsMade s.wires y.receiver
      → Moves shard s (finish_send sends x sends' conn after_read)
  unfolding after_read
  reading_releases e there its f p made = next (next here (read streams y streams' f p)) (
      sent sends x sends' y.id conn e there (
        inl (
          ap (λ t. R.has_room t (R.recv y.receiver s.wires)) its
          ∙ R.has_room-recv_self y.receiver s.wires made)))

-- From a message on: the delivery comes to the client first.
module _ (shard : Text → ℕ) ⦃J : Json⦄ ⦃D : DashMap⦄ ⦃M : Mpsc SseEvent⦄ ⦃R : Room SseEvent⦄
    (s : Tables) (streams : List Stream) (y : Stream) (streams' : List Stream)
    (conn : SseConnection) (channel_id : Text) (event : SseEvent) (ids : List Text) where
  abbrev waiting : Sending
  waiting = record {
    caller = in_task;
    todo = ids;
    held = some (y.id, conn);
    event = event;
    count = 0;
  }

  abbrev pub abandoned : Tables
  abandoned = record s {
    sends = s.sends ++ waiting ∷ [];
    streams = streams ++ record y { phase = dropping } ∷ streams';
  }

  -- A channel lists first the id of a connection whose channel is full and not closed, and one
  -- stream, which is being polled, has its receiver. Then a task of the dispatcher can send a
  -- message to the channel and the client can leave, and in every state that moves lead to from
  -- there some send of a task still waits for room for that client and still holds the guard on
  -- its entry, its stream is still being dropped and not yet cleaned up, and its receiver is not
  -- closed.
  pub full_client_deadlocks :
      channel_ids channel_id s.manager ≡ y.id ∷ ids
      → D.get y.id s.manager.connections ≡ some conn
      → conn.sender ≡ y.receiver
      → s.streams ≡ streams ++ y ∷ streams'
      → y.phase ≡ polled
      → All (λ (z : Stream). z.receiver ≢ y.receiver) (streams ++ streams')
      → M.IsMade s.wires y.receiver
      → R.has_room y.receiver s.wires ≡ false
      → M.is_closed y.receiver s.wires ≡ false
      → Moves shard s abandoned
        × ((t : Tables)
            → Moves shard abandoned t
            → Any (WaitsFor y.id y.receiver) t.sends
              × Any (IsDropping y.id y.receiver) t.streams
              × (M.is_closed y.receiver t.wires ≡ false))
  unfolding start_sending look_up
  full_client_deadlocks in_channel there its f p others made full open_ =
      let s1 : Tables = record s {
        sends = s.sends ++ start_sending in_task channel_id event s.manager ∷ [];
      } in
      let s2 : Tables = record s { sends = s.sends ++ waiting ∷ [] } in
      let looked : Move shard s1 (record s1 {
        sends =
            s.sends
            ++ look_up y.id ids s.manager (start_sending in_task channel_id event s.manager) ∷ [];
      }) =
        looked_up s.sends (start_sending in_task channel_id event s.manager) [] y.id ids refl refl
          in_channel in
      let found : look_up y.id ids s.manager (start_sending in_task channel_id event s.manager)
          ≡ waiting =
        rw (there, look_up) in
      let m2 : Move shard s1 s2 =
        subst (λ x. Move shard s1 (record s { sends = s.sends ++ x ∷ [] })) found looked in
      (
        next (next (next here (started in_task channel_id event)) m2) (left streams y streams' f p),
        λ t r.
            let (_, waits, drops, still) =
              leaving_deadlocks shard s2 s.sends waiting [] streams y streams' conn refl refl refl
                its f p others made full open_ r in
            (waits, drops, still),
      )
