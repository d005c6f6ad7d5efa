-- ===== src/System/Waiting/Endless.antt =====
-- No move ends it.
use sse_gateway.Prelude.{
  ℕ, ◌≢◌, refl, sym, ap, ◌∙◌, subst, Text, All-append, Any, Any-left, Any-without,
}
use sse_gateway.Extern.Json.{Json}
use sse_gateway.Extern.DashMap.{DashMap}
use sse_gateway.Extern.Mpsc.{Mpsc}
use sse_gateway.Extern.Room.{Room}
use sse_gateway.Event.{SseEvent}
use sse_gateway.Connection
use sse_gateway.Connection.{SseConnection}
use sse_gateway.Manager.{register}
use sse_gateway.System.Waiting.{
  given_up, polled, dropping, cleaned_up, Tables, open_stream, finish_send, Move, responded,
  aborted, opened, started, looked_up, sent, returned, read, left, unregistered, closed, cleaned,
  Moves, here, next,
}
use sse_gateway.Manager.{unregister}
use sse_gateway.System.Waiting.Stuck.{
  WaitsFor, IsDropping, IsAlone, IsStuck, not_waiting, not_ready, same_held, blocked, request_task,
  starting_dropping, polled_dropping, cleaned_dropping, other_receiver, send_changed, sends-IsStuck,
  stream-IsStuck, end-IsStuck,
}

module _ (shard : Text → ℕ) ⦃J : Json⦄ ⦃D : DashMap⦄ ⦃M : Mpsc SseEvent⦄ ⦃R : Room SseEvent⦄
    (id : Text) (receiver : M.Sender) where
  Move-IsStuck : {s t : Tables} → Move shard s t → IsStuck id receiver s → IsStuck id receiver t
  unfolding open_stream finish_send register Connection.new
  Move-IsStuck {s} (opened uuid now c ip agent free) h = record {
    waits = h.waits;
    drops = Any-left (IsDropping id receiver) s.streams _ h.drops;
    alone =
        All-append (IsAlone id receiver) s.streams _ h.alone
          ((λ p. absurd (M.channel_fresh 100 receiver s.wires h.made (sym p))), tt);
    made = M.channel_keeps 100 receiver s.wires h.made;
    full = R.has_room-channel receiver s.wires h.made ∙ h.full;
    open_ = M.is_closed-channel 100 receiver s.wires h.made ∙ h.open_;
  }
  Move-IsStuck {s} (started caller c event) h =
      sends-IsStuck id receiver s _ (Any-left (WaitsFor id receiver) s.sends _ h.waits) h
  Move-IsStuck {s} (looked_up before x after conn_id ids e n t) h =
      sends-IsStuck id receiver s _
        (send_changed id receiver before x _ after s e (not_waiting id receiver x n) h) h
  Move-IsStuck {s} (sent before x after key conn e there ready) h =
      let n = not_ready id receiver s conn.sender ready h in
      record {
        waits =
            send_changed id receiver before x _ after s e
              (λ (c, _, q, r). n (sym r ∙ ap (λ (a : SseConnection). a.sender) (same_held q there)))
              h;
        made = M.send_keeps receiver conn.sender x.event s.wires h.made;
        full = R.has_room-send_ne receiver conn.sender x.event s.wires n ∙ h.full;
        open_ = M.is_closed-send receiver conn.sender x.event s.wires ∙ h.open_;
        drops = h.drops;
        alone = h.alone;
      }
  Move-IsStuck {s} (returned before x after e n t) h =
      sends-IsStuck id receiver s _
        (Any-without (WaitsFor id receiver) before x after (not_waiting id receiver x n)
          (subst (Any (WaitsFor id receiver)) e h.waits))
        h
  Move-IsStuck {s} (given_up before x after e q) h =
      sends-IsStuck id receiver s _
        (Any-without (WaitsFor id receiver) before x after
          (λ (conn, in_a_task, _, _). request_task q in_a_task)
          (subst (Any (WaitsFor id receiver)) e h.waits))
        h
  Move-IsStuck {s} (responded before y after e p) h =
      let n = other_receiver id receiver before y after s e (starting_dropping p) h in
      stream-IsStuck id receiver before y (record y { phase = polled }) after s s.manager e n refl h
  Move-IsStuck {s} (aborted before y after e p) h =
      end-IsStuck id receiver before y after s e
        (other_receiver id receiver before y after s e (starting_dropping p) h) h
  Move-IsStuck {s} (read before y after e p) h =
      let n = other_receiver id receiver before y after s e (polled_dropping p) h in
      record {
        made = R.recv_keeps receiver y.receiver s.wires h.made;
        full = R.has_room-recv_ne receiver y.receiver s.wires n ∙ h.full;
        open_ = R.is_closed-recv receiver y.receiver s.wires ∙ h.open_;
        waits = h.waits;
        drops = h.drops;
        alone = h.alone;
      }
  Move-IsStuck {s} (left before y after e p) h =
      let n = other_receiver id receiver before y after s e (polled_dropping p) h in
      stream-IsStuck id receiver before y (record y { phase = dropping }) after s s.manager e n refl
        h
  Move-IsStuck {s} (unregistered before y after e p free) h =
      let n : receiver ≢ y.receiver =
        λ same. blocked shard id receiver before y after s e same free h in
      stream-IsStuck id receiver before y (record y { phase = cleaned_up }) after s
        (unregister y.id s.manager) e n refl h
  Move-IsStuck {s} (closed before y after e p) h =
      end-IsStuck id receiver before y after s e
        (other_receiver id receiver before y after s e (cleaned_dropping p) h) h
  Move-IsStuck (cleaned free) h = record {
    waits = h.waits;
    drops = h.drops;
    alone = h.alone;
    made = h.made;
    full = h.full;
    open_ = h.open_;
  }

  pub Moves-IsStuck :
      {s t : Tables} → Moves shard s t → IsStuck id receiver s → IsStuck id receiver t
  Moves-IsStuck here h = h
  Moves-IsStuck (next r m) h = Move-IsStuck m (Moves-IsStuck r h)
