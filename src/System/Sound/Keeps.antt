-- ===== src/System/Sound/Keeps.antt =====
-- Steps that leave the sessions alone: messages, background tasks and cleanups.
use sse_gateway.Prelude.{
  ◌≡◌, refl, sym, subst, ap, ◌∙◌, Text, Option, none, some, false, List, All-map, arith, is_empty,
  Bool-cases, inl, inr,
}
use sse_gateway.Extern.Json.{Json}
use sse_gateway.Extern.DashMap.{DashMap}
use sse_gateway.Extern.Mpsc.{Mpsc}
use sse_gateway.Extern.SseFrame.{SseFrame}
use sse_gateway.Std.Decimal.{ℤ}
use sse_gateway.Event.{SseEvent}
use sse_gateway.Connection.{SseConnection}
use sse_gateway.Manager.{ConnectionManager, cleanup_dead_connections}
use sse_gateway.Manager.Index.{IsIndexed}
use sse_gateway.Manager.Senders.{IsWired}
use sse_gateway.Manager.Cleanup.{get-cleanup, cleanup-IsIndexed, if_active}
use sse_gateway.Manager.Delivery.{
  is_closed-send_to_channel, send_to_channel-IsWired, send_to_channel_keeps,
}
use sse_gateway.Manager.Broadcast.{is_closed-broadcast, broadcast-IsWired, broadcast_keeps}
use sse_gateway.Storage.Trait.{MessageStorage, StoreCall}
use sse_gateway.Source.{IncomingMessage}
use sse_gateway.Handler.{
  World, deliver, deliver_all, route, send_message, SendMessageRequest, run_task,
}
use sse_gateway.Gateway.{dispatch, handle}
use sse_gateway.System.{System, Session, run_stored}
use sse_gateway.System.Sound.{IsHeld, IsSound, session_id}

module _ ⦃J : Json⦄ ⦃D : DashMap⦄ ⦃M : Mpsc SseEvent⦄ {S : MessageStorage} {E : Type 0} where
  -- The registrations and the receivers are the same.
  pub record IsQuiet (world world' : World S E) : Type 0 where
    pub manager : world'.manager ≡ world.manager
    pub closed : (t : M.Sender) → M.is_closed t world'.wires ≡ M.is_closed t world.wires
    pub made : (t : M.Sender) → M.IsMade world.wires t → M.IsMade world'.wires t
    pub wired : IsWired world.manager world.wires → IsWired world.manager world'.wires

  pub deliver-IsQuiet :
      (ts : ℤ) (c : Text) (e : SseEvent) (world : World S E)
      → IsQuiet world (deliver ts c e world).1
  unfolding deliver
  deliver-IsQuiet ts c e world = record {
    manager = refl;
    closed = is_closed-send_to_channel c _ world.manager world.wires;
    made = send_to_channel_keeps c _ world.manager world.wires;
    wired = send_to_channel-IsWired c _ world.manager world.wires;
  }

  pub deliver_all-IsQuiet :
      (e : SseEvent) (world : World S E) → IsQuiet world (deliver_all e world).1
  unfolding deliver_all
  deliver_all-IsQuiet e world = record {
    manager = refl;
    closed = is_closed-broadcast e world.manager world.wires;
    made = broadcast_keeps e world.manager world.wires;
    wired = broadcast-IsWired e world.manager world.wires;
  }

  dispatch-IsQuiet :
      (ts : ℤ) (o : Option Text) (e : SseEvent) (world : World S E)
      → IsQuiet world (dispatch ts o e world).1
  unfolding dispatch
  dispatch-IsQuiet ts none e world = deliver_all-IsQuiet e world
  dispatch-IsQuiet ts (some c) e world = deliver-IsQuiet ts c e world

  pub handle-IsQuiet :
      (uuid : Text) (ts : ℤ) (msg : IncomingMessage) (world : World S E)
      → IsQuiet world (handle uuid ts msg world).1
  unfolding handle
  handle-IsQuiet uuid ts msg world = dispatch-IsQuiet ts msg.channel_id _ world

  route-IsQuiet :
      (ts : ℤ) (o : Option Text) (e : SseEvent) (world : World S E)
      → IsQuiet world (route ts o e world).1
  unfolding route
  route-IsQuiet ts none e world = deliver_all-IsQuiet e world
  route-IsQuiet ts (some c) e world = elim (Bool-cases (is_empty c)) [
    | inl h ↦ rw h (deliver_all-IsQuiet e world)
    | inr h ↦ rw h (deliver-IsQuiet ts c e world)
  ]

  pub send_message-IsQuiet :
      (uuid : Text) (ts : ℤ) (req : SendMessageRequest) (world : World S E)
      → IsQuiet world (send_message uuid ts req world).1
  unfolding send_message
  send_message-IsQuiet uuid ts req world = route-IsQuiet ts req.channel_id _ world

  pub run_stored-IsQuiet :
      (t : StoreCall) (others : List StoreCall) (world : World S E)
      → IsQuiet world (run_stored t others world)
  unfolding run_stored run_task
  run_stored-IsQuiet t others world = record {
    manager = refl;
    closed = λ x. refl;
    made = λ x h. h;
    wired = λ h. h;
  }

module _ ⦃J : Json⦄ ⦃D : DashMap⦄ ⦃M : Mpsc SseEvent⦄ where
  active :
      (w : M.State) (o : Option SseConnection) (c : SseConnection)
      → o ≡ some c
      → M.is_closed c.sender w ≡ false
      → if_active w o ≡ some c
  active o c e live = ground (arith, e)

  pub from_active :
      (w : M.State) (o : Option SseConnection) (c : SseConnection)
      → if_active w o ≡ some c
      → o ≡ some c
  from_active o c e = ground (arith, e)

module _ ⦃J : Json⦄ ⦃D : DashMap⦄ ⦃M : Mpsc SseEvent⦄ ⦃F : SseFrame⦄ {S : MessageStorage}
    {E : Type 0} where
  IsHeld-quiet :
      {world world' : World S E}
      → IsQuiet world world'
      → (x : Session) → IsHeld world x
      → IsHeld world' x
  IsHeld-quiet q x h = record {
    conn = h.conn;
    there = ap (λ (m : ConnectionManager). D.get (session_id x) m.connections) q.manager ∙ h.there;
    its = h.its;
    channel = h.channel;
    live = q.closed h.conn.sender ∙ h.live;
  }

  pub IsSound_quiet :
      (s : System S E) (world' : World S E)
      → IsQuiet s.world world'
      → IsSound s
      → IsSound (record s { world = world' })
  IsSound_quiet s world' q h = record {
    indexed = subst IsIndexed (sym q.manager) h.indexed;
    wired = subst (λ m. IsWired m world'.wires) (sym q.manager) (q.wired h.wired);
    held = All-map (IsHeld-quiet q) s.sessions h.held;
    distinct = h.distinct;
    owned = λ id conn g live.
        h.owned id conn (sym (ap (λ (m : ConnectionManager). D.get id m.connections) q.manager) ∙ g)
          (sym (q.closed conn.sender) ∙ live);
  }

  abbrev pub cleaned_world : World S E → World S E
  cleaned_world world = record world {
    manager = cleanup_dead_connections world.manager world.wires;
  }

  pub cleaned-IsSound :
      (s : System S E) → IsSound s → IsSound (record s { world = cleaned_world s.world })
  cleaned-IsSound s h =
      let m = s.world.manager in
      let w = s.world.wires in
      let was : (id : Text) (c : SseConnection)
          → D.get id (cleanup_dead_connections m w).connections ≡ some c
          → D.get id m.connections ≡ some c =
        λ id c g. from_active w _ c (sym (get-cleanup m w id) ∙ g) in
      record {
        indexed = cleanup-IsIndexed m w h.indexed;
        wired = record {
          named = λ i a g. h.wired.named i a (was i a g);
          made = λ i a g. h.wired.made i a (was i a g);
          apart = λ i j a b g g'. h.wired.apart i j a b (was i a g) (was j b g');
        };
        held =
            All-map
              (λ (x : Session) (k : IsHeld s.world x). record {
                conn = k.conn;
                there = get-cleanup m w (session_id x) ∙ active w _ k.conn k.there k.live;
                its = k.its;
                channel = k.channel;
                live = k.live;
              })
              s.sessions h.held;
        distinct = h.distinct;
        owned = λ id c g live. h.owned id c (was id c g) live;
      }
