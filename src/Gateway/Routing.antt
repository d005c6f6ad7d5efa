-- ===== src/Gateway/Routing.antt =====
-- Every client reads exactly the messages for its channel and the broadcasts, in order.
use mathlib.Core.List.{map-append}
use sse_gateway.Prelude.{
  ◌≡◌, sym, ap, ◌∙◌, Text, ◌==◌, Option, none, some, Bool, true, false, List, [], ◌∷◌, ◌++◌, map,
  append_assoc, append-nil, if◌then◌else◌, arith, Bool-cases, inl, inr,
}
use sse_gateway.Extern.Json.{Json}
use sse_gateway.Extern.DashMap.{DashMap}
use sse_gateway.Extern.Mpsc.{Mpsc}
use sse_gateway.Std.Decimal.{ℤ}
use sse_gateway.Event.{SseEvent, EventData, raw, raw_event, with_id, with_stream_id}
use sse_gateway.Connection.{SseConnection}
use sse_gateway.Manager.Index.{IsIndexed}
use sse_gateway.Manager.Senders.{IsWired}
use sse_gateway.Manager.Delivery.{
  accepted-send_to_channel, is_closed-send_to_channel, send_to_channel-IsWired,
}
use sse_gateway.Manager.Broadcast.{accepted-broadcast, is_closed-broadcast, broadcast-IsWired}
use sse_gateway.Storage.Trait.{MessageStorage}
use sse_gateway.Source.{IncomingMessage}
use sse_gateway.Handler.{World, deliver, deliver_all, stamp}
use sse_gateway.Gateway.{Arrival, message_event, dispatch, handle, handle_all}

-- what a client makes of an event: its type and its data
abbrev pub content : ⦃J : Json⦄ → SseEvent → Text × EventData
content e = (e.event_type, e.payload)

-- the messages that concern a channel
abbrev pub concerns : Text → Option Text → Bool
concerns c none = true
concerns c (some d) = c == d

abbrev pub inbox : ⦃J : Json⦄ → Text → List Arrival → List (Text × EventData)
inbox c [] = []
inbox c (a ∷ arrivals) =
    let rest = inbox c arrivals in
    if concerns c a.msg.channel_id then (a.msg.event_type, raw a.msg.payload) ∷ rest else rest

module _ ⦃J : Json⦄ where
  content-stamp : (id : Text) (e : SseEvent) → content (stamp id e) ≡ content e
  unfolding stamp with_stream_id
  content-stamp id e = ground arith

  pub content-message_event :
      (uuid : Text) (m : IncomingMessage)
      → content (message_event uuid m) ≡ (m.event_type, raw m.payload)
  unfolding message_event raw_event with_id
  content-message_event uuid m = ground arith

module _ ⦃J : Json⦄ ⦃D : DashMap⦄ ⦃M : Mpsc SseEvent⦄ {S : MessageStorage} {E : Type 0} (id : Text)
    (conn : SseConnection) where
  -- The connection is registered in a consistent gateway, and its client is there.
  pub record IsLive (world : World S E) : Type 0 where
    pub indexed : IsIndexed world.manager
    pub wired : IsWired world.manager world.wires
    pub there : D.get id world.manager.connections ≡ some conn
    pub live : M.is_closed conn.sender world.wires ≡ false

  -- what the client was sent so far, as it reads it
  abbrev pub read_so_far : World S E → List (Text × EventData)
  read_so_far world = map content (M.accepted conn.sender world.wires)

  dispatch-IsLive :
      (ts : ℤ) (o : Option Text) (e : SseEvent) (world : World S E)
      → IsLive world
      → IsLive (dispatch ts o e world).1
  unfolding dispatch deliver deliver_all
  dispatch-IsLive ts none e world h = record {
    indexed = h.indexed;
    wired = broadcast-IsWired e world.manager world.wires h.wired;
    there = h.there;
    live = is_closed-broadcast e world.manager world.wires conn.sender ∙ h.live;
  }
  dispatch-IsLive ts (some d) e world h = record {
    indexed = h.indexed;
    wired = send_to_channel-IsWired d _ world.manager world.wires h.wired;
    there = h.there;
    live = is_closed-send_to_channel d _ world.manager world.wires conn.sender ∙ h.live;
  }

  pub read-dispatch :
      (ts : ℤ) (o : Option Text) (e : SseEvent) (world : World S E)
      → IsLive world
      → read_so_far (dispatch ts o e world).1 ≡ (
          if concerns conn.channel_id o
          then read_so_far world ++ content e ∷ []
          else read_so_far world)
  unfolding dispatch deliver deliver_all
  read-dispatch ts none e world h =
      rw (accepted-broadcast e world.manager world.wires id conn h.wired h.there, h.live)
        (map-append _ _ _)
  read-dispatch ts (some d) e world h =
      let e' = stamp (S.generate_id ts world.storage).0 e in
      rw
        (
          accepted-send_to_channel d e' world.manager world.wires id conn h.indexed h.wired h.there,
          h.live,
        )
        (elim (Bool-cases (conn.channel_id == d)) [
          | inl p ↦
              rw p (map-append _ _ _ ∙ ap (λ x. read_so_far world ++ x ∷ []) (content-stamp _ e))
          | inr p ↦ rw p
        ])

  after_one :
      (a : Arrival) (arrivals : List Arrival) (world : World S E)
      → IsLive world
      → read_so_far (dispatch a.ts a.msg.channel_id (message_event a.uuid a.msg) world).1
          ++ inbox conn.channel_id arrivals
        ≡ read_so_far world ++ inbox conn.channel_id (a ∷ arrivals)
  after_one a arrivals world h =
      rw
        (
          read-dispatch a.ts a.msg.channel_id (message_event a.uuid a.msg) world h,
          content-message_event,
        )
        (elim (Bool-cases (concerns conn.channel_id a.msg.channel_id)) [
          | inl p ↦ rw p (
              append_assoc (read_so_far world) ((a.msg.event_type, raw a.msg.payload) ∷ [])
                (inbox conn.channel_id arrivals))
          | inr p ↦ rw p
        ])

  -- If a registered connection of a gateway with consistent index and channels has a live client,
  -- then after any list of messages is dispatched its channel was given, by type and data, exactly
  -- the messages for the connection's channel and the broadcasts, in the order in which they were
  -- handled, each once, behind what it had before.
  pub read-handle_all :
      (arrivals : List Arrival) (world : World S E)
      → IsLive world
      → read_so_far (handle_all arrivals world)
        ≡ read_so_far world ++ inbox conn.channel_id arrivals
  unfolding handle_all handle
  read-handle_all [] world h = sym (append-nil _)
  read-handle_all (a ∷ arrivals) world h =
      let e = message_event a.uuid a.msg in
      let world' = (dispatch a.ts a.msg.channel_id e world).1 in
      let kept : IsLive world' = dispatch-IsLive a.ts a.msg.channel_id e world h in
      let later : read_so_far (handle_all arrivals world')
          ≡ read_so_far world' ++ inbox conn.channel_id arrivals =
        read-handle_all arrivals world' kept in
      later ∙ after_one a arrivals world h
