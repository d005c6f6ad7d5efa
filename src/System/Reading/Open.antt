-- ===== src/System/Reading/Open.antt =====
-- Whether a connection is open, over the steps of a run.
use sse_gateway.Prelude.{
  ℕ, ◌≡◌, sym, ap, ◌∙◌, Text, codes, Option, some, false, true, arith, Bool-cases, inl, inr,
}
use sse_gateway.Extern.Json.{Json}
use sse_gateway.Extern.DashMap.{DashMap}
use sse_gateway.Extern.Mpsc.{Mpsc}
use sse_gateway.Extern.SseFrame.{SseFrame}
use sse_gateway.Event.{SseEvent}
use sse_gateway.Connection.{SseConnection}
use sse_gateway.Manager.{ConnectionManager, register, unregister}
use sse_gateway.Manager.Index.{get-unregister}
use sse_gateway.Manager.Senders.{register_cases, new_sender_fresh}
use sse_gateway.Manager.Cleanup.{get-cleanup}
use sse_gateway.Storage.Trait.{MessageStorage}
use sse_gateway.Handler.{World, Callbacks, run_task}
use sse_gateway.Session.{client_ip, open_session, drop_stream}
use sse_gateway.System.{
  System, Step, entered, responded, left, aborted, sent, dispatched, stored, cleaned, Steps, here,
  next, run_stored, enter, leave, abort,
}
use sse_gateway.System.Sound.{session_id}
use sse_gateway.System.Sound.Keeps.{IsQuiet, handle-IsQuiet, send_message-IsQuiet, from_active}

module _ ⦃J : Json⦄ ⦃D : DashMap⦄ ⦃M : Mpsc SseEvent⦄ ⦃F : SseFrame⦄ {S : MessageStorage}
    {E : Type 0} (id : Text) (conn : SseConnection) where
  -- The connection is registered, and its receiver is there.
  pub record IsOpen (s : System S E) : Type 0 where
    pub there : D.get id s.world.manager.connections ≡ some conn
    pub live : M.is_closed conn.sender s.world.wires ≡ false

module _ ⦃J : Json⦄ ⦃D : DashMap⦄ ⦃M : Mpsc SseEvent⦄ where
  open_before :
      (t u : M.Sender) (w : M.State) → M.is_closed t (M.close u w) ≡ false → M.is_closed t w ≡ false
  open_before t u w e = elim (Bool-cases (M.is_closed t w)) [
    | inl c ↦ absurd (differ (sym e ∙ M.is_closed-close_stays t u w c))
    | inr c ↦ c
  ]
    where
      differ : false ≡ true → ⊥
      differ p = cc

  not_removed :
      (id other : Text) (m : ConnectionManager) (conn : SseConnection)
      → D.get id (unregister other m).connections ≡ some conn
      → D.get id m.connections ≡ some conn
  not_removed id other m conn g = ground (arith, get-unregister other m id)

  pub closed_registered :
      (uuid : Text) (now : ℕ) (c : Text) (ip agent : Option Text) (m : ConnectionManager)
      (w : M.State) (t : M.Sender)
      → M.IsMade w t
      → (M.is_closed t (register uuid now c ip agent m w).3 ≡ M.is_closed t w)
        × (M.accepted t (register uuid now c ip agent m w).3 ≡ M.accepted t w)
  unfolding register
  closed_registered uuid now c ip agent m w t made =
      (M.is_closed-channel 100 t w made, M.accepted-channel 100 t w made)

  there_before :
      (uuid : Text) (now : ℕ) (c : Text) (ip agent : Option Text) (m : ConnectionManager)
      (w : M.State) (id : Text) (conn : SseConnection)
      → M.IsMade w conn.sender
      → D.get id (register uuid now c ip agent m w).2.connections ≡ some conn
      → D.get id m.connections ≡ some conn
  there_before uuid now c ip agent m w id conn made g =
      elim (register_cases uuid now c ip agent m w id conn g) [
        | inl (p, q) ↦ absurd (
            new_sender_fresh uuid now c ip agent m w conn.sender made
              (ap (λ (a : SseConnection). a.sender) q))
        | inr (p, q) ↦ q
      ]

module _ ⦃J : Json⦄ ⦃D : DashMap⦄ ⦃M : Mpsc SseEvent⦄ ⦃F : SseFrame⦄ {S : MessageStorage}
    {E : Type 0} (id : Text) (conn : SseConnection) where
  was_quiet-IsOpen :
      (s : System S E) (world' : World S E)
      → IsQuiet s.world world'
      → IsOpen id conn (record s { world = world' })
      → IsOpen id conn s
  was_quiet-IsOpen s world' q o = record {
    there = sym (ap (λ (m : ConnectionManager). D.get id m.connections) q.manager) ∙ o.there;
    live = sym (q.closed conn.sender) ∙ o.live;
  }

module _ ⦃J : Json⦄ ⦃D : DashMap⦄ ⦃M : Mpsc SseEvent⦄ ⦃F : SseFrame⦄ {S : MessageStorage}
    {Response E : Type 0} {k : Callbacks Response E} (id : Text) (conn : SseConnection) where
  -- A connection whose channel is not new was open before the step, if it is after it.
  pub was-IsOpen :
      {s t : System S E} (st : Step k s t)
      → M.IsMade s.world.wires conn.sender
      → IsOpen id conn t
      → IsOpen id conn s
  unfolding enter leave abort run_stored run_task open_session drop_stream
  was-IsOpen {s} (entered uuid now r v fresh) made o =
      let ip = client_ip r in
      let agent = r.headers (codes "user-agent") in
      let m = s.world.manager in
      let w = s.world.wires in
      record {
        there = there_before uuid now r.channel_id ip agent m w id conn made o.there;
        live =
            sym (closed_registered uuid now r.channel_id ip agent m w conn.sender made).0 ∙ o.live;
      }
  was-IsOpen (responded before x after e n) made o = record { there = o.there; live = o.live }
  was-IsOpen {s} (left before x after replay e n) made o = record {
    there = not_removed id (session_id x) s.world.manager conn o.there;
    live = open_before conn.sender x.receiver s.world.wires o.live;
  }
  was-IsOpen {s} (aborted before x after e n) made o = record {
    there = o.there;
    live = open_before conn.sender x.receiver s.world.wires o.live;
  }
  was-IsOpen {s} (sent uuid ts req) made o =
      was_quiet-IsOpen id conn s _ (send_message-IsQuiet uuid ts req s.world) o
  was-IsOpen {s} (dispatched uuid ts msg) made o =
      was_quiet-IsOpen id conn s _ (handle-IsQuiet uuid ts msg s.world) o
  was-IsOpen (stored before t after e) made o = record { there = o.there; live = o.live }
  was-IsOpen {s} cleaned made o = record {
    there =
        from_active s.world.wires _ conn
          (sym (get-cleanup s.world.manager s.world.wires id) ∙ o.there);
    live = o.live;
  }

  -- a channel that was made stays made
  step_made :
      {s t : System S E} (st : Step k s t)
      → M.IsMade s.world.wires conn.sender
      → M.IsMade t.world.wires conn.sender
  unfolding enter leave abort run_stored run_task open_session drop_stream register
  step_made {s} (entered uuid now r v fresh) m = M.channel_keeps 100 conn.sender s.world.wires m
  step_made (responded before x after e n) m = m
  step_made {s} (left before x after replay e n) m =
      M.close_keeps conn.sender x.receiver s.world.wires m
  step_made {s} (aborted before x after e n) m =
      M.close_keeps conn.sender x.receiver s.world.wires m
  step_made {s} (sent uuid ts req) m = (send_message-IsQuiet uuid ts req s.world).made conn.sender m
  step_made {s} (dispatched uuid ts msg) m = (handle-IsQuiet uuid ts msg s.world).made conn.sender m
  step_made (stored before t after e) m = m
  step_made cleaned m = m

  pub steps_made :
      {s t : System S E} (r : Steps k s t)
      → M.IsMade s.world.wires conn.sender
      → M.IsMade t.world.wires conn.sender
  steps_made here m = m
  steps_made (next r st) m = step_made st (steps_made r m)

  pub steps_was-IsOpen :
      {s t : System S E} (r : Steps k s t)
      → M.IsMade s.world.wires conn.sender
      → IsOpen id conn t
      → IsOpen id conn s
  steps_was-IsOpen here m o = o
  steps_was-IsOpen (next r st) m o = steps_was-IsOpen r m (was-IsOpen st (steps_made r m) o)
