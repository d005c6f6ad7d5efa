-- ===== src/System/Reading.antt =====
-- What a client is given, whatever else happens in between.
pub mod Open
use sse_gateway.Prelude.{
  ℕ, ◌≡◌, refl, sym, ap, ◌∙◌, Text, codes, Option, none, some, false, true, List, [], ◌∷◌, ◌++◌,
  map, append-nil, append_assoc, is_empty, arith, if◌then◌else◌, Bool-cases, inl, inr,
}
use sse_gateway.Extern.Json.{Json}
use sse_gateway.Extern.DashMap.{DashMap}
use sse_gateway.Extern.Mpsc.{Mpsc}
use sse_gateway.Extern.SseFrame.{SseFrame}
use sse_gateway.Std.Decimal.{ℤ}
use sse_gateway.Event
use sse_gateway.Event.{SseEvent, EventData, raw, value}
use sse_gateway.Connection.{SseConnection}
use sse_gateway.Manager.{ConnectionManager, register, unregister}
use sse_gateway.Manager.Index.{get-unregister}
use sse_gateway.Manager.Senders.{register_cases, new_sender_fresh}
use sse_gateway.Manager.Cleanup.{get-cleanup}
use sse_gateway.Storage.Trait.{MessageStorage}
use sse_gateway.Handler.{World, Callbacks, route, send_message, run_task}
use sse_gateway.Session.{client_ip, open_session, drop_stream}
use sse_gateway.Gateway.{dispatch, handle, message_event}
use sse_gateway.Gateway.Routing.{
  content, concerns, read_so_far, read-dispatch, content-message_event,
}
use sse_gateway.System.{
  System, Step, entered, responded, left, aborted, sent, dispatched, stored, cleaned, Steps, here,
  next, run_stored, enter, leave, abort,
}
use sse_gateway.System.Sound.{IsSound, session_id}
use sse_gateway.System.Sound.Keeps.{IsQuiet, handle-IsQuiet, send_message-IsQuiet, from_active}
use sse_gateway.System.Safety.{initial, initial-IsSound, Steps-IsSound}
use sse_gateway.System.Reading.Open.{
  IsOpen, closed_registered, was-IsOpen, steps_made, steps_was-IsOpen,
}

-- `send_message` takes an empty channel id for none.
abbrev pub present : Option Text → Option Text
present none = none
present (some c) = if is_empty c then none else some c

module _ ⦃J : Json⦄ where
  -- a message: its channel, its type and its data
  abbrev pub Said : Type 0
  Said = Option Text × Text × EventData

  -- what a client of the channel is to read of messages
  abbrev pub heard : Text → List Said → List (Text × EventData)
  heard c [] = []
  heard c ((o, event_type, payload) ∷ l) =
      let rest = heard c l in if concerns c o then (event_type, payload) ∷ rest else rest

  heard-append : (c : Text) (l r : List Said) → heard c (l ++ r) ≡ heard c l ++ heard c r
  heard-append c [] r = refl
  heard-append c ((o, event_type, payload) ∷ l) r = ground (arith, heard-append c l r)

module _ ⦃J : Json⦄ ⦃D : DashMap⦄ ⦃M : Mpsc SseEvent⦄ {S : MessageStorage} {E : Type 0} where
  route-dispatch :
      (ts : ℤ) (o : Option Text) (e : SseEvent) (world : World S E)
      → route ts o e world ≡ dispatch ts (present o) e world
  unfolding route dispatch
  route-dispatch ts none e world = refl
  route-dispatch ts (some c) e world = elim (Bool-cases (is_empty c)) [
    | inl h ↦ rw h
    | inr h ↦ rw h
  ]

module _ ⦃J : Json⦄ ⦃D : DashMap⦄ ⦃M : Mpsc SseEvent⦄ ⦃F : SseFrame⦄ {S : MessageStorage}
    {Response E : Type 0} {k : Callbacks Response E} where
  -- the message of a step
  abbrev pub said : {s t : System S E} → Step k s t → List Said
  said (sent uuid ts req) = (present req.channel_id, req.event_type, value req.payload) ∷ []
  said (dispatched uuid ts msg) = (msg.channel_id, msg.event_type, raw msg.payload) ∷ []
  said _ = []

  abbrev pub all_said : {s t : System S E} → Steps k s t → List Said
  all_said here = []
  all_said (next r st) = all_said r ++ said st

module _ ⦃J : Json⦄ ⦃D : DashMap⦄ ⦃M : Mpsc SseEvent⦄ ⦃F : SseFrame⦄ {S : MessageStorage}
    {E : Type 0} (id : Text) (conn : SseConnection) where
  dispatch_read :
      (ts : ℤ) (o : Option Text) (e : SseEvent) (s : System S E)
      → IsSound s
      → IsOpen id conn s
      → read_so_far id conn (dispatch ts o e s.world).1
        ≡ read_so_far id conn s.world ++ heard conn.channel_id ((o, e.event_type, e.payload) ∷ [])
  dispatch_read ts o e s h p =
      read-dispatch id conn ts o e s.world
        (record { indexed = h.indexed; wired = h.wired; there = p.there; live = p.live })
      ∙ elim (Bool-cases (concerns conn.channel_id o)) [
        | inl c ↦ rw c
        | inr c ↦ rw c (sym (append-nil _))
      ]

module _ ⦃J : Json⦄ ⦃D : DashMap⦄ ⦃M : Mpsc SseEvent⦄ ⦃F : SseFrame⦄ {S : MessageStorage}
    {Response E : Type 0} {k : Callbacks Response E} (id : Text) (conn : SseConnection) where
  -- What the connection is given by a step.
  pub step_read :
      {s t : System S E} (st : Step k s t)
      → IsSound s
      → IsOpen id conn s
      → read_so_far id conn t.world ≡ read_so_far id conn s.world ++ heard conn.channel_id (said st)
  unfolding enter leave abort run_stored run_task open_session drop_stream handle send_message
      Event.new
  step_read {s} (entered uuid now r v fresh) h o =
      let agent = r.headers (codes "user-agent") in
      let made = h.wired.made id conn o.there in
      ap (map content)
        (closed_registered uuid now r.channel_id (client_ip r) agent s.world.manager s.world.wires
          conn.sender made).1
      ∙ sym (append-nil _)
  step_read (responded before x after e n) h o = sym (append-nil _)
  step_read {s} (left before x after replay e n) h o =
      ap (map content) (M.accepted-close conn.sender x.receiver s.world.wires) ∙ sym (append-nil _)
  step_read {s} (aborted before x after e n) h o =
      ap (map content) (M.accepted-close conn.sender x.receiver s.world.wires) ∙ sym (append-nil _)
  step_read {s} (sent uuid ts req) h o =
      rw (route-dispatch ts req.channel_id (Event.new uuid req.event_type req.payload) s.world) (
        dispatch_read id conn ts (present req.channel_id)
          (Event.new uuid req.event_type req.payload) s h o)
  step_read {s} (dispatched uuid ts msg) h o =
      dispatch_read id conn ts msg.channel_id (message_event uuid msg) s h o
      ∙ ap
          (λ (m : Text × EventData).
            read_so_far id conn s.world ++ heard conn.channel_id ((msg.channel_id, m.0, m.1) ∷ []))
          (content-message_event uuid msg)
  step_read (stored before t after e) h o = sym (append-nil _)
  step_read cleaned h o = sym (append-nil _)

  read_steps :
      {s t : System S E} (r : Steps k s t)
      → IsSound s
      → IsOpen id conn s
      → IsOpen id conn t
      → read_so_far id conn t.world
        ≡ read_so_far id conn s.world ++ heard conn.channel_id (all_said r)
  read_steps here h o o' = sym (append-nil _)
  read_steps {s} (next {t} {u} r st) h o o' =
      let between : IsOpen id conn t =
        was-IsOpen id conn st (steps_made id conn r (h.wired.made id conn o.there)) o' in
      step_read st (Steps-IsSound r h) between
      ∙ ap (λ l. l ++ heard conn.channel_id (said st)) (read_steps r h o between)
      ∙ append_assoc (read_so_far id conn s.world) (heard conn.channel_id (all_said r))
          (heard conn.channel_id (said st))
      ∙ ap (λ l. read_so_far id conn s.world ++ l)
          (sym (heard-append conn.channel_id (all_said r) (said st)))

  -- Let steps lead from the start of the gateway to a state where a connection is registered, and
  -- on to one where it is registered and its receiver is open. In between, what the connection was
  -- sent grows by exactly the messages for its channel and the broadcasts, in the order in which
  -- they were dispatched or posted.
  pub read_in_any_order :
      (instance_id : Text) (wires : M.State) (storage : S.State) (env : E) {s t : System S E}
      → Steps k (initial instance_id wires storage env) s
      → (r : Steps k s t) → D.get id s.world.manager.connections ≡ some conn
      → D.get id t.world.manager.connections ≡ some conn
      → M.is_closed conn.sender t.world.wires ≡ false
      → read_so_far id conn t.world
        ≡ read_so_far id conn s.world ++ heard conn.channel_id (all_said r)
  read_in_any_order instance_id wires storage env {s} {t} before r there there' live =
      let h = Steps-IsSound before (initial-IsSound instance_id wires storage env) in
      let o' : IsOpen id conn t = record { there = there'; live = live } in
      read_steps r h (steps_was-IsOpen id conn r (h.wired.made id conn there) o') o'
