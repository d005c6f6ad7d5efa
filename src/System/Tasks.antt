-- ===== src/System/Tasks.antt =====
-- What becomes of the stores that deliveries leave in the background.
use mathlib.Core.List.{Perm}
use mathlib.Core.List.Perm
use sse_gateway.Prelude.{
  ◌≡◌, refl, sym, Text, Option, none, some, List, [], ◌∷◌, ◌++◌, Bool-cases, inl, inr, append-nil,
  is_empty, Perm-kept, Perm-taken, Perm-then, if◌then◌else◌,
}
use sse_gateway.Extern.Json.{Json}
use sse_gateway.Extern.DashMap.{DashMap}
use sse_gateway.Extern.Mpsc.{Mpsc}
use sse_gateway.Extern.SseFrame.{SseFrame}
use sse_gateway.Std.Decimal.{ℤ}
use sse_gateway.Event
use sse_gateway.Event.{SseEvent}
use sse_gateway.Storage.Trait.{MessageStorage, StoreCall}
use sse_gateway.Handler.{World, Callbacks, deliver, deliver_all, route, send_message, stamp}
use sse_gateway.Session.{open_session, drop_stream}
use sse_gateway.Gateway.{dispatch, handle, message_event}
use sse_gateway.System.{
  System, Step, entered, responded, left, aborted, sent, dispatched, stored, cleaned, Steps, here,
  next, run_stored, enter, leave, abort,
}

module _ ⦃J : Json⦄ ⦃D : DashMap⦄ ⦃M : Mpsc SseEvent⦄ {S : MessageStorage} {E : Type 0} where
  -- the store that a message to a channel asks for
  abbrev call_for : ℤ → Text → SseEvent → World S E → StoreCall
  call_for ts c e world =
      let id = (S.generate_id ts world.storage).0 in
      record { channel_id = c; stream_id = id; event = stamp id e }

  abbrev dispatch_calls : ℤ → Option Text → SseEvent → World S E → List StoreCall
  dispatch_calls ts none e world = []
  dispatch_calls ts (some c) e world = call_for ts c e world ∷ []

  abbrev route_calls : ℤ → Option Text → SseEvent → World S E → List StoreCall
  route_calls ts none e world = []
  route_calls ts (some c) e world = if is_empty c then [] else call_for ts c e world ∷ []

  dispatch_tasks :
      (ts : ℤ) (o : Option Text) (e : SseEvent) (world : World S E)
      → (dispatch ts o e world).1.tasks ≡ world.tasks ++ dispatch_calls ts o e world
  unfolding dispatch deliver deliver_all
  dispatch_tasks ts none e world = sym (append-nil _)
  dispatch_tasks ts (some c) e world = refl

  route_tasks :
      (ts : ℤ) (o : Option Text) (e : SseEvent) (world : World S E)
      → (route ts o e world).1.tasks ≡ world.tasks ++ route_calls ts o e world
  unfolding route deliver deliver_all
  route_tasks ts none e world = sym (append-nil _)
  route_tasks ts (some c) e world = elim (Bool-cases (is_empty c)) [
    | inl h ↦ rw h (sym (append-nil _))
    | inr h ↦ rw h
  ]

module _ ⦃J : Json⦄ ⦃D : DashMap⦄ ⦃M : Mpsc SseEvent⦄ ⦃F : SseFrame⦄ {S : MessageStorage}
    {Response E : Type 0} {k : Callbacks Response E} where
  -- the store that a step asks for
  abbrev pub asked : {s t : System S E} → Step k s t → List StoreCall
  asked {s} (sent uuid ts req) =
      route_calls ts req.channel_id (Event.new uuid req.event_type req.payload) s.world
  asked {s} (dispatched uuid ts msg) =
      dispatch_calls ts msg.channel_id (message_event uuid msg) s.world
  asked _ = []

  -- the store that a step runs
  abbrev pub ran : {s t : System S E} → Step k s t → List StoreCall
  ran (stored before t after e) = t ∷ []
  ran _ = []

  abbrev pub all_asked : {s t : System S E} → Steps k s t → List StoreCall
  all_asked here = []
  all_asked (next r st) = all_asked r ++ asked st

  abbrev pub all_ran : {s t : System S E} → Steps k s t → List StoreCall
  all_ran here = []
  all_ran (next r st) = all_ran r ++ ran st

  step_tasks :
      {s t : System S E} (st : Step k s t)
      → Perm (ran st ++ t.world.tasks) (s.world.tasks ++ asked st)
  unfolding enter leave abort run_stored handle send_message open_session drop_stream
  step_tasks {s} (entered uuid now r v fresh) = Perm-kept s.world.tasks
  step_tasks {s} (responded before x after e n) = Perm-kept s.world.tasks
  step_tasks {s} (left before x after replay e n) = Perm-kept s.world.tasks
  step_tasks {s} (aborted before x after e n) = Perm-kept s.world.tasks
  step_tasks {s} (sent uuid ts req) = rw (route_tasks ts req.channel_id _ s.world) (Perm.refl _)
  step_tasks {s} (dispatched uuid ts msg) =
      rw (dispatch_tasks ts msg.channel_id _ s.world) (Perm.refl _)
  step_tasks (stored before t after e) = Perm-taken before t after e
  step_tasks {s} cleaned = Perm-kept s.world.tasks

  -- Over any steps, the stores that ran and those that are pending at the end are together, up to
  -- their order, those that were pending at first and those that the deliveries asked for.
  pub tasks_conserved :
      {s t : System S E} (r : Steps k s t)
      → Perm (all_ran r ++ t.world.tasks) (s.world.tasks ++ all_asked r)
  tasks_conserved {s} here = Perm-kept s.world.tasks
  tasks_conserved (next r st) =
      Perm-then _ _ _ (all_ran r) (all_asked r) (ran st) (asked st) (tasks_conserved r)
        (step_tasks st)
