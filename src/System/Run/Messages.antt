-- ===== src/System/Run/Messages.antt =====
-- What a run does is what a system does, and which messages it delivers.
use mathlib.Core.List.{Perm, map-append}
use mathlib.Core.List.Perm
use sse_gateway.Prelude.{
  ◌≡◌, refl, sym, ap, ◌∙◌, subst, Text, some, Bool, false, List, [], ◌∷◌, ◌++◌, map, Perm-then,
  Perm-kept, Perm-taken, Perm-through, append-nil,
}
use sse_gateway.Extern.Json.{Json}
use sse_gateway.Extern.DashMap.{DashMap}
use sse_gateway.Extern.Mpsc.{Mpsc}
use sse_gateway.Extern.SseFrame.{SseFrame}
use sse_gateway.Event.{SseEvent, raw, value}
use sse_gateway.Connection.{SseConnection}
use sse_gateway.Storage.Trait.{MessageStorage}
use sse_gateway.Source.{IncomingMessage}
use sse_gateway.Handler.{Callbacks}
use sse_gateway.Gateway.Routing.{read_so_far}
use sse_gateway.System.{
  System, Step, entered, responded, left, aborted, sent, dispatched, stored, cleaned, Steps, here,
  next,
}
use sse_gateway.System.Safety.{initial}
use sse_gateway.System.Reading.{Said, present, heard, said, all_said, read_in_any_order}
use sse_gateway.System.Run
use sse_gateway.System.Run.{
  Running, Act, Acts, IsOwn, launch, bound, bind_failed, accepted, connected, denied, posted,
  given_up, received, handled, stepped, source_ended, signalled, cleanup_ended, returned,
}

module _ ⦃J : Json⦄ where
  -- a message of the source
  abbrev pub said_by : IncomingMessage → Said
  said_by msg = (msg.channel_id, msg.event_type, raw msg.payload)

module _ ⦃J : Json⦄ ⦃D : DashMap⦄ ⦃M : Mpsc SseEvent⦄ ⦃F : SseFrame⦄ {S : MessageStorage}
    {E : Type 0} where
  -- the messages that were handed over and not dispatched yet
  abbrev pub waiting : Running S E → List Said
  waiting r = map said_by r.spawned

module _ ⦃J : Json⦄ ⦃D : DashMap⦄ ⦃M : Mpsc SseEvent⦄ ⦃F : SseFrame⦄ {S : MessageStorage}
    {Response E : Type 0} {k : Callbacks Response E} where
  own-said :
      {s t : System S E} (cleanup_runs : Bool) (st : Step k s t)
      → IsOwn cleanup_runs st
      → said st ≡ []
  own-said c (entered _ _ _ _ _) h = absurd h
  own-said c (sent _ _ _) h = absurd h
  own-said c (dispatched _ _ _) h = absurd h
  own-said c (responded _ _ _ _ _) h = refl
  own-said c (left _ _ _ _ _ _) h = refl
  own-said c (aborted _ _ _ _ _) h = refl
  own-said c (stored _ _ _ _) h = refl
  own-said c cleaned h = refl

module _ ⦃J : Json⦄ ⦃D : DashMap⦄ ⦃M : Mpsc SseEvent⦄ ⦃F : SseFrame⦄ {S : MessageStorage}
    {Response E : Type 0} {k : Callbacks Response E} {enable_dashboard : Bool} where
  abbrev act_steps :
      {s : System S E} {t u : Running S E}
      → Steps k s t.system
      → Act k enable_dashboard t u
      → Steps k s u.system
  act_steps p (connected before req after uuid now e a fresh) =
      next p (entered uuid now req a fresh)
  act_steps p (posted before req after uuid ts e) = next p (sent uuid ts req)
  act_steps p (handled before msg after uuid ts e) = next p (dispatched uuid ts msg)
  act_steps p (stepped st own) = next p st
  act_steps p _ = p

  -- the steps of the system that a run takes
  abbrev pub run_steps :
      {r t : Running S E} → Acts k enable_dashboard r t → Steps k r.system t.system
  run_steps Run.here = here
  run_steps (Run.next p a) = act_steps (run_steps p) a

  -- the messages that the run is given, over HTTP or by the source
  abbrev given : {r t : Running S E} → Act k enable_dashboard r t → List Said
  given (posted before req after uuid ts e) =
      (present req.channel_id, req.event_type, value req.payload) ∷ []
  given (received msg e) = said_by msg ∷ []
  given _ = []

  abbrev pub all_given : {r t : Running S E} → Acts k enable_dashboard r t → List Said
  all_given Run.here = []
  all_given (Run.next p a) = all_given p ++ given a

  -- what an act dispatches
  abbrev act_said : {r t : Running S E} → Act k enable_dashboard r t → List Said
  act_said (posted before req after uuid ts e) =
      (present req.channel_id, req.event_type, value req.payload) ∷ []
  act_said (handled before msg after uuid ts e) = said_by msg ∷ []
  act_said _ = []

  said-act_steps :
      {s : System S E} {t u : Running S E} (p : Steps k s t.system) (a : Act k enable_dashboard t u)
      → all_said (act_steps p a) ≡ all_said p ++ act_said a
  said-act_steps p (bound e) = sym (append-nil _)
  said-act_steps p (bind_failed e) = sym (append-nil _)
  said-act_steps p (accepted q e f) = sym (append-nil _)
  said-act_steps p (connected before req after uuid now e a fresh) = refl
  said-act_steps p (denied before req after response e a) = sym (append-nil _)
  said-act_steps p (posted before req after uuid ts e) = refl
  said-act_steps p (given_up before q after e) = sym (append-nil _)
  said-act_steps p (received msg e) = sym (append-nil _)
  said-act_steps p (handled before msg after uuid ts e) = refl
  said-act_steps {t} p (stepped st own) = ap (λ l. all_said p ++ l) (own-said t.cleanup_runs st own)
  said-act_steps p source_ended = sym (append-nil _)
  said-act_steps p (signalled e) = sym (append-nil _)
  said-act_steps p (cleanup_ended e f g) = sym (append-nil _)
  said-act_steps p (returned e) = sym (append-nil _)

  act_messages :
      {t u : Running S E} (a : Act k enable_dashboard t u)
      → Perm (act_said a ++ waiting u) (waiting t ++ given a)
  act_messages {t} (posted before req after uuid ts e) = Perm-through _ (waiting t)
  act_messages {t} (received msg e) =
      subst (λ l. Perm l (waiting t ++ said_by msg ∷ []))
        (sym (map-append said_by t.spawned (msg ∷ []))) (Perm.refl _)
  act_messages {t} {u} (handled before msg after uuid ts e) =
      subst (λ l. Perm (said_by msg ∷ l) (waiting t ++ [])) (sym (map-append said_by before after))
        (Perm-taken (map said_by before) (said_by msg) (map said_by after)
          (ap (map said_by) e ∙ map-append said_by before (msg ∷ after)))
  act_messages {t} (bound e) = Perm-kept (waiting t)
  act_messages {t} (bind_failed e) = Perm-kept (waiting t)
  act_messages {t} (accepted q e f) = Perm-kept (waiting t)
  act_messages {t} (connected before req after uuid now e a fresh) = Perm-kept (waiting t)
  act_messages {t} (denied before req after response e a) = Perm-kept (waiting t)
  act_messages {t} (given_up before q after e) = Perm-kept (waiting t)
  act_messages {t} (stepped st own) = Perm-kept (waiting t)
  act_messages {t} source_ended = Perm-kept (waiting t)
  act_messages {t} (signalled e) = Perm-kept (waiting t)
  act_messages {t} (cleanup_ended e f g) = Perm-kept (waiting t)
  act_messages {t} (returned e) = Perm-kept (waiting t)

  pub messages_conserved :
      {r t : Running S E} (p : Acts k enable_dashboard r t)
      → Perm (all_said (run_steps p) ++ waiting t) (waiting r ++ all_given p)
  messages_conserved {r} Run.here = Perm-kept (waiting r)
  messages_conserved {r} {t} (Run.next p a) =
      subst (λ l. Perm (l ++ waiting t) (waiting r ++ (all_given p ++ given a)))
        (sym (said-act_steps (run_steps p) a))
        (Perm-then _ _ _ (all_said (run_steps p)) (all_given p) (act_said a) (given a)
          (messages_conserved p) (act_messages a))

  -- Let a run lead from the start of `Gateway::run` to a state where a connection is registered,
  -- and on to one where it is registered and its receiver is open. In between, what the connection
  -- was sent grows by exactly the messages for its channel and the broadcasts among those that
  -- were dispatched, in that order. Those that were dispatched and those of the source that still
  -- wait are together, up to their order, those that waited at first, those that were posted and
  -- those that the source handed over.
  pub run_delivers :
      (id : Text) (conn : SseConnection) (instance_id : Text) (wires : M.State) (storage : S.State)
      (env : E) {s t : Running S E}
      → Acts k enable_dashboard (launch (initial instance_id wires storage env)) s
      → (p : Acts k enable_dashboard s t) → D.get id s.system.world.manager.connections ≡ some conn
      → D.get id t.system.world.manager.connections ≡ some conn
      → M.is_closed conn.sender t.system.world.wires ≡ false
      → (read_so_far id conn t.system.world
          ≡ read_so_far id conn s.system.world ++ heard conn.channel_id (all_said (run_steps p)))
        × Perm (all_said (run_steps p) ++ waiting t) (waiting s ++ all_given p)
  unfolding launch
  run_delivers id conn instance_id wires storage env start p there there' live = (
    read_in_any_order id conn instance_id wires storage env (run_steps start) (run_steps p) there
        there' live,
    messages_conserved p,
  )
