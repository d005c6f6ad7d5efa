-- ===== src/System/Safety.antt =====
-- The connection table and the open sessions agree, whatever the order of events.
use sse_gateway.Prelude.{
  ◌≡◌, refl, sym, ap, ◌∙◌, Text, Option, none, some, is_some, Bool, false, true, List, [], ◌∷◌,
  ◌++◌, contains, length, length_of_same, keys, Distinct, All, arith, Bool-cases, inl, inr,
  text_dec,
}
use sse_gateway.Extern.Json.{Json}
use sse_gateway.Extern.DashMap.{DashMap}
use sse_gateway.Extern.Mpsc.{Mpsc}
use sse_gateway.Extern.SseFrame.{SseFrame}
use sse_gateway.Event.{SseEvent}
use sse_gateway.Connection.{SseConnection}
use sse_gateway.Manager.{ConnectionManager, new, connection_count, cleanup_dead_connections}
use sse_gateway.Manager.Index.{new-IsIndexed}
use sse_gateway.Manager.Senders.{new-IsWired}
use sse_gateway.Manager.Broadcast.{table_ids, table_ids-Distinct, contains-table_ids}
use sse_gateway.Manager.Cleanup.{get-cleanup, if_active}
use sse_gateway.Storage.Trait.{MessageStorage}
use sse_gateway.Handler.{World, Callbacks}
use sse_gateway.System.{
  System, Session, Step, entered, responded, left, aborted, sent, dispatched, stored, cleaned,
  Steps, here, next,
}
use sse_gateway.System.Sound.{IsHeld, IsSound, session_id, ids}
use sse_gateway.System.Sound.Keeps.{
  IsSound_quiet, handle-IsQuiet, send_message-IsQuiet, run_stored-IsQuiet, cleaned-IsSound,
}
use sse_gateway.System.Sound.Enter.{enter-IsSound, respond-IsSound}
use sse_gateway.System.Sound.Exit.{leave-IsSound, abort-IsSound}

module _ ⦃J : Json⦄ ⦃D : DashMap⦄ ⦃M : Mpsc SseEvent⦄ ⦃F : SseFrame⦄ {S : MessageStorage}
    {E : Type 0} where
  -- The gateway at its start, with the state of the channels, the storage and the environment.
  abbrev pub initial : Text → M.State → S.State → E → System S E
  initial instance_id wires storage env = record {
    world = record {
      manager = new instance_id;
      wires = wires;
      storage = storage;
      tasks = [];
      env = env;
    };
    sessions = [];
  }

  pub initial-IsSound :
      (instance_id : Text) (wires : M.State) (storage : S.State) (env : E)
      → IsSound (initial instance_id wires storage env)
  unfolding new
  initial-IsSound instance_id wires storage env = record {
    indexed = new-IsIndexed instance_id;
    wired = new-IsWired instance_id wires;
    held = tt;
    distinct = tt;
    owned = λ id conn g live. cc (D.get-empty {V = SseConnection} id);
  }

module _ ⦃J : Json⦄ ⦃D : DashMap⦄ ⦃M : Mpsc SseEvent⦄ ⦃F : SseFrame⦄ {S : MessageStorage}
    {Response E : Type 0} {k : Callbacks Response E} where
  pub Step-IsSound : {s t : System S E} → Step k s t → IsSound s → IsSound t
  Step-IsSound {s} (entered uuid now r v fresh) h = enter-IsSound uuid now r k s fresh h
  Step-IsSound {s} (responded before x after e n) h = respond-IsSound before x after s e h
  Step-IsSound {s} (left before x after replay e n) h = leave-IsSound k before x after replay s e h
  Step-IsSound {s} (aborted before x after e n) h = abort-IsSound before x after s e h
  Step-IsSound {s} (sent uuid ts req) h =
      IsSound_quiet s _ (send_message-IsQuiet uuid ts req s.world) h
  Step-IsSound {s} (dispatched uuid ts msg) h =
      IsSound_quiet s _ (handle-IsQuiet uuid ts msg s.world) h
  Step-IsSound {s} (stored before t after e) h =
      IsSound_quiet s _ (run_stored-IsQuiet t (before ++ after) s.world) h
  Step-IsSound {s} cleaned h = cleaned-IsSound s h

  pub Steps-IsSound : {s t : System S E} → Steps k s t → IsSound s → IsSound t
  Steps-IsSound here h = h
  Steps-IsSound (next r st) h = Step-IsSound st (Steps-IsSound r h)

module _ ⦃J : Json⦄ ⦃D : DashMap⦄ ⦃M : Mpsc SseEvent⦄ ⦃F : SseFrame⦄ where
  pub length-ids : (l : List Session) → length (ids l) ≡ length l
  length-ids [] = refl
  length-ids (x ∷ l) = omega (arith, length-ids l)

module _ {V : Type 0} where
  length-keys : (l : List (Text × V)) → length (keys l) ≡ length l
  length-keys [] = refl
  length-keys ((k, v) ∷ l) = omega (arith, length-keys l)

module _ ⦃J : Json⦄ ⦃D : DashMap⦄ ⦃M : Mpsc SseEvent⦄ where
  live_conn :
      (w : M.State) (o : Option SseConnection)
      → is_some (if_active w o) ≡ true
      → (c : SseConnection) × (o ≡ some c) × (M.is_closed c.sender w ≡ false)
  live_conn w none e = absurd (differ e)
    where
      differ : false ≡ true → ⊥
      differ e = cc
  live_conn w (some c) e = (c, refl, ground arith)

  length-table_ids : (m : ConnectionManager) → length (table_ids m) ≡ length (D.iter m.connections)
  unfolding table_ids
  length-table_ids m = length-keys (D.iter m.connections)

module _ ⦃J : Json⦄ ⦃D : DashMap⦄ ⦃M : Mpsc SseEvent⦄ ⦃F : SseFrame⦄ {S : MessageStorage}
    {E : Type 0} where
  -- the connection is registered and its receiver is there
  abbrev pub is_live : World S E → Text → Bool
  is_live world id = is_some (if_active world.wires (D.get id world.manager.connections))

  held_live :
      (world : World S E) (l : List Session) (id : Text)
      → All (IsHeld world) l
      → contains id (ids l) ≡ true
      → is_live world id ≡ true
  held_live world [] id h c = cc
  held_live world (x ∷ l) id h c = elim (text_dec id (session_id x)) [
    | yes p ↦ live_at (ap (λ i. D.get i world.manager.connections) p ∙ h.0.there) h.0.live
    | no p ↦ held_live world l id h.1 (ground arith)
  ]
    where
      live_at :
          {o : Option SseConnection} {c : SseConnection}
          → o ≡ some c
          → M.is_closed c.sender world.wires ≡ false
          → is_some (if_active world.wires o) ≡ true
      live_at e live = ground (arith, e)

  pub sessions_live :
      (s : System S E) (id : Text) → IsSound s → contains id (ids s.sessions) ≡ is_live s.world id
  sessions_live s id h = elim (Bool-cases (contains id (ids s.sessions))) [
    | inl c ↦ c ∙ sym (held_live s.world s.sessions id h.held c)
    | inr c ↦ elim (Bool-cases (is_live s.world id)) [
      | inl live ↦
          let (conn, g, open_) =
            live_conn s.world.wires (D.get id s.world.manager.connections) live in
          absurd (differ (sym c ∙ h.owned id conn g open_))
      | inr dead ↦ c ∙ sym dead
    ]
  ]
    where
      differ : false ≡ true → ⊥
      differ e = cc

  -- after a cleanup, as many connections are registered as there are sessions
  count_lem :
      (s : System S E)
      → IsSound s
      → connection_count (cleanup_dead_connections s.world.manager s.world.wires)
        ≡ length s.sessions
  unfolding connection_count
  count_lem s h =
      let m = cleanup_dead_connections s.world.manager s.world.wires in
      let same : (id : Text) → contains id (table_ids m) ≡ contains id (ids s.sessions) = λ id.
        contains-table_ids m id
        ∙ ap is_some (get-cleanup s.world.manager s.world.wires id)
        ∙ sym (sessions_live s id h) in
      D.len-iter m.connections
      ∙ sym (length-table_ids m)
      ∙ length_of_same (table_ids m) (ids s.sessions) (table_ids-Distinct m) h.distinct same
      ∙ length-ids s.sessions

module _ ⦃J : Json⦄ ⦃D : DashMap⦄ ⦃M : Mpsc SseEvent⦄ ⦃F : SseFrame⦄ {S : MessageStorage}
    {Response E : Type 0} (k : Callbacks Response E) where
  -- In every state that steps lead to from the start of the gateway, no connection has two
  -- sessions, and a connection has a session exactly if it is registered and its receiver is open.
  pub sessions_are_live :
      (instance_id : Text) (wires : M.State) (storage : S.State) (env : E) {s : System S E}
      → Steps k (initial instance_id wires storage env) s
      → Distinct (ids s.sessions)
        × ((id : Text) → contains id (ids s.sessions) ≡ is_live s.world id)
  sessions_are_live instance_id wires storage env {s} r =
      let h = Steps-IsSound r (initial-IsSound instance_id wires storage env) in
      (h.distinct, λ id. sessions_live s id h)

  -- After a cleanup in any reachable state, as many connections are left as there are sessions.
  count_after_cleanup :
      (instance_id : Text) (wires : M.State) (storage : S.State) (env : E) {s : System S E}
      → Steps k (initial instance_id wires storage env) s
      → connection_count (cleanup_dead_connections s.world.manager s.world.wires)
        ≡ length s.sessions
  count_after_cleanup instance_id wires storage env {s} r =
      count_lem s (Steps-IsSound r (initial-IsSound instance_id wires storage env))
