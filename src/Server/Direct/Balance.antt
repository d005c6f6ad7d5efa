-- ===== src/Server/Direct/Balance.antt =====
-- What the callbacks of the direct push source are told of the sessions.
use sse_gateway.Prelude.{
  ℕ, suc, ◌+◌, ◌≡◌, refl, ap, Text, ◌==◌, Option, none, some, List, [], ◌∷◌, ◌++◌, append-nil,
  arith, is_empty, Bool-cases, inl, inr, if◌then◌else◌,
}
use sse_gateway.Extern.Json.{Json}
use sse_gateway.Extern.DashMap.{DashMap}
use sse_gateway.Extern.Mpsc.{Mpsc}
use sse_gateway.Extern.SseFrame.{SseFrame}
use sse_gateway.Std.Decimal.{ℤ}
use sse_gateway.Event
use sse_gateway.Event.{SseEvent}
use sse_gateway.Storage.Trait.{MessageStorage}
use sse_gateway.Auth.{AuthRequest}
use sse_gateway.Handler.{World, Callbacks, send_message, run_task, route, deliver, deliver_all}
use sse_gateway.Gateway.{message_event, handle, dispatch}
use sse_gateway.Session.{open_session, drop_stream}
use sse_gateway.System.{
  System, Session, Step, entered, responded, left, aborted, sent, dispatched, stored, cleaned,
  Steps, here, next, enter, respond, leave, abort, run_stored,
}
use sse_gateway.System.Safety.{initial}
use sse_gateway.Server.Direct.{
  ChannelTask, registering, releasing, on_connect, on_disconnect, lifecycle,
}

abbrev pub times : Text → List Text → ℕ
times c [] = 0
times c (d ∷ l) = let rest = times c l in if c == d then suc rest else rest

times-append : (c : Text) (l r : List Text) → times c (l ++ r) ≡ times c l + times c r
times-append c [] r = omega arith
times-append c (d ∷ l) r = ground (arith, times-append c l r)

-- how often a task for the channel was spawned
abbrev pub registrations : Text → List ChannelTask → ℕ
registrations c [] = 0
registrations c (registering d ∷ l) =
    let rest = registrations c l in if c == d then suc rest else rest
registrations c (releasing d ∷ l) = registrations c l

abbrev pub releases : Text → List ChannelTask → ℕ
releases c [] = 0
releases c (registering d ∷ l) = releases c l
releases c (releasing d ∷ l) = let rest = releases c l in if c == d then suc rest else rest

registrations-append :
    (c : Text) (l r : List ChannelTask)
    → registrations c (l ++ r) ≡ registrations c l + registrations c r
registrations-append c [] r = omega arith
registrations-append c (registering d ∷ l) r = ground (arith, registrations-append c l r)
registrations-append c (releasing d ∷ l) r = registrations-append c l r

releases-append :
    (c : Text) (l r : List ChannelTask) → releases c (l ++ r) ≡ releases c l + releases c r
releases-append c [] r = omega arith
releases-append c (registering d ∷ l) r = releases-append c l r
releases-append c (releasing d ∷ l) r = ground (arith, releases-append c l r)

module _ ⦃J : Json⦄ ⦃M : Mpsc SseEvent⦄ ⦃F : SseFrame⦄ where
  -- the channels of the sessions
  abbrev pub channels : List Session → List Text
  channels [] = []
  channels (x ∷ l) = x.info.channel_id ∷ channels l

  times-channels :
      (c : Text) (l r : List Session)
      → times c (channels (l ++ r)) ≡ times c (channels l) + times c (channels r)
  times-channels c [] r = omega arith
  times-channels c (x ∷ l) r = ground (arith, times-channels c l r)

  times_middle :
      (c : Text) (before : List Session) (x : Session) (after : List Session)
      → times c (channels (before ++ x ∷ after))
        ≡ times c (x.info.channel_id ∷ []) + times c (channels (before ++ after))
  times_middle c before x after =
      ground (arith, times-channels c before (x ∷ after), times-channels c before after)

module _ ⦃J : Json⦄ ⦃D : DashMap⦄ ⦃M : Mpsc SseEvent⦄ {S : MessageStorage} {E : Type 0} where
  dispatch_env :
      (ts : ℤ) (o : Option Text) (e : SseEvent) (world : World S E)
      → (dispatch ts o e world).1.env ≡ world.env
  unfolding dispatch deliver deliver_all
  dispatch_env ts none e world = refl
  dispatch_env ts (some c) e world = refl

  route_env :
      (ts : ℤ) (o : Option Text) (e : SseEvent) (world : World S E)
      → (route ts o e world).1.env ≡ world.env
  unfolding route deliver deliver_all
  route_env ts none e world = refl
  route_env ts (some c) e world = elim (Bool-cases (is_empty c)) [ inl p ↦ rw p | inr p ↦ rw p ]

module _ ⦃J : Json⦄ ⦃D : DashMap⦄ ⦃M : Mpsc SseEvent⦄ ⦃F : SseFrame⦄ {S : MessageStorage}
    {Response E : Type 0} {k : Callbacks Response E} where
  -- the channels whose clients went away before they were answered
  abbrev pub unanswered : {s t : System S E} → Step k s t → List Text
  unanswered (aborted before x after e n) = x.info.channel_id ∷ []
  unanswered _ = []

  abbrev pub all_unanswered : {s t : System S E} → Steps k s t → List Text
  all_unanswered here = []
  all_unanswered (next r st) = all_unanswered r ++ unanswered st

module _ ⦃J : Json⦄ ⦃D : DashMap⦄ ⦃M : Mpsc SseEvent⦄ ⦃F : SseFrame⦄ {S : MessageStorage}
    {Response : Type 0} (auth : Option (AuthRequest → Option Response)) where
  abbrev IsBalanced : Text → List Text → System S (List ChannelTask) → Type 0
  IsBalanced c gone s =
      registrations c s.world.env
      ≡ releases c s.world.env + times c (channels s.sessions) + times c gone

  step-IsBalanced :
      (c : Text) (gone : List Text) {s t : System S (List ChannelTask)}
      (st : Step (lifecycle auth) s t)
      → IsBalanced c gone s
      → IsBalanced c (gone ++ unanswered st) t
  unfolding enter respond leave abort run_stored run_task handle dispatch send_message open_session
      drop_stream lifecycle on_connect on_disconnect
  step-IsBalanced c gone {s} (entered uuid now r v fresh) h =
      rw
        (
          registrations-append c s.world.env,
          releases-append c s.world.env,
          times-channels c s.sessions,
          append-nil gone,
        )
        (ground (arith, h))
  step-IsBalanced c gone {s} (responded before x after e n) h = rw (append-nil gone) (
      ground (
        arith,
        h,
        times_middle c before x after,
        times_middle c before (respond s.world x) after,
        ap (λ l. times c (channels l)) e,
      ))
  step-IsBalanced c gone {s} (left before x after replay e n) h =
      rw (registrations-append c s.world.env, releases-append c s.world.env, append-nil gone)
        (ground (arith, h, times_middle c before x after, ap (λ l. times c (channels l)) e))
  step-IsBalanced c gone {s} (aborted before x after e n) h =
      rw (times-append c gone)
        (ground (arith, h, times_middle c before x after, ap (λ l. times c (channels l)) e))
  step-IsBalanced c gone {s} (sent uuid ts req) h =
      rw
        (
          append-nil gone,
          route_env ts req.channel_id (Event.new uuid req.event_type req.payload) s.world,
        )
        h
  step-IsBalanced c gone {s} (dispatched uuid ts msg) h =
      rw (append-nil gone, dispatch_env ts msg.channel_id (message_event uuid msg) s.world) h
  step-IsBalanced c gone {s} (stored before t after e) h = rw (append-nil gone) h
  step-IsBalanced c gone {s} cleaned h = rw (append-nil gone) h

  steps-IsBalanced :
      (c : Text) {s t : System S (List ChannelTask)} (r : Steps (lifecycle auth) s t)
      → IsBalanced c [] s
      → IsBalanced c (all_unanswered r) t
  steps-IsBalanced c here h = h
  steps-IsBalanced c (next r st) h =
      step-IsBalanced c (all_unanswered r) st (steps-IsBalanced c r h)

  -- Let the direct push source have the callbacks. In every state that steps lead to from the
  -- start of the gateway, the spawned registrations of a channel are as many as its releases, its
  -- sessions and the requests for it whose clients went away before they were answered, together.
  pub callbacks_balance :
      (c instance_id : Text) (wires : M.State) (storage : S.State) {s : System S (List ChannelTask)}
      (r : Steps (lifecycle auth) (initial instance_id wires storage []) s)
      → registrations c s.world.env
        ≡ releases c s.world.env + times c (channels s.sessions) + times c (all_unanswered r)
  callbacks_balance c instance_id wires storage r = steps-IsBalanced c r refl
