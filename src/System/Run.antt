-- ===== src/System/Run.antt =====
-- `Gateway::run` from its start to its end (crates/sse-gateway/src/gateway.rs): the tasks that it
-- spawns, the routes that it serves, and the shutdown. The source runs before the port is bound. Each
-- message of the source becomes a task of its own. A signal cancels the tasks. Which requests axum
-- accepts after the signal, and when its graceful shutdown lets `run` return, is left open: the steps
-- allow both at any time after the signal. The routes that change nothing are left out.
pub mod Messages
pub mod Overtake
use mathlib.Core.Option
use sse_gateway.Prelude.{
  ℕ, ◌≡◌, ◌≢◌, ◌⊎◌, Text, Option, none, some, Bool, true, false, List, [], ◌∷◌, ◌++◌,
}
use sse_gateway.Extern.Json.{Json}
use sse_gateway.Extern.DashMap.{DashMap}
use sse_gateway.Extern.Mpsc.{Mpsc}
use sse_gateway.Extern.SseFrame.{SseFrame}
use sse_gateway.Std.Decimal.{ℤ}
use sse_gateway.Event.{SseEvent}
use sse_gateway.Storage.Trait.{MessageStorage}
use sse_gateway.Source.{IncomingMessage}
use sse_gateway.Handler.{Callbacks, SendMessageRequest, send_message}
use sse_gateway.Session.{ConnectRequest, auth_request}
use sse_gateway.Gateway.{handle}
use sse_gateway.System.{
  System, Step, entered, responded, left, aborted, sent, dispatched, stored, cleaned, enter,
}

-- The port is not bound yet; requests are served; the signal has come; `run` has returned; the port
-- could not be bound.
pub data Stage : Type 0 where
  binding serving draining finished failed : Stage

pub data Request ⦃J : Json⦄ : Type 0 where
  connect : ConnectRequest → Request
  post : SendMessageRequest → Request

-- Which tasks run, the accepted requests that no handler has served yet, and the messages of the
-- source whose tasks have not run yet.
pub record Running ⦃J : Json⦄ ⦃D : DashMap⦄ ⦃M : Mpsc SseEvent⦄ ⦃F : SseFrame⦄ (S : MessageStorage)
    (E : Type 0) : Type 0 where
  pub system : System S E
  pub stage : Stage
  pub source_runs : Bool
  pub cleanup_runs : Bool
  pub in_flight : List Request
  pub spawned : List IncomingMessage

-- whether the router has a route for the request
unfoldable pub routed : ⦃J : Json⦄ → Bool → Request → Bool
routed enable_dashboard (connect r) = true
routed enable_dashboard (post r) = enable_dashboard

module _ ⦃J : Json⦄ ⦃D : DashMap⦄ ⦃M : Mpsc SseEvent⦄ ⦃F : SseFrame⦄ {S : MessageStorage}
    {E : Type 0} where
  -- the tasks are spawned
  unfoldable pub launch : System S E → Running S E
  launch s = record {
    system = s;
    stage = binding;
    source_runs = true;
    cleanup_runs = true;
    in_flight = [];
    spawned = [];
  }

module _ ⦃J : Json⦄ ⦃D : DashMap⦄ ⦃M : Mpsc SseEvent⦄ ⦃F : SseFrame⦄ {S : MessageStorage}
    {Response E : Type 0} where
  -- The steps of the system that take neither a request nor a message.
  abbrev pub IsOwn : {k : Callbacks Response E} → Bool → {s t : System S E} → Step k s t → Type 0
  IsOwn cleanup_runs (entered _ _ _ _ _) = ⊥
  IsOwn cleanup_runs (sent _ _ _) = ⊥
  IsOwn cleanup_runs (dispatched _ _ _) = ⊥
  IsOwn cleanup_runs cleaned = cleanup_runs ≡ true
  IsOwn cleanup_runs _ = Unit

  pub data Act (k : Callbacks Response E) (enable_dashboard : Bool) (r : Running S E)
      : Running S E → Type 0 where
    bound : r.stage ≡ binding → Act k enable_dashboard r (record r { stage = serving })
    bind_failed : r.stage ≡ binding → Act k enable_dashboard r (record r { stage = failed })
    accepted :
        (q : Request)
        → (r.stage ≡ serving) ⊎ (r.stage ≡ draining)
        → routed enable_dashboard q ≡ true
        → Act k enable_dashboard r (record r { in_flight = r.in_flight ++ q ∷ [] })
    connected :
        (before : List Request) (req : ConnectRequest) (after : List Request) (uuid : Text)
        (now : ℕ)
        → r.in_flight ≡ before ++ connect req ∷ after
        → Option.bind k.auth (λ auth_fn. auth_fn (auth_request req)) ≡ none
        → D.get uuid r.system.world.manager.connections ≡ none
        → Act k enable_dashboard r
            (record r { system = enter uuid now req k r.system; in_flight = before ++ after })
    denied :
        (before : List Request) (req : ConnectRequest) (after : List Request) (response : Response)
        → r.in_flight ≡ before ++ connect req ∷ after
        → Option.bind k.auth (λ auth_fn. auth_fn (auth_request req)) ≡ some response
        → Act k enable_dashboard r (record r { in_flight = before ++ after })
    posted :
        (before : List Request) (req : SendMessageRequest) (after : List Request) (uuid : Text)
        (ts : ℤ)
        → r.in_flight ≡ before ++ post req ∷ after
        → Act k enable_dashboard r (record r {
          system = record r.system { world = (send_message uuid ts req r.system.world).1 };
          in_flight = before ++ after;
        })
    given_up :
        (before : List Request) (q : Request) (after : List Request)
        → r.in_flight ≡ before ++ q ∷ after
        → Act k enable_dashboard r (record r { in_flight = before ++ after })
    received :
        (msg : IncomingMessage)
        → r.source_runs ≡ true
        → Act k enable_dashboard r (record r { spawned = r.spawned ++ msg ∷ [] })
    handled :
        (before : List IncomingMessage) (msg : IncomingMessage) (after : List IncomingMessage)
        (uuid : Text) (ts : ℤ)
        → r.spawned ≡ before ++ msg ∷ after
        → Act k enable_dashboard r (record r {
          system = record r.system { world = (handle uuid ts msg r.system.world).1 };
          spawned = before ++ after;
        })
    stepped :
        {t : System S E} (st : Step k r.system t)
        → IsOwn r.cleanup_runs st
        → Act k enable_dashboard r (record r { system = t })
    -- An error of `start` is only logged.
    source_ended : Act k enable_dashboard r (record r { source_runs = false })
    signalled : r.stage ≡ serving → Act k enable_dashboard r (record r { stage = draining })
    cleanup_ended :
        r.stage ≢ binding
        → r.stage ≢ serving
        → r.stage ≢ failed
        → Act k enable_dashboard r (record r { cleanup_runs = false })
    returned : r.stage ≡ draining → Act k enable_dashboard r (record r { stage = finished })

  pub data Acts (k : Callbacks Response E) (enable_dashboard : Bool) (r : Running S E)
      : Running S E → Type 0 where
    here : Acts k enable_dashboard r r
    next :
        {t u : Running S E}
        → Acts k enable_dashboard r t
        → Act k enable_dashboard t u
        → Acts k enable_dashboard r u
