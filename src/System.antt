-- ===== src/System.antt =====
-- The gateway as it runs: requests, messages, background tasks and cleanups, interleaved in any order
-- (the routes and tasks of `Gateway::run`, crates/sse-gateway/src/gateway.rs, and `sse_connect`,
-- crates/sse-gateway/src/handler.rs). A connect request is served in two steps, since it awaits the
-- storage between its registration and its response.
pub mod Sound
pub mod Allowed
pub mod Waiting
pub mod Safety
pub mod Tasks
pub mod Filled
pub mod Race
pub mod Reorder
pub mod Run
pub mod Shown
pub mod Reading
use mathlib.Core.Option
use sse_gateway.Prelude.{ℕ, ◌≡◌, Text, Option, none, some, true, List, [], ◌∷◌, ◌++◌}
use sse_gateway.Extern.Json.{Json}
use sse_gateway.Extern.DashMap.{DashMap}
use sse_gateway.Extern.Mpsc.{Mpsc}
use sse_gateway.Extern.SseFrame.{SseFrame}
use sse_gateway.Std.Decimal.{ℤ}
use sse_gateway.Event.{SseEvent}
use sse_gateway.Manager.{cleanup_dead_connections}
use sse_gateway.Storage.Trait.{MessageStorage, StoreCall}
use sse_gateway.Source.{ConnectionInfo, IncomingMessage}
use sse_gateway.Handler.{World, Callbacks, SendMessageRequest, send_message, run_task}
use sse_gateway.Session.{
  ConnectRequest, SseStream, auth_request, open_session, start_stream, drop_stream,
}
use sse_gateway.Gateway.{handle}

-- A connect request that was registered: `replay` is there once its response has begun.
pub record Session ⦃J : Json⦄ ⦃M : Mpsc SseEvent⦄ ⦃F : SseFrame⦄ : Type 0 where
  pub request : ConnectRequest
  pub info : ConnectionInfo
  pub receiver : M.Sender
  pub replay : Option (List F.Event)

pub record System ⦃J : Json⦄ ⦃D : DashMap⦄ ⦃M : Mpsc SseEvent⦄ ⦃F : SseFrame⦄ (S : MessageStorage)
    (E : Type 0) : Type 0 where
  pub world : World S E
  pub sessions : List Session

module _ ⦃J : Json⦄ ⦃M : Mpsc SseEvent⦄ ⦃F : SseFrame⦄ where
  -- the stream of a response that has begun
  abbrev pub stream_of : Session → List F.Event → SseStream
  stream_of x replay = record {
    replay = replay;
    receiver = x.receiver;
    info = x.info;
    cleanup = true;
  }

module _ ⦃J : Json⦄ ⦃D : DashMap⦄ ⦃M : Mpsc SseEvent⦄ ⦃F : SseFrame⦄ {S : MessageStorage}
    {E : Type 0} where
  -- the storage has answered
  unfoldable pub respond : World S E → Session → Session
  respond world x = record x {
    replay = some (start_stream x.request x.info x.receiver world).replay;
  }

  -- The client goes away while the handler waits for the storage. The handler's future is dropped,
  -- with the receiver; there is no `CleanupStream` yet.
  unfoldable pub abort : Session → List Session → System S E → System S E
  abort x others s = record {
    world = record s.world { wires = M.close x.receiver s.world.wires };
    sessions = others;
  }

module _ ⦃J : Json⦄ ⦃D : DashMap⦄ ⦃M : Mpsc SseEvent⦄ {S : MessageStorage} {E : Type 0} where
  -- A background task is taken off the list and runs.
  unfoldable pub run_stored : StoreCall → List StoreCall → World S E → World S E
  run_stored t others world = record (run_task t world) { tasks = others }

module _ ⦃J : Json⦄ ⦃D : DashMap⦄ ⦃M : Mpsc SseEvent⦄ ⦃F : SseFrame⦄ {S : MessageStorage}
    {Response E : Type 0} where
  unfoldable pub enter : Text → ℕ → ConnectRequest → Callbacks Response E → System S E → System S E
  enter uuid now r k s =
      let (info, receiver, world) = open_session uuid now r k s.world in
      let x : Session = record { request = r; info = info; receiver = receiver; replay = none } in
      record { world = world; sessions = s.sessions ++ x ∷ [] }

  -- The client goes away during its response.
  unfoldable pub leave :
      Callbacks Response E → Session → List F.Event → List Session → System S E → System S E
  leave k x replay others s = record {
    world = (drop_stream k (stream_of x replay) s.world).1;
    sessions = others;
  }

  -- One step. A denied connect request changes nothing, so it is none. A delivery is one step for all
  -- its clients: no other step comes between its sends, which System/Waiting has await by await.
  pub data Step (k : Callbacks Response E) (s : System S E) : System S E → Type 0 where
    entered :
        (uuid : Text) (now : ℕ) (r : ConnectRequest)
        → Option.bind k.auth (λ auth_fn. auth_fn (auth_request r)) ≡ none
        → D.get uuid s.world.manager.connections ≡ none
        → Step k s (enter uuid now r k s)
    responded :
        (before : List Session) (x : Session) (after : List Session)
        → s.sessions ≡ before ++ x ∷ after
        → x.replay ≡ none
        → Step k s (record s { sessions = before ++ respond s.world x ∷ after })
    left :
        (before : List Session) (x : Session) (after : List Session) (replay : List F.Event)
        → s.sessions ≡ before ++ x ∷ after
        → x.replay ≡ some replay
        → Step k s (leave k x replay (before ++ after) s)
    aborted :
        (before : List Session) (x : Session) (after : List Session)
        → s.sessions ≡ before ++ x ∷ after
        → x.replay ≡ none
        → Step k s (abort x (before ++ after) s)
    sent :
        (uuid : Text) (ts : ℤ) (req : SendMessageRequest)
        → Step k s (record s { world = (send_message uuid ts req s.world).1 })
    dispatched :
        (uuid : Text) (ts : ℤ) (msg : IncomingMessage)
        → Step k s (record s { world = (handle uuid ts msg s.world).1 })
    stored :
        (before : List StoreCall) (t : StoreCall) (after : List StoreCall)
        → s.world.tasks ≡ before ++ t ∷ after
        → Step k s (record s { world = run_stored t (before ++ after) s.world })
    cleaned : Step k s (record s {
      world = record s.world { manager = cleanup_dead_connections s.world.manager s.world.wires };
    })

  -- Any number of steps.
  pub data Steps (k : Callbacks Response E) (s : System S E) : System S E → Type 0 where
    here : Steps k s s
    next : {t u : System S E} → Steps k s t → Step k t u → Steps k s u
