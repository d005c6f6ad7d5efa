-- ===== src/Handler.antt =====
-- handler.rs: the HTTP handlers (crates/sse-gateway/src/handler.rs).
-- A handler takes and returns the `World`. A `tokio::spawn` of a `store` leaves a task in it.
pub mod Frame
pub mod Deliver
pub mod Stats
use mathlib.Core.Option
use sse_gateway.Prelude.{
  ℕ, ◌+◌, Text, codes, Option, none, some, Bool, true, false, List, [], ◌∷◌, ◌++◌, is_empty, ltb,
  if◌then◌else◌, map,
}
use sse_gateway.Extern.Json.{Json}
use sse_gateway.Extern.DashMap.{DashMap}
use sse_gateway.Extern.Mpsc.{Mpsc}
use sse_gateway.Extern.SseFrame.{SseFrame}
use sse_gateway.Std.Affix.{trim}
use sse_gateway.Std.Split.{split}
use sse_gateway.Std.Decimal.{ℤ}
use sse_gateway.Event
use sse_gateway.Event.{SseEvent, with_stream_id}
use sse_gateway.Connection.{SseConnection, is_active}
use sse_gateway.Manager
use sse_gateway.Manager.{
  ConnectionManager, register, unregister, send_to_channel, broadcast, list_connections,
}
use sse_gateway.Storage.Trait.{MessageStorage, StoreCall}
use sse_gateway.Source.{ConnectionInfo}
use sse_gateway.Auth.{AuthRequest}

-- The shared parts of `GatewayState`, with the channels and the tasks in the background. `env` is
-- what the lifecycle callbacks act on.
pub record World ⦃J : Json⦄ ⦃D : DashMap⦄ ⦃M : Mpsc SseEvent⦄ (S : MessageStorage) (E : Type 0)
    : Type 0 where
  pub manager : ConnectionManager
  pub wires : M.State
  pub storage : S.State
  pub tasks : List StoreCall
  pub env : E

-- The callbacks of `GatewayState`. A denial carries its response.
pub record Callbacks (Response E : Type 0) : Type 0 where
  pub auth : Option (AuthRequest → Option Response)
  pub on_connect : Option (ConnectionInfo → E → E)
  pub on_disconnect : Option (ConnectionInfo → E → E)

module _ ⦃J : Json⦄ ⦃F : SseFrame⦄ where
  set_id : Option Text → Option Text → F.Event → F.Event
  set_id (some stream_id) id e = F.id stream_id e
  set_id none (some id) e = F.id id e
  set_id none none e = e

  set_retry : Option ℕ → F.Event → F.Event
  set_retry none e = e
  set_retry (some ms) e = F.retry ms e

  unfoldable pub sse_event_to_axum : SseEvent → F.Event
  unfolding set_id set_retry
  sse_event_to_axum e = set_retry e.retry (
      set_id e.stream_id e.id
        (F.payload (Event.to_string e.payload) (F.event e.event_type F.default)))

module _ ⦃J : Json⦄ where
  -- `if !stream_id.is_empty() { event.stream_id = Some(stream_id.clone()) }`
  unfoldable pub stamp : Text → SseEvent → SseEvent
  stamp stream_id event = if is_empty stream_id then event else with_stream_id stream_id event

-- What `send_message` and the dispatcher share: the id first, the live clients next, the storage in
-- the background.
module _ ⦃J : Json⦄ ⦃D : DashMap⦄ ⦃M : Mpsc SseEvent⦄ {S : MessageStorage} {E : Type 0} where
  unfoldable pub deliver : ℤ → Text → SseEvent → World S E → ℕ × World S E
  deliver ts channel_id event world =
      let (stream_id, storage) = S.generate_id ts world.storage in
      let event' = stamp stream_id event in
      let (sent, wires) = send_to_channel channel_id event' world.manager world.wires in
      let call : StoreCall = record {
        channel_id = channel_id;
        stream_id = stream_id;
        event = event';
      } in
      (sent, record world { wires = wires; storage = storage; tasks = world.tasks ++ call ∷ [] })

  unfoldable pub deliver_all : SseEvent → World S E → ℕ × World S E
  deliver_all event world =
      let (sent, wires) = broadcast event world.manager world.wires in
      (sent, record world { wires = wires })

  -- A background task runs.
  unfoldable pub run_task : StoreCall → World S E → World S E
  run_task t world = record world {
    storage = S.store t.channel_id t.stream_id t.event world.storage;
  }

pub record SendMessageRequest ⦃J : Json⦄ : Type 0 where
  pub channel_id : Option Text
  pub event_type : Text
  pub payload : J.Value

pub record SendMessageResponse : Type 0 where
  pub success : Bool
  pub sent_count : ℕ

module _ ⦃J : Json⦄ ⦃D : DashMap⦄ ⦃M : Mpsc SseEvent⦄ {S : MessageStorage} {E : Type 0} where
  -- `Some(channel_id) if !channel_id.is_empty()`
  unfoldable pub route : ℤ → Option Text → SseEvent → World S E → ℕ × World S E
  route ts none event world = deliver_all event world
  route ts (some channel_id) event world =
      if is_empty channel_id then deliver_all event world else deliver ts channel_id event world

  unfoldable pub send_message :
      Text → ℤ → SendMessageRequest → World S E → SendMessageResponse × World S E
  unfolding route
  send_message uuid ts req world =
      let (sent_count, world') =
        route ts req.channel_id (Event.new uuid req.event_type req.payload) world in
      (record { success = ltb 0 sent_count; sent_count = sent_count }, world')
