-- ===== src/Server/Push.antt =====
-- The push and store handlers of src/main.rs. `uuid` is the fresh id that `SseEvent::raw` draws. The
-- sender of `AppState` is that of the direct push source's queue.
pub mod Effect
use mathlib.Core.Option
use sse_gateway.Prelude.{
  ℕ, Text, Option, none, some, Bool, true, false, [], is_empty, ltb, if◌then◌else◌,
}
use sse_gateway.Extern.Json.{Json}
use sse_gateway.Extern.DashMap.{DashMap}
use sse_gateway.Extern.Mpsc.{Mpsc}
use sse_gateway.Std.Decimal.{ℤ}
use sse_gateway.Event.{SseEvent, raw_event}
use sse_gateway.Manager.{ConnectionManager, channel_connection_count}
use sse_gateway.Source
use sse_gateway.Source.{IncomingMessage, with_channel}
use sse_gateway.Redis.Storage
use sse_gateway.Redis.Storage.{RedisStorage}

pub record PushPayload ⦃J : Json⦄ : Type 0 where
  pub channel_id : Option Text
  pub event_type : Text
  pub payload : J.Value

pub record StorePayload ⦃J : Json⦄ : Type 0 where
  pub channel_id : Text
  pub event_type : Text
  pub payload : J.Value

pub record PushResponse : Type 0 where
  pub success : Bool
  pub online : Bool
  pub stream_id : Text

pub record StoreResponse : Type 0 where
  pub success : Bool
  pub stream_id : Text

pub record AppState ⦃J : Json⦄ ⦃D : DashMap⦄ ⦃M : Mpsc SseEvent⦄ ⦃N : Mpsc IncomingMessage⦄
    (Connection : Type 0) : Type 0 where
  pub sender : N.Sender
  pub pushes : N.State
  pub storage : RedisStorage Connection
  pub connection_manager : ConnectionManager

-- `if let Some(cid) = payload.channel_id { msg = msg.with_channel(cid) }`
unfoldable pub set_channel : Option Text → IncomingMessage → IncomingMessage
set_channel none msg = msg
set_channel (some channel_id) msg = with_channel channel_id msg

module _ ⦃J : Json⦄ where
  unfoldable pub push_message : PushPayload → IncomingMessage
  push_message p = set_channel p.channel_id (Source.new p.event_type (J.display p.payload))

module _ ⦃J : Json⦄ ⦃D : DashMap⦄ ⦃M : Mpsc SseEvent⦄ ⦃N : Mpsc IncomingMessage⦄
    {Connection : Type 0} where
  unfoldable pub handle_push :
      Text → ℤ → PushPayload → AppState Connection → PushResponse × AppState Connection
  handle_push uuid ts p st =
      let channel_id = Option.get_or p.channel_id [] in
      let (stream_id, storage) = Storage.generate_id ts st.storage in
      let online =
        if is_empty channel_id
        then false
        else ltb 0 (channel_connection_count channel_id st.connection_manager) in
      let (success, pushes) = N.send st.sender (push_message p) st.pushes in
      let event = raw_event uuid p.event_type (J.display p.payload) in
      (
        record { success = success; online = online; stream_id = stream_id },
        record st {
          pushes = pushes;
          storage =
              if is_empty channel_id
              then storage
              else Storage.store channel_id stream_id event storage;
        },
      )

  unfoldable pub handle_store :
      Text → ℤ → StorePayload → AppState Connection → StoreResponse × AppState Connection
  handle_store uuid ts p st =
      let (stream_id, storage) = Storage.generate_id ts st.storage in
      let event = raw_event uuid p.event_type (J.display p.payload) in
      (
        record { success = true; stream_id = stream_id },
        record st { storage = Storage.store p.channel_id stream_id event storage },
      )
