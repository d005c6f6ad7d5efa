-- ===== src/Server/Push/Effect.antt =====
-- What a push leaves in the queues.
use sse_gateway.Prelude.{Text, some}
use sse_gateway.Extern.Json.{Json}
use sse_gateway.Extern.DashMap.{DashMap}
use sse_gateway.Extern.Mpsc.{Mpsc}
use sse_gateway.Std.Decimal.{ℤ}
use sse_gateway.Event
use sse_gateway.Event.{SseEvent}
use sse_gateway.Source.{IncomingMessage}
use sse_gateway.Redis.Storage
use sse_gateway.Redis.Storage.{RedisStorage}
use sse_gateway.Server.Push.{PushResponse, AppState, handle_push}

module _ ⦃J : Json⦄ ⦃D : DashMap⦄ ⦃M : Mpsc SseEvent⦄ ⦃N : Mpsc IncomingMessage⦄
    {Connection : Type 0} (uuid : Text) (ts : ℤ) (st : AppState Connection) where
  module _ (c event_type : Text) (body : J.Value) where
    -- a push to a channel
    abbrev pub pushed : PushResponse × AppState Connection
    pushed =
        handle_push uuid ts
          (record { channel_id = some c; event_type = event_type; payload = body }) st
