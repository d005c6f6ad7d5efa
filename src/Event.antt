-- ===== src/Event.antt =====
-- event.rs: the SSE events (crates/sse-gateway/src/event.rs). The field `data` is `payload` here.
-- `uuid::Uuid::new_v4()` is the argument `uuid`.
use mathlib.Core.Option
use sse_gateway.Prelude.{ℕ, Text, codes, Option, none, some, []}
use sse_gateway.Extern.Json.{Json}

pub data EventData ⦃J : Json⦄ : Type 0 where
  raw : Text → EventData
  value : J.Value → EventData

pub record SseEvent ⦃J : Json⦄ : Type 0 where
  pub event_type : Text
  pub payload : EventData
  pub id : Option Text
  pub stream_id : Option Text
  pub retry : Option ℕ

module _ ⦃J : Json⦄ where
  -- a value that cannot be printed is printed as the empty text
  unfoldable pub to_string : EventData → Text
  to_string (raw s) = s
  to_string (value v) = Option.get_or (J.to_string v) []

  unfoldable pub new : Text → Text → J.Value → SseEvent
  new uuid event_type payload = record {
    event_type = event_type;
    payload = value payload;
    id = some uuid;
    stream_id = none;
    retry = none;
  }

  unfoldable pub raw_event : Text → Text → Text → SseEvent
  raw_event uuid event_type raw_data = record {
    event_type = event_type;
    payload = raw raw_data;
    id = some uuid;
    stream_id = none;
    retry = none;
  }

  unfoldable pub message : Text → Text → SseEvent
  unfolding raw_event
  message uuid raw_data = raw_event uuid (codes "message") raw_data

  unfoldable pub with_stream_id : Text → SseEvent → SseEvent
  with_stream_id stream_id e = record e { stream_id = some stream_id }

  unfoldable pub with_id : Text → SseEvent → SseEvent
  with_id id e = record e { id = some id }

  unfoldable pub with_retry : ℕ → SseEvent → SseEvent
  with_retry retry_ms e = record e { retry = some retry_ms }
