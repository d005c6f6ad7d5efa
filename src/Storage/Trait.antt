-- ===== src/Storage/Trait.antt =====
-- storage.rs: the storage trait (crates/sse-gateway/src/storage.rs). A method takes and returns the
-- state of the storage; the clock reading of `generate_id` is an argument.

use sse_gateway.Prelude.{Text, Option, Bool, List}
use sse_gateway.Extern.Json.{Json}
use sse_gateway.Event.{SseEvent}
use sse_gateway.Std.Decimal.{ℤ}

pub record MessageStorage ⦃J : Json⦄ : Type 1 where
  pub State : Type 0
  pub generate_id : ℤ → State → Text × State
  pub store : Text → Text → SseEvent → State → State
  pub get_messages_after : Text → Option Text → State → List SseEvent
  pub is_available : State → Bool
  pub name : Text

-- One call of `store`, as a background task holds it.
pub record StoreCall ⦃J : Json⦄ : Type 0 where
  pub channel_id : Text
  pub stream_id : Text
  pub event : SseEvent
