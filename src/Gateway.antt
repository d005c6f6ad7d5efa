-- ===== src/Gateway.antt =====
-- gateway.rs: the dispatcher that the message sources feed (crates/sse-gateway/src/gateway.rs).
pub mod Builder
pub mod Routing
use sse_gateway.Prelude.{ℕ, Text, Option, none, some, List, [], ◌∷◌}
use sse_gateway.Extern.Json.{Json}
use sse_gateway.Extern.DashMap.{DashMap}
use sse_gateway.Extern.Mpsc.{Mpsc}
use sse_gateway.Std.Decimal.{ℤ}
use sse_gateway.Event.{SseEvent, raw_event, with_id}
use sse_gateway.Storage.Trait.{MessageStorage}
use sse_gateway.Source.{IncomingMessage}
use sse_gateway.Handler.{World, deliver, deliver_all}

module _ ⦃J : Json⦄ where
  -- `if let Some(id) = msg.id { event.id = Some(id) }`
  override_id : Option Text → SseEvent → SseEvent
  override_id none event = event
  override_id (some id) event = with_id id event

  unfoldable pub message_event : Text → IncomingMessage → SseEvent
  unfolding override_id
  message_event uuid msg = override_id msg.id (raw_event uuid msg.event_type msg.payload)

module _ ⦃J : Json⦄ ⦃D : DashMap⦄ ⦃M : Mpsc SseEvent⦄ {S : MessageStorage} {E : Type 0} where
  -- Here an empty channel id names a channel, unlike in `send_message`.
  unfoldable pub dispatch : ℤ → Option Text → SseEvent → World S E → ℕ × World S E
  dispatch ts none event world = deliver_all event world
  dispatch ts (some channel_id) event world = deliver ts channel_id event world

  -- `Dispatcher::handle`
  unfoldable pub handle : Text → ℤ → IncomingMessage → World S E → ℕ × World S E
  unfolding dispatch
  handle uuid ts msg world = dispatch ts msg.channel_id (message_event uuid msg) world

-- A message with the fresh uuid and the clock reading that its handling takes.
pub record Arrival : Type 0 where
  pub uuid : Text
  pub ts : ℤ
  pub msg : IncomingMessage

module _ ⦃J : Json⦄ ⦃D : DashMap⦄ ⦃M : Mpsc SseEvent⦄ {S : MessageStorage} {E : Type 0} where
  -- The messages of a source, handled one after the other. (Each is a task of its own in the
  -- program; this is the order in which they come to run.)
  unfoldable pub handle_all : List Arrival → World S E → World S E
  handle_all [] world = world
  handle_all (a ∷ arrivals) world = handle_all arrivals (handle a.uuid a.ts a.msg world).1
