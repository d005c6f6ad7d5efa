-- ===== src/Source.antt =====
-- source.rs: messages, the no-op source and the channel source (crates/sse-gateway/src/source.rs).
pub mod Loop
use sse_gateway.Prelude.{Text, codes, Option, none, some}

pub record IncomingMessage : Type 0 where
  pub channel_id : Option Text
  pub event_type : Text
  pub payload : Text
  pub id : Option Text

unfoldable pub new : Text → Text → IncomingMessage
new event_type payload = record {
  channel_id = none;
  event_type = event_type;
  payload = payload;
  id = none;
}

unfoldable pub with_channel : Text → IncomingMessage → IncomingMessage
with_channel channel_id m = record m { channel_id = some channel_id }

unfoldable pub with_id : Text → IncomingMessage → IncomingMessage
with_id id m = record m { id = some id }

unfoldable pub broadcast : Text → Text → IncomingMessage
unfolding new
broadcast event_type payload = new event_type payload

pub record ConnectionInfo : Type 0 where
  pub channel_id : Text
  pub connection_id : Text
  pub instance_id : Text

-- The trait, without `start`: its name and its callbacks, on the state that they keep.
pub record MessageSource (E : Type 0) : Type 0 where
  pub name : Text
  pub on_connect : ConnectionInfo → E → E
  pub on_disconnect : ConnectionInfo → E → E

-- a source that keeps the trait's own callbacks, which do nothing
unfoldable pub with_default_callbacks : {E : Type 0} → Text → MessageSource E
with_default_callbacks name = record {
  name = name;
  on_connect = λ info env. env;
  on_disconnect = λ info env. env;
}

unfoldable pub noop_source : {E : Type 0} → MessageSource E
unfolding with_default_callbacks
noop_source = with_default_callbacks (codes "Noop")

unfoldable pub channel_source : {E : Type 0} → MessageSource E
unfolding with_default_callbacks
channel_source = with_default_callbacks (codes "Channel")
