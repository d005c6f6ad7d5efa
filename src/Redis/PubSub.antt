-- ===== src/Redis/PubSub.antt =====
-- The Redis Pub/Sub source (crates/sse-gateway-redis/src/pubsub.rs): notifications as messages. A
-- notification is the name of its channel and its payload's bytes.
use sse_gateway.Prelude.{Text, codes, Option, none, some, List, [], ◌∷◌, ◌++◌}
use sse_gateway.Std.Utf8.{from_utf8}
use sse_gateway.Source.{IncomingMessage}
use sse_gateway.Source.Loop.{Event, forward}

pub record RedisPubSubSource : Type 0 where
  pub redis_url : Text
  pub patterns : List Text

unfoldable pub new : Text → List Text → RedisPubSubSource
new redis_url patterns = record { redis_url = redis_url; patterns = patterns }

unfoldable pub with_defaults : Text → RedisPubSubSource
unfolding new
with_defaults redis_url = new redis_url (codes "*" ∷ [])

incoming : Text → Option Text → List IncomingMessage
incoming channel none = []
incoming channel (some payload) =
    (record {
      channel_id = some channel;
      event_type = codes "message";
      payload = payload;
      id = none;
    })
    ∷ []

-- what the handler is called with for a list of notifications
pub convert : List (Text × Text) → List IncomingMessage
unfolding incoming
convert [] = []
convert ((channel, bytes) ∷ l) = incoming channel (from_utf8 bytes) ++ convert l

-- the loop of `start`: cancelled, a notification, or the end of the stream
unfoldable pub start : List (Event (Text × Text)) → List IncomingMessage
unfolding convert
start rounds = convert (forward rounds)
