-- ===== src/Redis/Storage.antt =====
-- storage.rs of the Redis crate: streams written in batches (crates/sse-gateway-redis/src/storage.rs).
-- The server is what answers a pipeline or a query; its answer is an argument.
pub mod Batch
pub mod Entries
pub mod Flush
use mathlib.Core.Option
use sse_gateway.Prelude.{
  ℕ, ◌+◌, ◌%◌, ◌^◌, Text, codes, ◌==◌, Option, none, some, is_some, Bool, true, false, ◌&&◌, List,
  [], ◌∷◌, ◌++◌, length, contains, is_empty, leb, ltb, if◌then◌else◌,
}
use sse_gateway.Extern.Json.{Json}
use sse_gateway.Std.Decimal.{ℤ, parse_u64}
use sse_gateway.Std.Split.{split}
use sse_gateway.Event
use sse_gateway.Event.{SseEvent, EventData, raw}
use sse_gateway.Storage.Memory.{stream_id_text}
use sse_gateway.Redis.Command.{Command, Arg, text, number, Value, bulk_string, simple_string, other}

abbrev pub max_messages_per_channel : ℕ
max_messages_per_channel = 100

abbrev pub batch_size : ℕ
batch_size = 100

abbrev pub default_ttl_seconds : ℕ
default_ttl_seconds = 3600

abbrev pub queue_capacity : ℕ
queue_capacity = 10000

pub record StoreRequest : Type 0 where
  pub channel_id : Text
  pub stream_id : Text
  pub event_type : Text
  pub payload : Text
  pub id : Option Text

-- The fields of `RedisStorage`, with the requests that wait in its channel.
pub record RedisStorage (Connection : Type 0) : Type 0 where
  pub redis : Option Connection
  pub max_per_channel : ℕ
  pub counter : ℕ
  pub ttl_seconds : ℕ
  pub queue : List StoreRequest

module _ {Connection : Type 0} where
  unfoldable pub with_options : ℕ → ℕ → RedisStorage Connection
  with_options max_per_channel ttl_seconds = record {
    redis = none;
    max_per_channel = max_per_channel;
    counter = 0;
    ttl_seconds = ttl_seconds;
    queue = [];
  }

  unfoldable pub new : RedisStorage Connection
  unfolding with_options
  new = with_options max_messages_per_channel default_ttl_seconds

  unfoldable pub with_max_messages : ℕ → RedisStorage Connection
  unfolding with_options
  with_max_messages max_per_channel = with_options max_per_channel default_ttl_seconds

  unfoldable pub generate_id : ℤ → RedisStorage Connection → Text × RedisStorage Connection
  generate_id ts s = (stream_id_text ts s.counter, record s { counter = (s.counter + 1) % 2 ^ 64 })

  unfoldable pub is_available : RedisStorage Connection → Bool
  is_available s = is_some s.redis

unfoldable pub stream_key : Text → Text
stream_key channel_id = codes "sse:stream:" ++ channel_id

unfoldable pub both_numeric : List Text → Bool
both_numeric (a ∷ b ∷ []) = is_some (parse_u64 a) && is_some (parse_u64 b)
both_numeric _ = false

unfoldable pub is_valid_stream_id : Text → Bool
unfolding both_numeric
is_valid_stream_id id = both_numeric (split b'-' id)

module _ ⦃J : Json⦄ where
  unfoldable pub store_request : Text → Text → SseEvent → StoreRequest
  store_request channel_id stream_id event = record {
    channel_id = channel_id;
    stream_id = stream_id;
    event_type = event.event_type;
    payload = Event.to_string event.payload;
    id = event.id;
  }

module _ ⦃J : Json⦄ {Connection : Type 0} where
  -- `try_send`: a request that does not fit is dropped.
  unfoldable pub store : Text → Text → SseEvent → RedisStorage Connection → RedisStorage Connection
  unfolding store_request
  store channel_id stream_id event s =
      if ltb (length s.queue) queue_capacity
      then record s { queue = s.queue ++ store_request channel_id stream_id event ∷ [] }
      else s

-- the query for the messages after an id
unfoldable pub range_query : Text → Text → ℕ → Command
unfolding stream_key
range_query channel_id after_id max_per_channel = record {
  name = codes "XRANGE";
  args =
      text (stream_key channel_id)
      ∷ text (b'(' ∷ after_id)
      ∷ text (codes "+")
      ∷ text (codes "COUNT")
      ∷ number max_per_channel
      ∷ [];
}
