-- ===== src/Tests/Batches.antt =====
-- The Redis storage's batches and replays at small inputs.
use Prim.Native.String.{String}
use sse_gateway.Prelude.{
  ◌++◌, ℕ, ◌≡◌, refl, codes, Option, some, true, [], ◌∷◌, List, arith, lookup, drop,
}
use sse_gateway.Extern.Samples.{text_json}
use sse_gateway.Std.Decimal.{pos}
use sse_gateway.Std.Utf8.{is_utf8}
use sse_gateway.Storage.Memory.{stream_id_text}
use sse_gateway.Redis.Command.{Command}
use sse_gateway.Redis.Storage.{RedisStorage, StoreRequest}
use sse_gateway.Redis.Storage.Flush.{xadd, xadds}
use sse_gateway.Redis.Storage.Batch.{Round, Settings, request, closed, tick, rounds, start}
use sse_gateway.Redis.Storage.Batch.Bounds.{IsBounded, rounds-IsBounded}
use sse_gateway.Redis.Storage.Batch.Conserve.{everything, requests}
use sse_gateway.Redis.Storage.Batch.Written.{rounds_written, xadds_of, sent}
use sse_gateway.Redis.Storage.Batch.Prompt.{flushed_by_tick}
use sse_gateway.Redis.Storage.Entries.{
  StreamId, get_messages_after, redis_replay, field_pairs, bulk, stored_event, Keeps, IsText,
}

abbrev req : String → StoreRequest
req channel = record {
  channel_id = codes channel;
  stream_id = codes "5-1";
  event_type = codes "message";
  payload = codes "hi";
  id = some (codes "u");
}

abbrev run : List Round
run =
    record { signal = request (req "a"); connected = true }
    ∷ record { signal = tick; connected = true }
    ∷ record { signal = request (req "b"); connected = true }
    ∷ record { signal = closed; connected = true }
    ∷ []

abbrev settings : Settings
settings = record { shuffle = λ keys. keys; max_per_channel = 100; ttl_seconds = 3600 }

rounds_written_example :
    let p = rounds settings run start in
    (everything p ≡ req "a" ∷ req "b" ∷ []) × (xadds p.written ≡ xadds_of settings (sent p.flushed))
rounds_written_example = rounds_written settings run

-- "a" comes, then "b"
abbrev arriving : List Round
arriving =
    record { signal = request (req "a"); connected = true }
    ∷ record { signal = request (req "b"); connected = true }
    ∷ []

flushed_by_tick_example :
    let p = rounds settings (arriving ++ record { signal = tick; connected = true } ∷ []) start in
    (p.batch ≡ []) × (requests p.flushed ≡ req "a" ∷ req "b" ∷ [])
flushed_by_tick_example = flushed_by_tick settings arriving true refl

rounds-IsBounded_example : IsBounded (rounds settings run start)
rounds-IsBounded_example = rounds-IsBounded settings run

abbrev entry : StreamId
entry = record {
  id = codes "5-1";
  map = λ name. bulk (lookup name (field_pairs (drop 5 (xadd 100 (req "a")).args)));
}

entry-Keeps : Keeps 100 (req "a") entry
entry-Keeps = record { id = refl; fields = λ name. refl }

req-IsText : IsText (req "a")
unfolding is_utf8
req-IsText = record { event_type = refl; payload = refl; id = λ i e. cc }

abbrev connected : RedisStorage ℕ
connected = record {
  redis = some 7;
  max_per_channel = 100;
  counter = 2;
  ttl_seconds = 3600;
  queue = [];
}

-- a server with one entry
abbrev server : ℕ → Command → Option (List StreamId)
server conn query = some (entry ∷ [])

redis_replay_example :
    get_messages_after server (codes "a") (some (stream_id_text (pos 5) 0)) connected
    ≡ stored_event (req "a") ∷ []
redis_replay_example =
    redis_replay server 7 connected (codes "a") 5 0 (req "a" ∷ []) (entry ∷ []) refl (omega arith)
      (omega arith) refl (req-IsText, entry-Keeps, tt)
