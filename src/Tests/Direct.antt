-- ===== src/Tests/Direct.antt =====
-- The direct push source: a loop of one message, and the tasks of two clients of which one gives up.
use mathlib.Core.Option
use sse_gateway.Prelude.{
  ℕ, zero, suc, ◌+◌, ◌<◌, ◌≡◌, refl, Text, codes, text_dec, Option, none, some, Bool, true, false,
  ◌≤◌, List, [], ◌∷◌, arith,
}
use sse_gateway.Extern.Samples.{text_json, assoc_map, queues, Queues, without, fields_frame}
use sse_gateway.Source.{IncomingMessage}
use sse_gateway.Source.Loop.{Event, received, closed}
use sse_gateway.Manager
use sse_gateway.Manager.{register}
use sse_gateway.Storage.Memory
use sse_gateway.Storage.Memory.{memory_storage}
use sse_gateway.Session.{open_session}
use sse_gateway.System.{System, Session, Steps, entered, aborted, here, next, enter, abort}
use sse_gateway.System.Safety.{initial}
use sse_gateway.Server.Instances
use sse_gateway.Server.Instances.{tick, register_and_start_heartbeat}
use sse_gateway.Server.Direct.{
  DirectPushSource, stopped, already_started, start, ChannelTask, lifecycle,
}
use sse_gateway.Server.Direct.Ends.{start_ends}
use sse_gateway.Server.Direct.Balance.{
  registrations, releases, times, channels, all_unanswered, callbacks_balance,
}
use sse_gateway.Redis.Storage.{RedisStorage}
use sse_gateway.Gateway.Builder.{Gateway, ok}
use sse_gateway.Server.Start.{main, config, main_builds}
use sse_gateway.Tests.Fixtures.{no_channels}
use sse_gateway.Tests.Sessions.{visitor}

abbrev ping : IncomingMessage
ping = record {
  channel_id = some (codes "room");
  event_type = codes "message";
  payload = codes "ping";
  id = none;
}

abbrev rounds : ℕ → Event IncomingMessage
rounds zero = received ping
rounds (suc i) = closed

abbrev source : DirectPushSource Text
source = record {
  push_port = 9000;
  receiver = some 0;
  sender = 0;
  service_registry = record {
    instance_id = codes "gw-1";
    instance_addr = codes "10.0.0.1:9000";
    heartbeat_interval = 10;
    instance_ttl = 30;
  };
  channel_registry = record { instance_id = codes "gw-1"; channel_ttl = 60 };
  storage = record {
    redis = none;
    max_per_channel = 10;
    counter = 0;
    ttl_seconds = 60;
    queue = [];
  };
}

before : (i : ℕ) → i < 1 → rounds i ≡ received ping
before zero h = refl
before (suc i) h = ground (arith, h)

start_ends_example :
    (start true 100 (tick 110 ∷ []) 5 rounds source
      ≡ some (record {
        outcome = stopped;
        after = record source { receiver = none };
        pipelines = register_and_start_heartbeat 100 (tick 110 ∷ []) source.service_registry;
        messages = ping ∷ [];
      }))
    × ((bound : Bool) (later : ℕ) (beats' : List Instances.Beat) (fuel' : ℕ)
          (rounds' : ℕ → Event IncomingMessage)
        → start bound later beats' fuel' rounds' (record source { receiver = none })
          ≡ some (record {
            outcome = already_started;
            after = record source { receiver = none };
            pipelines = [];
            messages = [];
          }))
start_ends_example =
    start_ends 100 (tick 110 ∷ []) 1 5 rounds (λ i. ping) source 0 refl before refl (omega arith)

abbrev empty : System memory_storage (List ChannelTask)
empty = initial (codes "gw-1") no_channels (Memory.new 10) []

abbrev one : System memory_storage (List ChannelTask)
one = enter {Response = Text} (codes "a") 1000 visitor (lifecycle none) empty

abbrev two : System memory_storage (List ChannelTask)
two = enter {Response = Text} (codes "b") 1001 visitor (lifecycle none) one

abbrev waiting : Text → ℕ → Session
waiting uuid receiver = record {
  request = visitor;
  info = record { channel_id = codes "room"; connection_id = uuid; instance_id = codes "gw-1" };
  receiver = receiver;
  replay = none;
}

abbrev left_alone : System memory_storage (List ChannelTask)
left_alone = abort (waiting (codes "b") 1) (waiting (codes "a") 0 ∷ []) two

-- "b" gives up before it is answered.
giving_up : Steps (lifecycle {Response = Text} none) empty left_alone
unfolding enter open_session register Manager.new Option.bind lifecycle without text_dec
giving_up =
    next
      (next (next here (entered (codes "a") 1000 visitor refl refl))
        (entered (codes "b") 1001 visitor refl refl))
      (aborted (waiting (codes "a") 0 ∷ []) (waiting (codes "b") 1) [] refl refl)

callbacks_balance_example :
    registrations (codes "room") left_alone.world.env
    ≡ releases (codes "room") left_alone.world.env
      + times (codes "room") (channels left_alone.sessions)
      + times (codes "room") (all_unanswered giving_up)
callbacks_balance_example =
    callbacks_balance none (codes "room") (codes "gw-1") no_channels (Memory.new 10) giving_up

abbrev no_pushes : Queues IncomingMessage
no_pushes = record { next = 0; closed = λ s. false; queue = λ s. [] }

abbrev no_variables : Text → Option Text
no_variables name = none

main_builds_example :
    (g : Gateway (DirectPushSource Text) (RedisStorage Text) Text) × (main no_variables
        (codes "u")
        (λ url. some url)
        no_pushes
      ≡ some (ok g))
    × (g.port ≤ 65535)
    × (g.source.push_port ≤ 65535)
    × (g.source.receiver ≡ some g.source.sender)
    × (g.storage.redis ≡ some (codes "redis://localhost:6379"))
    × (g.source.storage ≡ g.storage)
    × (g.source.service_registry.instance_id ≡ g.connection_manager.instance_id)
    × (g.source.channel_registry.instance_id ≡ g.connection_manager.instance_id)
unfolding config
main_builds_example =
    main_builds no_variables (codes "u") (λ url. some url) no_pushes
      (codes "redis://localhost:6379") refl
