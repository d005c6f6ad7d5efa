-- ===== src/Server/Direct.antt =====
-- `DirectPushSource` of src/main.rs: its start and its lifecycle callbacks, which spawn a task each.
pub mod Ends
pub mod Balance
use mathlib.Core.Option
use sse_gateway.Prelude.{
  ℕ, zero, suc, Text, Option, none, some, Bool, true, false, List, [], ◌∷◌, ◌++◌, if◌then◌else◌,
}
use sse_gateway.Extern.Keyspace.{Keyspace}
use sse_gateway.Extern.Mpsc.{Mpsc}
use sse_gateway.Auth.{AuthRequest}
use sse_gateway.Source.{IncomingMessage, ConnectionInfo}
use sse_gateway.Handler.{Callbacks}
use sse_gateway.Source.Loop.{Event, cancelled, received, closed}
use sse_gateway.Redis.Command.{Command}
use sse_gateway.Redis.Storage.{RedisStorage}
use sse_gateway.Server.Channels.{ChannelRegistry, register_channel, unregister_channel}
use sse_gateway.Server.Instances.{ServiceRegistry, Beat, register_and_start_heartbeat}

pub record DirectPushSource ⦃N : Mpsc IncomingMessage⦄ (Connection : Type 0) : Type 0 where
  pub push_port : ℕ
  -- `start` takes it
  pub receiver : Option N.Sender
  pub sender : N.Sender
  pub service_registry : ServiceRegistry
  pub channel_registry : ChannelRegistry
  pub storage : RedisStorage Connection

-- how `start` returns
pub data Outcome : Type 0 where
  already_started not_bound stopped : Outcome

-- `messages` are those that the handler was called with; `pipelines` those of the heartbeat task.
pub record Started ⦃N : Mpsc IncomingMessage⦄ (Connection : Type 0) : Type 0 where
  pub outcome : Outcome
  pub after : DirectPushSource Connection
  pub pipelines : List (ℕ × List Command)
  pub messages : List IncomingMessage

-- What a round sees, and the messages of the later rounds.
unfoldable pub round {ℓ} : {A : Type ℓ} → Event A → Option (List A) → Option (List A)
round cancelled rest = some []
round (received msg) rest = Option.map (λ l. msg ∷ l) rest
round closed rest = some []

-- The loop of `start`: the messages that it hands to the handler. `none` is a loop that runs on after
-- `fuel` rounds.
unfoldable pub forward {ℓ} : {A : Type ℓ} → ℕ → (ℕ → Event A) → Option (List A)
unfolding round
forward zero rounds = none
forward (suc fuel) rounds = round (rounds 0) (forward fuel (λ i. rounds (suc i)))

module _ ⦃N : Mpsc IncomingMessage⦄ {Connection : Type 0} where
  unfoldable pub new :
      ℕ
      → ServiceRegistry
      → ChannelRegistry
      → RedisStorage Connection
      → N.State
      → DirectPushSource Connection × N.State
  new push_port service_registry channel_registry storage w =
      let (sender, w') = N.channel 1000 w in
      (
        record {
          push_port = push_port;
          receiver = some sender;
          sender = sender;
          service_registry = service_registry;
          channel_registry = channel_registry;
          storage = storage;
        },
        w',
      )

  -- `bound` says that the listener got the push port.
  unfoldable pub start :
      Bool
      → ℕ
      → List Beat
      → ℕ
      → (ℕ → Event IncomingMessage)
      → DirectPushSource Connection
      → Option (Started Connection)
  start bound now beats fuel rounds source = elim source.receiver [
    | none ↦
        some (record { outcome = already_started; after = source; pipelines = []; messages = [] })
    | some receiver ↦
        let after = record source { receiver = none } in
        let pipelines = register_and_start_heartbeat now beats source.service_registry in
        if bound
        then Option.map
            (λ messages. record {
              outcome = stopped;
              after = after;
              pipelines = pipelines;
              messages = messages;
            })
            (forward fuel rounds)
        else some
            (record { outcome = not_bound; after = after; pipelines = pipelines; messages = [] })
  ]

-- the tasks that the callbacks spawn
pub data ChannelTask : Type 0 where
  registering : Text → ChannelTask
  releasing : Text → ChannelTask

unfoldable pub on_connect : ConnectionInfo → List ChannelTask → List ChannelTask
on_connect info tasks = tasks ++ registering info.channel_id ∷ []

unfoldable pub on_disconnect : ConnectionInfo → List ChannelTask → List ChannelTask
on_disconnect info tasks = tasks ++ releasing info.channel_id ∷ []

-- `Gateway::run` gives the source's callbacks to the handlers.
unfoldable pub lifecycle :
    {Response : Type 0}
    → Option (AuthRequest → Option Response)
    → Callbacks Response (List ChannelTask)
lifecycle auth = record {
  auth = auth;
  on_connect = some on_connect;
  on_disconnect = some on_disconnect;
}

module _ ⦃K : Keyspace⦄ where
  unfoldable pub run_channel_task : ChannelTask → ChannelRegistry → K.Db → K.Db
  run_channel_task (registering c) r db = register_channel c r db
  run_channel_task (releasing c) r db = unregister_channel c r db
