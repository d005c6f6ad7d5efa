-- ===== src/Examples/DirectPush.antt =====
-- The source of examples/direct_push_source.rs: a queue fed over HTTP, and a registry of the channels
-- that the lifecycle callbacks keep. The registry is what it finds for a channel. Serving the port is
-- I/O.
pub mod Registry
use mathlib.Core.Option
use sse_gateway.Prelude.{
  ℕ, Text, codes, ◌==◌, Option, none, some, Bool, true, false, List, [], ◌∷◌, if◌then◌else◌,
}
use sse_gateway.Extern.Json.{Json}
use sse_gateway.Extern.Mpsc.{Mpsc}
use sse_gateway.Source
use sse_gateway.Source.{IncomingMessage, ConnectionInfo, with_channel}
use sse_gateway.Source.Loop.{Event}
use sse_gateway.Server.Direct.{Outcome, already_started, not_bound, stopped, forward}

abbrev pub ChannelRegistry : Type 0
ChannelRegistry = Text → Option Text

pub record DirectPushSource ⦃N : Mpsc IncomingMessage⦄ : Type 0 where
  pub port : ℕ
  -- `start` takes it
  pub receiver : Option N.Sender
  pub sender : N.Sender
  pub channel_registry : ChannelRegistry
  pub gateway_addr : Text

module _ ⦃N : Mpsc IncomingMessage⦄ where
  unfoldable pub new : ℕ → Text → N.State → DirectPushSource × N.State
  new port gateway_addr w =
      let (sender, w') = N.channel 1000 w in
      (
        record {
          port = port;
          receiver = some sender;
          sender = sender;
          channel_registry = λ c. none;
          gateway_addr = gateway_addr;
        },
        w',
      )

  -- How `start` returns, the source after it, and the messages that the handler was called with.
  -- `bound` says that the listener got the port; `none` is a loop that runs on after `fuel` rounds.
  unfoldable pub start :
      Bool
      → ℕ
      → (ℕ → Event IncomingMessage)
      → DirectPushSource
      → Option (Outcome × DirectPushSource × List IncomingMessage)
  start bound fuel rounds source = elim source.receiver [
    | none ↦ some (already_started, source, [])
    | some receiver ↦
        let after = record source { receiver = none } in
        if bound
        then Option.map (λ messages. (stopped, after, messages)) (forward fuel rounds)
        else some (not_bound, after, [])
  ]

  -- The callbacks. `free` says that `try_write` got the lock; without it nothing happens.
  unfoldable pub on_connect : Bool → ConnectionInfo → DirectPushSource → DirectPushSource
  on_connect free info source =
      if free
      then record source {
        channel_registry = λ c.
            if c == info.channel_id then some source.gateway_addr else source.channel_registry c;
      }
      else source

  unfoldable pub on_disconnect : Bool → ConnectionInfo → DirectPushSource → DirectPushSource
  on_disconnect free info source =
      if free
      then record source {
        channel_registry = λ c. if c == info.channel_id then none else source.channel_registry c;
      }
      else source

pub record PushPayload ⦃J : Json⦄ : Type 0 where
  pub channel_id : Option Text
  pub event_type : Text
  pub payload : J.Value

pub record AppState ⦃N : Mpsc IncomingMessage⦄ : Type 0 where
  pub sender : N.Sender
  pub registry : ChannelRegistry

module _ ⦃J : Json⦄ ⦃N : Mpsc IncomingMessage⦄ where
  unfoldable pub handle_push : PushPayload → AppState → N.State → Text × N.State
  handle_push p state w =
      let msg = Source.new p.event_type (J.display p.payload) in
      let msg' : IncomingMessage = elim p.channel_id [
        | none ↦ msg
        | some channel_id ↦ with_channel channel_id msg
      ] in
      let (is_ok, w') = N.send state.sender msg' w in
      (if is_ok then codes "OK" else codes "ERROR", w')

  unfoldable pub get_registry : AppState → ChannelRegistry
  get_registry state = state.registry
