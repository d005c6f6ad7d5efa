-- ===== src/Examples/Webhook.antt =====
-- The source of examples/webhook_source.rs: requests over HTTP become messages in its own queue, and
-- its loop hands them to the gateway. Serving the port is I/O.
pub mod Posts
use mathlib.Core.Option
use sse_gateway.Prelude.{ℕ, Text, codes, Option, none, some, Bool, List, [], ◌∷◌, if◌then◌else◌}
use sse_gateway.Extern.Json.{Json}
use sse_gateway.Extern.Mpsc.{Mpsc}
use sse_gateway.Source
use sse_gateway.Source.{IncomingMessage, with_channel}
use sse_gateway.Source.Loop.{Event}
use sse_gateway.Server.Direct.{Outcome, already_started, not_bound, stopped, forward}

pub record WebhookSource ⦃N : Mpsc IncomingMessage⦄ : Type 0 where
  pub port : ℕ
  -- `start` takes it
  pub receiver : Option N.Sender
  pub sender : N.Sender

pub record WebhookPayload ⦃J : Json⦄ : Type 0 where
  pub channel_id : Option Text
  pub event_type : Text
  pub payload : J.Value

module _ ⦃J : Json⦄ where
  -- the message of a request: its channel is set if the request has one
  unfoldable pub webhook_message : WebhookPayload → IncomingMessage
  webhook_message p =
      let msg = Source.new p.event_type (J.display p.payload) in
      elim p.channel_id [ none ↦ msg | some channel_id ↦ with_channel channel_id msg ]

module _ ⦃N : Mpsc IncomingMessage⦄ where
  unfoldable pub new : ℕ → N.State → WebhookSource × N.State
  new port w =
      let (sender, w') = N.channel 1000 w in
      (record { port = port; receiver = some sender; sender = sender }, w')

  -- How `start` returns, the source after it, and the messages that the handler was called with.
  -- `bound` says that the listener got the port; `none` is a loop that runs on after `fuel` rounds.
  unfoldable pub start :
      Bool
      → ℕ
      → (ℕ → Event IncomingMessage)
      → WebhookSource
      → Option (Outcome × WebhookSource × List IncomingMessage)
  start bound fuel rounds source = elim source.receiver [
    | none ↦ some (already_started, source, [])
    | some receiver ↦
        let after = record source { receiver = none } in
        if bound
        then Option.map (λ messages. (stopped, after, messages)) (forward fuel rounds)
        else some (not_bound, after, [])
  ]

module _ ⦃J : Json⦄ ⦃N : Mpsc IncomingMessage⦄ where
  unfoldable pub handle_webhook : WebhookPayload → N.Sender → N.State → Text × N.State
  handle_webhook p sender w =
      let (is_ok, w') = N.send sender (webhook_message p) w in
      (if is_ok then codes "OK" else codes "ERROR", w')
