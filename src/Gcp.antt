-- ===== src/Gcp.antt =====
-- The GCP Pub/Sub source (crates/sse-gateway-gcp/src/lib.rs): a received message as the gateway's.
-- `lossy` is `String::from_utf8_lossy`. The client library's calls are arguments: `with_auth` and
-- `connect` say whether they worked, and `receive` how the subscription ended, with the messages for
-- which it called the callback and whether the acknowledgement of each worked.
use mathlib.Core.Option
use sse_gateway.Prelude.{Text, codes, Option, Bool, List, [], ◌∷◌, if◌then◌else◌}
use sse_gateway.Source.{IncomingMessage}

pub record GcpPubSubSource : Type 0 where
  pub project_id : Text
  pub subscription_id : Text

unfoldable pub new : Text → Text → GcpPubSubSource
new project_id subscription_id = record {
  project_id = project_id;
  subscription_id = subscription_id;
}

pub record PubSubMessage : Type 0 where
  pub attributes : Text → Option Text
  pub payload : Text

unfoldable pub gcp_message : (Text → Text) → PubSubMessage → IncomingMessage
gcp_message lossy msg = record {
  channel_id = msg.attributes (codes "channel_id");
  event_type = Option.get_or (msg.attributes (codes "event_type")) (codes "message");
  payload = lossy msg.payload;
  id = msg.attributes (codes "id");
}

-- What the callback of a message does, in order: the handler is called, then the message is
-- acknowledged. A failed acknowledgement is only logged.
pub data Effect : Type 0 where
  handled : IncomingMessage → Effect
  acked : Bool → Effect

unfoldable pub callbacks : (Text → Text) → List (PubSubMessage × Bool) → List Effect
unfolding gcp_message
callbacks lossy [] = []
callbacks lossy ((msg, is_ok) ∷ l) =
    handled (gcp_message lossy msg) ∷ acked is_ok ∷ callbacks lossy l

pub data Outcome : Type 0 where
  no_auth no_client receive_failed stopped : Outcome

unfoldable pub start :
    (Text → Text)
    → Bool
    → Bool
    → (Text → Bool × List (PubSubMessage × Bool))
    → GcpPubSubSource
    → Outcome × List Effect
unfolding callbacks
start lossy with_auth connect receive source =
    let (is_ok, messages) = receive source.subscription_id in
    if with_auth
    then if connect
      then (if is_ok then stopped else receive_failed, callbacks lossy messages)
      else (no_client, [])
    else (no_auth, [])
