-- ===== src/Connection.antt =====
-- connection.rs: one SSE connection (crates/sse-gateway/src/connection.rs).
-- The fresh uuid and the time are arguments; the receiver is named by its channel's handle.
use sse_gateway.Prelude.{ℕ, Text, Option, Bool, not}
use sse_gateway.Extern.Json.{Json}
use sse_gateway.Extern.Mpsc.{Mpsc}
use sse_gateway.Event.{SseEvent}

pub record ConnectionMetadata : Type 0 where
  pub connected_at : ℕ
  pub instance_id : Text
  pub client_ip : Option Text
  pub user_agent : Option Text

pub record SseConnection ⦃J : Json⦄ ⦃M : Mpsc SseEvent⦄ : Type 0 where
  pub id : Text
  pub channel_id : Text
  pub sender : M.Sender
  pub metadata : ConnectionMetadata

module _ ⦃J : Json⦄ ⦃M : Mpsc SseEvent⦄ where
  unfoldable pub new :
      Text
      → ℕ
      → Text
      → Text
      → Option Text
      → Option Text
      → M.State
      → SseConnection × M.Sender × M.State
  new uuid now channel_id instance_id client_ip user_agent w =
      let (sender, w') = M.channel 100 w in
      (
        record {
          id = uuid;
          channel_id = channel_id;
          sender = sender;
          metadata = record {
            connected_at = now;
            instance_id = instance_id;
            client_ip = client_ip;
            user_agent = user_agent;
          };
        },
        sender,
        w',
      )

  abbrev pub is_active : SseConnection → M.State → Bool
  is_active c w = not (M.is_closed c.sender w)

  abbrev pub send : SseConnection → SseEvent → M.State → Bool × M.State
  send c event w = M.send c.sender event w
