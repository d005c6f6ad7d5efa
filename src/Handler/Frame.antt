-- ===== src/Handler/Frame.antt =====
-- What `sse_event_to_axum` puts on the wire.
use sse_gateway.Prelude.{ℕ, ◌≡◌, Text, Option, none, some, true, arith}
use sse_gateway.Extern.Json.{Json}
use sse_gateway.Extern.SseFrame.{SseFrame}
use sse_gateway.Event
use sse_gateway.Event.{SseEvent}
use sse_gateway.Handler.{sse_event_to_axum, set_id, set_retry}

-- the stream id if there is one, else the business id
abbrev pub wire_id : Option Text → Option Text → Option Text
wire_id (some stream_id) id = some stream_id
wire_id none id = id

module _ ⦃J : Json⦄ ⦃F : SseFrame⦄ where
  abbrev pub IdAccepted : Option Text → Type 0
  IdAccepted none = Unit
  IdAccepted (some t) = F.accepts_id t ≡ true

  view-set_id :
      (stream_id id : Option Text) (e : F.Event)
      → IdAccepted (wire_id stream_id id)
      → (F.view e).id ≡ none
      → F.view (set_id stream_id id e) ≡ record (F.view e) { id = wire_id stream_id id }
  unfolding set_id
  view-set_id (some t) id e a n = F.view-id t e a n
  view-set_id none (some t) e a n = F.view-id t e a n
  view-set_id none none e a n = ground arith

  view-set_retry :
      (retry : Option ℕ) (e : F.Event)
      → (F.view e).retry ≡ none
      → F.view (set_retry retry e) ≡ record (F.view e) { retry = retry }
  unfolding set_retry
  view-set_retry none e n = ground arith
  view-set_retry (some ms) e n = F.view-retry ms e n

  -- If axum accepts the event's texts, the frame has the event's type, its data as text, its
  -- retry, and as id the stream id if there is one, else the business id if there is one.
  pub view-sse_event_to_axum :
      (e : SseEvent)
      → F.accepts_event e.event_type ≡ true
      → F.accepts_payload (Event.to_string e.payload) ≡ true
      → IdAccepted (wire_id e.stream_id e.id)
      → F.view (sse_event_to_axum e) ≡ record {
        event = some e.event_type;
        payload = some (Event.to_string e.payload);
        id = wire_id e.stream_id e.id;
        retry = e.retry;
      }
  unfolding sse_event_to_axum
  view-sse_event_to_axum e a b c =
      let e1 = F.event e.event_type F.default in
      let e2 = F.payload (Event.to_string e.payload) e1 in
      ground (
        arith,
        F.view-default,
        F.view-event e.event_type F.default a,
        F.view-payload (Event.to_string e.payload) e1 b,
        view-set_id e.stream_id e.id e2 c,
        view-set_retry e.retry (set_id e.stream_id e.id e2),
      )
