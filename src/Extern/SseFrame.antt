-- ===== src/Extern/SseFrame.antt =====
-- `axum::response::sse::Event`, as a builder. `view` is what goes over the wire. A setter panics on
-- some texts; the laws speak of those that it accepts.
use sse_gateway.Prelude.{ℕ, ◌≡◌, Text, Option, none, some, Bool, true}

pub record Fields : Type 0 where
  pub event : Option Text
  pub payload : Option Text
  pub id : Option Text
  pub retry : Option ℕ

pub record SseFrame : Type 1 where
  pub Event : Type 0
  pub default : Event
  pub event : Text → Event → Event
  -- `data`
  pub payload : Text → Event → Event
  pub id : Text → Event → Event
  -- `retry(Duration::from_millis(ms))`
  pub retry : ℕ → Event → Event
  pub accepts_event : Text → Bool
  pub accepts_payload : Text → Bool
  pub accepts_id : Text → Bool
  pub view : Event → Fields
  pub view-default : view default ≡ record { event = none; payload = none; id = none; retry = none }
  pub view-event :
      (t : Text) (e : Event)
      → accepts_event t ≡ true
      → (view e).event ≡ none
      → view (event t e) ≡ record (view e) { event = some t }
  pub view-payload :
      (t : Text) (e : Event)
      → accepts_payload t ≡ true
      → (view e).payload ≡ none
      → view (payload t e) ≡ record (view e) { payload = some t }
  pub view-id :
      (t : Text) (e : Event)
      → accepts_id t ≡ true
      → (view e).id ≡ none
      → view (id t e) ≡ record (view e) { id = some t }
  pub view-retry :
      (ms : ℕ) (e : Event)
      → (view e).retry ≡ none
      → view (retry ms e) ≡ record (view e) { retry = some ms }
