-- ===== src/Session/Stream.antt =====
-- The stream of a response: the replay, and behind it the events and the heartbeats in turn.
pub mod Read
use sse_gateway.Prelude.{
  Text, codes, Option, none, some, Bool, true, false, List, [], ◌∷◌, ◌++◌, map,
}
use sse_gateway.Extern.Json.{Json}
use sse_gateway.Extern.Mpsc.{Mpsc}
use sse_gateway.Extern.SseFrame.{SseFrame}
use sse_gateway.Std.Decimal.{ℤ}
use sse_gateway.Event.{SseEvent}
use sse_gateway.Handler.{sse_event_to_axum}
use sse_gateway.Session.{SseStream}

-- `filter_map(|r| r.ok())`: a receiver of the broadcast channel that was too slow yields an error.
unfoldable pub oks : List (Option ℤ) → List ℤ
oks [] = []
oks (none ∷ l) = oks l
oks (some ts ∷ l) = ts ∷ oks l

-- `futures::stream::select`. A turn says which side is asked; one that has nothing yet is passed over.
unfoldable pub select {ℓ} : {A : Type ℓ} → List Bool → List A → List A → List A
select [] a b = []
select (true ∷ turns) [] b = select turns [] b
select (true ∷ turns) (x ∷ a) b = x ∷ select turns a b
select (false ∷ turns) a [] = select turns a []
select (false ∷ turns) a (y ∷ b) = y ∷ select turns a b

-- `ts_text` prints the JSON object of a time.
module _ ⦃J : Json⦄ ⦃F : SseFrame⦄ (ts_text : ℤ → Text) where
  unfoldable pub heartbeat : ℤ → F.Event
  heartbeat ts = F.payload (ts_text ts) (F.event (codes "heartbeat") F.default)

  module _ ⦃M : Mpsc SseEvent⦄ where
    -- What a client reads once its channel accepted what it did by then: `beats` is what the
    -- broadcast channel of the heartbeats has yielded since the response began.
    unfoldable pub read : List Bool → List (Option ℤ) → SseStream → M.State → List F.Event
    unfolding oks select heartbeat
    read turns beats stream wires =
        stream.replay
        ++ select turns (map sse_event_to_axum (M.accepted stream.receiver wires))
            (map heartbeat (oks beats))
