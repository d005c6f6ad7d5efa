-- ===== src/Source/Loop.antt =====
-- `ChannelSource` and the loop of its `start`. Each round of `select!` sees the cancellation, a
-- message, or the end of the queue; which one is the scheduler's choice, so a run is a list of them.
use sse_gateway.Prelude.{Bool, true, false, List, [], ◌∷◌, Option, none, some}
use sse_gateway.Extern.Mpsc.{Mpsc}
use sse_gateway.Source.{IncomingMessage}

pub data Event {ℓ} (A : Type ℓ) : Type ℓ where
  cancelled : Event A
  received : A → Event A
  closed : Event A

pub data Outcome : Type 0 where
  stopped already_started : Outcome

module _ {ℓ} {A : Type ℓ} where
  -- the messages handed to the handler, in order
  pub forward : List (Event A) → List A
  forward [] = []
  forward (cancelled ∷ rest) = []
  forward (received msg ∷ rest) = msg ∷ forward rest
  forward (closed ∷ rest) = []

  -- `start` takes the receiver out of its `Option`; `started` says that it is gone.
  unfoldable pub start : Bool → List (Event A) → Outcome × Bool × List A
  unfolding forward
  start true rounds = (already_started, true, [])
  start false rounds = (stopped, true, forward rounds)

-- `NoopSource::start` waits for the cancellation; a round says whether it has come.
unfoldable pub noop_start : List Bool → Option Outcome
noop_start [] = none
noop_start (true ∷ rounds) = some stopped
noop_start (false ∷ rounds) = noop_start rounds

pub record ChannelSource ⦃N : Mpsc IncomingMessage⦄ : Type 0 where
  pub receiver : Option N.Sender

module _ ⦃N : Mpsc IncomingMessage⦄ where
  -- the source, and the sender of its queue
  unfoldable pub new : N.State → (ChannelSource × N.Sender) × N.State
  new w = let (sender, w') = N.channel 1000 w in ((record { receiver = some sender }, sender), w')
