-- ===== src/Redis/Storage/Batch.antt =====
-- The loop of `start_batch_processor`. A round of `select!` gets a request, the end of the queue, or
-- a tick of the interval; `connected` says whether a connection is there when the round flushes.
pub mod Bounds
pub mod Conserve
pub mod Prompt
pub mod Written
use sse_gateway.Prelude.{
  Option, none, some, ℕ, Text, ◌+◌, ◌≤◌, ◌<◌, ◌≡◌, refl, sym, ap, ◌∙◌, Bool, true, false, List, [],
  ◌∷◌, ◌++◌, append_assoc, append-nil, length, length-append, is_empty, leb, if◌then◌else◌, arith,
  Bool-cases, inl, inr, All,
}
use sse_gateway.Redis.Command.{Command}
use sse_gateway.Redis.Storage.{StoreRequest, batch_size}
use sse_gateway.Redis.Storage.Flush.{flush_batch, left_by_flush_batch}

pub data Signal : Type 0 where
  request : StoreRequest → Signal
  closed : Signal
  tick : Signal

pub record Round : Type 0 where
  pub signal : Signal
  pub connected : Bool

-- The batch, the batches that `flush_batch` was called with, each with whether there was a connection,
-- and the commands of the pipelines that it has executed.
pub record Processor : Type 0 where
  pub batch : List StoreRequest
  pub flushed : List (Bool × List StoreRequest)
  pub written : List Command
  pub running : Bool

abbrev pub start : Processor
start = record { batch = []; flushed = []; written = []; running = true }

-- What the task keeps of the storage, and the order in which a hash set is iterated.
pub record Settings : Type 0 where
  pub shuffle : List Text → List Text
  pub max_per_channel : ℕ
  pub ttl_seconds : ℕ

-- what an executed pipeline sends
abbrev pub commands : Option (List Command) → List Command
commands none = []
commands (some l) = l

module _ (k : Settings) where
  flush : Bool → Processor → Processor
  flush connected p =
      let (pipeline, left) =
        flush_batch k.shuffle connected k.max_per_channel k.ttl_seconds p.batch in
      record p {
        batch = left;
        flushed = p.flushed ++ (connected, p.batch) ∷ [];
        written = p.written ++ commands pipeline;
      }

  pub on_signal : Signal → Bool → Processor → Processor
  unfolding flush
  on_signal (request req) connected p =
      let p' = record p { batch = p.batch ++ req ∷ [] } in
      if leb batch_size (length p'.batch) then flush connected p' else p'
  on_signal closed connected p = record p { running = false }
  on_signal tick connected p = if is_empty p.batch then p else flush connected p

  unfoldable pub round : Round → Processor → Processor
  unfolding on_signal
  round r p = if p.running then on_signal r.signal r.connected p else p

  pub rounds : List Round → Processor → Processor
  rounds [] p = p
  rounds (r ∷ rs) p = rounds rs (round r p)
