-- ===== src/Examples/Timer.antt =====
-- The source of examples/custom_source.rs. `tick_data` prints the JSON object of a count and a time,
-- and a clock reading comes with each tick.
use sse_gateway.Prelude.{
  ℕ, zero, suc, ◌+◌, ◌%◌, ◌^◌, ◌<◌, ◌≡◌, ap, ◌∙◌, fun_ext, Text, codes, Option, none, some, List,
  [], ◌∷◌, arith,
}
use mathlib.Core.Option
use sse_gateway.Source
use sse_gateway.Source.{IncomingMessage, with_channel}
use sse_gateway.Server.Direct.Ends.{first}

pub record TimerSource : Type 0 where
  pub interval : ℕ
  pub channel_id : Text

unfoldable pub new : Text → ℕ → TimerSource
new channel_id interval = record { interval = interval; channel_id = channel_id }

-- what a round of `select!` sees
pub data Wake : Type 0 where
  cancelled : Wake
  ticked : Text → Wake

wraps : (count i : ℕ) → ((count + 1) % 2 ^ 64 + suc i) % 2 ^ 64 ≡ (count + suc (suc i)) % 2 ^ 64
wraps count i = omega arith

module _ (tick_data : ℕ → Text → Text) (source : TimerSource) where
  unfoldable pub tick_message : ℕ → Text → IncomingMessage
  tick_message count time =
      with_channel source.channel_id (Source.new (codes "tick") (tick_data count time))

  -- The loop, from a count of type `u64`. `none` is a loop that runs on after `fuel` rounds.
  unfoldable pub ticks : ℕ → ℕ → (ℕ → Wake) → Option (List IncomingMessage)
  unfolding tick_message
  ticks zero count rounds = none
  ticks (suc fuel) count rounds =
      let count' = (count + 1) % 2 ^ 64 in
      let rest = ticks fuel count' (λ i. rounds (suc i)) in
      elim (rounds 0) [
        | cancelled ↦ some []
        | ticked time ↦ Option.map (λ l. tick_message count' time ∷ l) rest
      ]

  unfoldable pub start : ℕ → (ℕ → Wake) → Option (List IncomingMessage)
  unfolding ticks
  start fuel rounds = ticks fuel 0 rounds

  ticks_lem :
      (n fuel count : ℕ) (rounds : ℕ → Wake) (times : ℕ → Text)
      → ((i : ℕ) → i < n → rounds i ≡ ticked (times i))
      → rounds n ≡ cancelled
      → n < fuel
      → ticks fuel count rounds
        ≡ some (first n (λ i. tick_message ((count + suc i) % 2 ^ 64) (times i)))
  unfolding ticks
  ticks_lem n zero count rounds times before e h = absurd (omega (arith, h))
  ticks_lem zero (suc fuel) count rounds times before e h = rw (ticks, e)
  ticks_lem (suc n) (suc fuel) count rounds times before e h =
      let count' = (count + 1) % 2 ^ 64 in
      let rest =
        ticks_lem n fuel count' (λ i. rounds (suc i)) (λ i. times (suc i))
          (λ i lt. before (suc i) (omega (arith, lt))) e (omega (arith, h)) in
      rw (ticks, before 0 (omega arith), rest)
        (ap (λ f. some (tick_message count' (times 0) ∷ first n f))
          (fun_ext λ i. ap (λ c. tick_message c (times (suc i))) (wraps count i)))

  -- If the rounds before the `n`-th are ticks and that one is the cancellation, then `n + 1`
  -- rounds of fuel or more are enough: `start` ends with one message for each tick, in order, with
  -- the counts from 1 on, which wrap around at 2^64.
  start_lem :
      (n fuel : ℕ) (rounds : ℕ → Wake) (times : ℕ → Text)
      → ((i : ℕ) → i < n → rounds i ≡ ticked (times i))
      → rounds n ≡ cancelled
      → n < fuel
      → start fuel rounds ≡ some (first n (λ i. tick_message (suc i % 2 ^ 64) (times i)))
  unfolding start
  start_lem n fuel rounds times before e h =
      ticks_lem n fuel 0 rounds times before e h
      ∙ ap (λ f. some (first n f))
          (fun_ext λ i. ap (λ c. tick_message (c % 2 ^ 64) (times i)) (omega arith))
