-- ===== src/Manager/Heartbeats.antt =====
-- The heartbeats: `send_heartbeat` and `subscribe_heartbeat` of crates/sse-gateway/src/manager.rs, on
-- the state of the manager's broadcast channel, and the task of `Gateway::run` that sends them
-- (crates/sse-gateway/src/gateway.rs).
use sse_gateway.Prelude.{
  ℕ, zero, suc, ◌<◌, ◌≡◌, sym, ap, ◌∙◌, Option, none, some, List, [], ◌∷◌, ◌++◌, append-nil,
  append_assoc, arith,
}
use sse_gateway.Extern.Broadcast.{Broadcast}
use sse_gateway.Std.Decimal.{ℤ}

-- what a round of `select!` sees; a tick comes with the reading of the clock
pub data Signal : Type 0 where
  cancelled : Signal
  tick : ℤ → Signal

-- the first `n` readings
abbrev pub first : ℕ → (ℕ → ℤ) → List ℤ
first zero f = []
first (suc n) f = f 0 ∷ first n (λ i. f (suc i))

module _ ⦃B : Broadcast⦄ where
  unfoldable pub send_heartbeat : ℤ → B.State → B.State
  send_heartbeat ts heartbeat_tx = B.send ts heartbeat_tx

  unfoldable pub subscribe_heartbeat : B.State → B.Receiver × B.State
  subscribe_heartbeat heartbeat_tx = B.subscribe heartbeat_tx

  -- `none` is a task that runs on after `fuel` rounds.
  unfoldable pub heartbeat_task : ℕ → (ℕ → Signal) → B.State → Option B.State
  unfolding send_heartbeat
  heartbeat_task zero rounds w = none
  heartbeat_task (suc fuel) rounds w = elim (rounds 0) [
    | cancelled ↦ some w
    | tick ts ↦ heartbeat_task fuel (λ i. rounds (suc i)) (send_heartbeat ts w)
  ]

  -- A receiver that subscribed before the task misses none of its heartbeats, up to the cancellation.
  since-heartbeat_task :
      (n fuel : ℕ) (rounds : ℕ → Signal) (times : ℕ → ℤ) (r : B.Receiver) (w : B.State)
      → ((i : ℕ) → i < n → rounds i ≡ tick (times i))
      → rounds n ≡ cancelled
      → n < fuel
      → (w' : B.State) × (heartbeat_task fuel rounds w ≡ some w')
        × (B.since r w' ≡ B.since r w ++ first n times)
  unfolding heartbeat_task send_heartbeat
  since-heartbeat_task n zero rounds times r w before e h = absurd (omega (arith, h))
  since-heartbeat_task zero (suc fuel) rounds times r w before e h =
      (w, rw (heartbeat_task, e), sym (append-nil (B.since r w)))
  since-heartbeat_task (suc n) (suc fuel) rounds times r w before e h =
      let (w', run, rest) =
        since-heartbeat_task n fuel (λ i. rounds (suc i)) (λ i. times (suc i)) r
          (B.send (times 0) w) (λ i lt. before (suc i) (omega (arith, lt))) e (omega (arith, h)) in
      (
        w',
        rw (heartbeat_task, before 0 (omega arith)) run,
        rest
            ∙ ap (λ l. l ++ first n (λ i. times (suc i))) (B.since-send r (times 0) w)
            ∙ append_assoc (B.since r w) (times 0 ∷ []) (first n (λ i. times (suc i))),
      )

  -- Let a stream subscribe, and `rounds` be those of the task from there on. If the rounds before
  -- the `n`-th are ticks and that one is the cancellation, then `n + 1` rounds of fuel or more are
  -- enough: the task ends, and the stream was sent the clock readings of the ticks, in order.
  heartbeats_since_subscription :
      (n fuel : ℕ) (rounds : ℕ → Signal) (times : ℕ → ℤ) (w : B.State)
      → ((i : ℕ) → i < n → rounds i ≡ tick (times i))
      → rounds n ≡ cancelled
      → n < fuel
      → (w' : B.State) × (heartbeat_task fuel rounds (subscribe_heartbeat w).1 ≡ some w')
        × (B.since (subscribe_heartbeat w).0 w' ≡ first n times)
  unfolding subscribe_heartbeat
  heartbeats_since_subscription n fuel rounds times w before e h =
      let (r, w1) = B.subscribe w in
      let (w', run, all) = since-heartbeat_task n fuel rounds times r w1 before e h in
      (w', run, all ∙ ap (λ l. l ++ first n times) (B.since-subscribe w))
