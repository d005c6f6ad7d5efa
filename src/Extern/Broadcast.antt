-- ===== src/Extern/Broadcast.antt =====
-- Tokio's broadcast channel, `tokio::sync::broadcast`, of clock readings. What a receiver yields are
-- the values sent since it subscribed, in order, with an error in place of those that it was too slow
-- for.
use sse_gateway.Prelude.{◌≡◌, List, [], ◌∷◌, ◌++◌}
use sse_gateway.Std.Decimal.{ℤ}

pub record Broadcast : Type 1 where
  pub State : Type 0
  pub Receiver : Type 0
  -- `send`, whatever it returns
  pub send : ℤ → State → State
  pub subscribe : State → Receiver × State
  -- the values sent since a receiver subscribed
  pub since : Receiver → State → List ℤ
  pub since-send : (r : Receiver) (ts : ℤ) (w : State) → since r (send ts w) ≡ since r w ++ ts ∷ []
  pub since-subscribe : (w : State) → since (subscribe w).0 (subscribe w).1 ≡ []
