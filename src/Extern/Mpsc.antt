-- ===== src/Extern/Mpsc.antt =====
-- Tokio's bounded channel, `tokio::sync::mpsc`. `State` is the state of all channels; a `Sender` is
-- a handle, and its clones are equal. A send is modelled once its await has returned: the wait for a
-- free slot is the scheduler's.
use mathlib.Core.Path.{◌≡◌}
use sse_gateway.Prelude.{ℕ, ◌≢◌, Bool, true, false, not, List, [], ◌∷◌, ◌++◌, if◌then◌else◌}

pub record Mpsc (A : Type 0) : Type 1 where
  pub State : Type 0
  pub Sender : Type 0
  -- the channel was made before
  pub IsMade : State → Sender → Type 0
  -- `channel(capacity)`
  pub channel : ℕ → State → Sender × State
  -- `is_closed`: the receiver was dropped
  pub is_closed : Sender → State → Bool
  -- `send(a).await.is_ok()`
  pub send : Sender → A → State → Bool × State
  -- the receiver is dropped
  pub close : Sender → State → State
  -- the values that the channel has accepted, oldest first: what its receiver yields
  pub accepted : Sender → State → List A
  pub send_result : (s : Sender) (a : A) (w : State) → (send s a w).0 ≡ not (is_closed s w)
  pub accepted-send_self :
      (s : Sender) (a : A) (w : State)
      → accepted s (send s a w).1 ≡ (if is_closed s w then accepted s w else accepted s w ++ a ∷ [])
  pub accepted-send_ne :
      (s t : Sender) (a : A) (w : State) → s ≢ t → accepted s (send t a w).1 ≡ accepted s w
  pub is_closed-send :
      (s t : Sender) (a : A) (w : State) → is_closed s (send t a w).1 ≡ is_closed s w
  pub send_keeps : (s t : Sender) (a : A) (w : State) → IsMade w s → IsMade (send t a w).1 s
  pub channel_made : (n : ℕ) (w : State) → IsMade (channel n w).1 (channel n w).0
  pub channel_keeps : (n : ℕ) (s : Sender) (w : State) → IsMade w s → IsMade (channel n w).1 s
  pub channel_fresh : (n : ℕ) (s : Sender) (w : State) → IsMade w s → s ≢ (channel n w).0
  pub channel_open : (n : ℕ) (w : State) → is_closed (channel n w).0 (channel n w).1 ≡ false
  pub channel_empty : (n : ℕ) (w : State) → accepted (channel n w).0 (channel n w).1 ≡ []
  pub accepted-channel :
      (n : ℕ) (s : Sender) (w : State) → IsMade w s → accepted s (channel n w).1 ≡ accepted s w
  pub is_closed-channel :
      (n : ℕ) (s : Sender) (w : State) → IsMade w s → is_closed s (channel n w).1 ≡ is_closed s w
  pub close_keeps : (s t : Sender) (w : State) → IsMade w s → IsMade (close t w) s
  pub is_closed-close_self : (s : Sender) (w : State) → is_closed s (close s w) ≡ true
  pub is_closed-close_ne :
      (s t : Sender) (w : State) → s ≢ t → is_closed s (close t w) ≡ is_closed s w
  -- a channel does not open again
  pub is_closed-close_stays :
      (s t : Sender) (w : State) → is_closed s w ≡ true → is_closed s (close t w) ≡ true
  -- what was accepted stays accepted
  pub accepted-close : (s t : Sender) (w : State) → accepted s (close t w) ≡ accepted s w
