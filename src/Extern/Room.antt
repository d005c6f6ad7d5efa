-- ===== src/Extern/Room.antt =====
-- The bound of Tokio's bounded channel: whether a value fits in, and what its receiver takes out. It
-- speaks of channels whose capacity is at least one.
use sse_gateway.Prelude.{◌≡◌, ◌≢◌, Bool, true}
use sse_gateway.Extern.Mpsc.{Mpsc}

pub record Room (A : Type 0) ⦃M : Mpsc A⦄ : Type 0 where
  -- there is a free slot
  pub has_room : M.Sender → M.State → Bool
  -- the receiver takes the oldest value, if there is one
  pub recv : M.Sender → M.State → M.State
  pub has_room-recv_self :
      (s : M.Sender) (w : M.State) → M.IsMade w s → has_room s (recv s w) ≡ true
  pub has_room-recv_ne :
      (s t : M.Sender) (w : M.State) → s ≢ t → has_room s (recv t w) ≡ has_room s w
  pub has_room-send_ne :
      (s t : M.Sender) (a : A) (w : M.State) → s ≢ t → has_room s (M.send t a w).1 ≡ has_room s w
  pub has_room-close_ne :
      (s t : M.Sender) (w : M.State) → s ≢ t → has_room s (M.close t w) ≡ has_room s w
  pub has_room-channel :
      (s : M.Sender) (w : M.State) → M.IsMade w s → has_room s (M.channel 100 w).1 ≡ has_room s w
  pub is_closed-recv : (s t : M.Sender) (w : M.State) → M.is_closed s (recv t w) ≡ M.is_closed s w
  pub recv_keeps : (s t : M.Sender) (w : M.State) → M.IsMade w s → M.IsMade (recv t w) s
