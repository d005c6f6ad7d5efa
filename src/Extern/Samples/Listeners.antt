-- ===== src/Extern/Samples/Listeners.antt =====
-- A concrete broadcast channel.
use sse_gateway.Prelude.{ℕ, suc, ◌≡◌, refl, List, [], ◌∷◌, ◌++◌, eqb, if◌then◌else◌, arith}
use sse_gateway.Extern.Broadcast.{Broadcast}
use sse_gateway.Std.Decimal.{ℤ}

-- The receivers are numbered and miss nothing.
pub record Subscribers : Type 0 where
  pub next : ℕ
  pub seen : ℕ → List ℤ

pub new_queue : (n : ℕ) (l : List ℤ) → (if eqb n n then [] else l) ≡ []
new_queue n l = ground arith

instance abbrev pub subscribers : Broadcast
subscribers = record {
  State = Subscribers;
  Receiver = ℕ;
  send = λ ts w. record w { seen = λ r. w.seen r ++ ts ∷ [] };
  subscribe = λ w.
      (w.next, record { next = suc w.next; seen = λ r. if eqb r w.next then [] else w.seen r });
  since = λ r w. w.seen r;
  since-send = λ r ts w. refl;
  since-subscribe = λ w. new_queue w.next (w.seen w.next);
}
