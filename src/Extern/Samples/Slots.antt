-- ===== src/Extern/Samples/Slots.antt =====
-- Concrete channels with a single slot each.
use sse_gateway.Prelude.{ℕ, ◌<◌, ◌≡◌, ◌≢◌, refl, Bool, true, false, not, eqb, if◌then◌else◌, arith}
use sse_gateway.Extern.Mpsc.{Mpsc}
use sse_gateway.Extern.Room.{Room}
use sse_gateway.Extern.Samples.{Queues, queues}

-- The queues, and which slots are taken.
pub record Slots (A : Type 0) : Type 0 where
  pub queues : Queues A
  pub taken : ℕ → Bool

pub taken_self : (s : ℕ) (f : ℕ → Bool) → not (if eqb s s then false else f s) ≡ true
taken_self s f = ground arith

pub taken_ne :
    (s t : ℕ) (b : Bool) (f : ℕ → Bool) → s ≢ t → not (if eqb s t then b else f s) ≡ not (f s)
taken_ne s t b f h = ground arith

module _ {A : Type 0} where
  abbrev Q : Mpsc A
  Q = queues

  abbrev pub slots : Mpsc A
  slots = record {
    State = Slots A;
    Sender = ℕ;
    IsMade = λ w s. s < w.queues.next;
    channel = λ n w.
        let (s, q) = Q.channel n w.queues in
        (s, record { queues = q; taken = λ t. if eqb t s then false else w.taken t });
    is_closed = λ s w. w.queues.closed s;
    send = λ s a w.
        let (is_ok, q) = Q.send s a w.queues in
        (is_ok, record { queues = q; taken = λ t. if eqb t s then true else w.taken t });
    close = λ s w. record w { queues = Q.close s w.queues };
    accepted = λ s w. w.queues.queue s;
    send_result = λ s a w. refl;
    accepted-send_self = λ s a w. Q.accepted-send_self s a w.queues;
    accepted-send_ne = λ s t a w. Q.accepted-send_ne s t a w.queues;
    is_closed-send = λ s t a w. refl;
    send_keeps = λ s t a w h. h;
    channel_made = λ n w. Q.channel_made n w.queues;
    channel_keeps = λ n s w. Q.channel_keeps n s w.queues;
    channel_fresh = λ n s w. Q.channel_fresh n s w.queues;
    channel_open = λ n w. Q.channel_open n w.queues;
    channel_empty = λ n w. Q.channel_empty n w.queues;
    accepted-channel = λ n s w. Q.accepted-channel n s w.queues;
    is_closed-channel = λ n s w. Q.is_closed-channel n s w.queues;
    close_keeps = λ s t w h. h;
    is_closed-close_self = λ s w. Q.is_closed-close_self s w.queues;
    is_closed-close_ne = λ s t w. Q.is_closed-close_ne s t w.queues;
    is_closed-close_stays = λ s t w. Q.is_closed-close_stays s t w.queues;
    accepted-close = λ s t w. refl;
  }

  abbrev pub rooms : Room A ⦃M = slots⦄
  rooms = record {
    has_room = λ s w. not (w.taken s);
    recv = λ s w. record w { taken = λ t. if eqb t s then false else w.taken t };
    has_room-recv_self = λ s w h. taken_self s w.taken;
    has_room-recv_ne = λ s t w. taken_ne s t false w.taken;
    has_room-send_ne = λ s t a w. taken_ne s t true w.taken;
    has_room-close_ne = λ s t w h. refl;
    has_room-channel =
        λ s w h. taken_ne s w.queues.next false w.taken (Q.channel_fresh 100 s w.queues h);
    is_closed-recv = λ s t w. refl;
    recv_keeps = λ s t w h. h;
  }
