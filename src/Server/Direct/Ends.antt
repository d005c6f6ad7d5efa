-- ===== src/Server/Direct/Ends.antt =====
-- The loop of `DirectPushSource::start` ends.
use sse_gateway.Prelude.{
  ℕ, zero, suc, ◌<◌, ◌≡◌, refl, Option, none, some, Bool, true, false, List, [], ◌∷◌, arith, length,
}
use sse_gateway.Extern.Mpsc.{Mpsc}
use sse_gateway.Source.{IncomingMessage}
use sse_gateway.Source.Loop.{Event, cancelled, received, closed}
use sse_gateway.Server.Instances.{Beat, register_and_start_heartbeat}
use sse_gateway.Server.Direct.{DirectPushSource, already_started, stopped, round, forward, start}

-- the first `n` values of a sequence
abbrev pub first {ℓ} : {A : Type ℓ} → ℕ → (ℕ → A) → List A
first zero f = []
first (suc n) f = f 0 ∷ first n (λ i. f (suc i))

-- a round that ends the loop
abbrev pub is_end {ℓ} : {A : Type ℓ} → Event A → Bool
is_end cancelled = true
is_end (received msg) = false
is_end closed = true

module _ {ℓ} {A : Type ℓ} where
  round_end : (e : Event A) (rest : Option (List A)) → is_end e ≡ true → round e rest ≡ some []
  unfolding round
  round_end cancelled rest h = refl
  round_end (received msg) rest h = cc
  round_end closed rest h = refl

  forward_ends :
      (n fuel : ℕ) (rounds : ℕ → Event A) (messages : ℕ → A)
      → ((i : ℕ) → i < n → rounds i ≡ received (messages i))
      → is_end (rounds n) ≡ true
      → n < fuel
      → forward fuel rounds ≡ some (first n messages)
  unfolding forward round
  forward_ends n zero rounds messages before e h = ground (arith, h)
  forward_ends zero (suc fuel) rounds messages before e h =
      round_end (rounds 0) (forward fuel (λ i. rounds (suc i))) e
  forward_ends (suc n) (suc fuel) rounds messages before e h =
      let rest =
        forward_ends n fuel (λ i. rounds (suc i)) (λ i. messages (suc i))
          (λ i lt. before (suc i) (omega (arith, lt))) e (omega (arith, h)) in
      rw (before 0 (omega arith), rest)

module _ ⦃N : Mpsc IncomingMessage⦄ {Connection : Type 0} where
  -- Let the source have its receiver and the listener get its port. If the rounds before the
  -- `n`-th bring messages and that one a cancellation or the end of the queue, then `n + 1` rounds
  -- of fuel or more are enough: `start` stops, having handed over those `n` messages in order. A
  -- start after that fails and does nothing.
  pub start_ends :
      (now : ℕ) (beats : List Beat) (n fuel : ℕ) (rounds : ℕ → Event IncomingMessage)
      (messages : ℕ → IncomingMessage) (source : DirectPushSource Connection) (receiver : N.Sender)
      → source.receiver ≡ some receiver
      → ((i : ℕ) → i < n → rounds i ≡ received (messages i))
      → is_end (rounds n) ≡ true
      → n < fuel
      → (start true now beats fuel rounds source
          ≡ some (record {
            outcome = stopped;
            after = record source { receiver = none };
            pipelines = register_and_start_heartbeat now beats source.service_registry;
            messages = first n messages;
          }))
        × ((bound : Bool) (later : ℕ) (beats' : List Beat) (fuel' : ℕ)
              (rounds' : ℕ → Event IncomingMessage)
            → start bound later beats' fuel' rounds' (record source { receiver = none })
              ≡ some (record {
                outcome = already_started;
                after = record source { receiver = none };
                pipelines = [];
                messages = [];
              }))
  unfolding start
  start_ends now beats n fuel rounds messages source receiver there before e h = (
    rw (there, forward_ends n fuel rounds messages before e h),
    λ bound later beats' fuel' rounds'. refl,
  )

-- a queue that is read to its end, and what the rounds see then
abbrev pub reads {ℓ} : {A : Type ℓ} → List A → Event A → ℕ → Event A
reads [] last i = last
reads (a ∷ l) last zero = received a
reads (a ∷ l) last (suc i) = reads l last i

-- a loop that reads a queue hands over what is in it
pub forward-reads {ℓ} :
    {A : Type ℓ} (l : List A) (last : Event A) (fuel : ℕ)
    → is_end last ≡ true
    → length l < fuel
    → forward fuel (reads l last) ≡ some l
unfolding forward round
forward-reads l last zero e h = absurd (omega (arith, h))
forward-reads [] last (suc fuel) e h = round_end last (forward fuel (λ i. last)) e
forward-reads (a ∷ l) last (suc fuel) e h = rw (forward-reads l last fuel e (omega (arith, h)))
