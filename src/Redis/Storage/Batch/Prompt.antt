-- ===== src/Redis/Storage/Batch/Prompt.antt =====
-- What a tick of the interval leaves.
use sse_gateway.Prelude.{
  ◌≡◌, refl, sym, ap, ◌∙◌, Bool, true, false, List, [], ◌∷◌, ◌++◌, append-nil, is_empty,
  if◌then◌else◌, arith, Bool-cases, inl, inr,
}
use sse_gateway.Redis.Storage.{StoreRequest}
use sse_gateway.Redis.Storage.Flush.{left_by_flush_batch}
use sse_gateway.Redis.Storage.Batch.{
  Signal, request, closed, tick, Round, Settings, Processor, start, flush, on_signal, rounds,
}
use sse_gateway.Redis.Storage.Batch.Conserve.{
  received, requests, seen, rounds_conserve, round_running, running-request, running-tick,
}

-- the queue does not end
abbrev keeps_open : Signal → Bool
keeps_open (request req) = true
keeps_open closed = false
keeps_open tick = true

abbrev pub stays_open : List Round → Bool
stays_open [] = true
stays_open (r ∷ rs) = let rest = stays_open rs in if keeps_open r.signal then rest else false

received_before_tick :
    (rs : List Round) (c : Bool)
    → received (rs ++ record { signal = tick; connected = c } ∷ []) ≡ received rs
received_before_tick [] c = refl
received_before_tick (r ∷ rs) c = ap (seen r.signal) (received_before_tick rs c)

module _ (k : Settings) where
  running-on_signal :
      (s : Signal) (c : Bool) (p : Processor)
      → keeps_open s ≡ true
      → (on_signal k s c p).running ≡ p.running
  running-on_signal (request req) c p h = running-request k req c p
  running-on_signal closed c p h = cc
  running-on_signal tick c p h = running-tick k c p

  nil_of : (l : List StoreRequest) → is_empty l ≡ true → l ≡ []
  nil_of [] e = refl
  nil_of (x ∷ l) e = cc

  ticked : (c : Bool) (p : Processor) → (on_signal k tick c p).batch ≡ []
  unfolding on_signal flush
  ticked c p = elim (Bool-cases (is_empty p.batch)) [
    | inl e ↦ rw e (nil_of p.batch e)
    | inr e ↦ rw e (left_by_flush_batch k.shuffle c k.max_per_channel k.ttl_seconds p.batch)
  ]

  -- the batch after a last tick
  empty_batch :
      (rs : List Round) (c : Bool) (p : Processor)
      → p.running ≡ true
      → stays_open rs ≡ true
      → (rounds k (rs ++ record { signal = tick; connected = c } ∷ []) p).batch ≡ []
  unfolding rounds
  empty_batch [] c p h o =
      ap (λ (q : Processor). q.batch)
        (round_running k (record { signal = tick; connected = c }) p h)
      ∙ ticked c p
  empty_batch (r ∷ rs) c p h o =
      ap (λ q. (rounds k (rs ++ record { signal = tick; connected = c } ∷ []) q).batch)
        (round_running k r p h)
      ∙ empty_batch rs c (on_signal k r.signal r.connected p)
          (running-on_signal r.signal r.connected p (ground arith) ∙ h) (ground arith)

  -- After rounds in which the queue did not end, a tick leaves an empty batch, and the batches
  -- that were handed to a flush hold exactly the requests that were received, in order.
  pub flushed_by_tick :
      (rs : List Round) (c : Bool)
      → stays_open rs ≡ true
      → (let p = rounds k (rs ++ record { signal = tick; connected = c } ∷ []) start in
          (p.batch ≡ []) × (requests p.flushed ≡ received rs))
  flushed_by_tick rs c o =
      let p = rounds k (rs ++ record { signal = tick; connected = c } ∷ []) start in
      let none_left = empty_batch rs c start refl o in
      (
        none_left,
        sym (append-nil _)
            ∙ ap (λ l. requests p.flushed ++ l) (sym none_left)
            ∙ rounds_conserve k (rs ++ record { signal = tick; connected = c } ∷ [])
            ∙ received_before_tick rs c,
      )
