-- ===== src/Redis/Storage/Batch/Conserve.antt =====
-- What becomes of the requests that the batch task receives.
use sse_gateway.Prelude.{
  ◌≡◌, refl, sym, ap, ◌∙◌, Bool, true, false, List, [], ◌∷◌, ◌++◌, append_assoc, append-nil, length,
  is_empty, leb, if◌then◌else◌, arith, Bool-cases, inl, inr,
}
use sse_gateway.Redis.Storage.{StoreRequest, batch_size}
use sse_gateway.Redis.Storage.Flush.{left_by_flush_batch}
use sse_gateway.Redis.Storage.Batch.{
  Signal, request, closed, tick, Round, Settings, Processor, start, flush, on_signal, round, rounds,
}

abbrev pub seen : Signal → List StoreRequest → List StoreRequest
seen (request req) rest = req ∷ rest
seen closed rest = []
seen tick rest = rest

-- the requests that the loop receives before the queue ends
abbrev pub received : List Round → List StoreRequest
received [] = []
received (r ∷ rs) = seen r.signal (received rs)

abbrev pub requests : List (Bool × List StoreRequest) → List StoreRequest
requests [] = []
requests ((_, batch) ∷ l) = batch ++ requests l

requests-append :
    (l r : List (Bool × List StoreRequest)) → requests (l ++ r) ≡ requests l ++ requests r
requests-append [] r = refl
requests-append ((c, b) ∷ l) r =
    ap (λ x. b ++ x) (requests-append l r) ∙ sym (append_assoc b (requests l) (requests r))

-- what the loop has seen is flushed or in the batch, in order
abbrev pub everything : Processor → List StoreRequest
everything p = requests p.flushed ++ p.batch

module _ (k : Settings) where
  everything-flush : (c : Bool) (p : Processor) → everything (flush k c p) ≡ everything p
  unfolding flush
  everything-flush c p =
      ap (λ l. requests (p.flushed ++ (c, p.batch) ∷ []) ++ l)
        (left_by_flush_batch k.shuffle c k.max_per_channel k.ttl_seconds p.batch)
      ∙ append-nil _
      ∙ requests-append p.flushed ((c, p.batch) ∷ [])
      ∙ ap (λ x. requests p.flushed ++ x) (append-nil p.batch)

  everything-request :
      (req : StoreRequest) (c : Bool) (p : Processor)
      → everything (on_signal k (request req) c p) ≡ everything p ++ req ∷ []
  unfolding on_signal
  everything-request req c p =
      let p' : Processor = record p { batch = p.batch ++ req ∷ [] } in
      elim (Bool-cases (leb batch_size (length (p.batch ++ req ∷ [])))) [
        | inl full ↦
            rw full
              (everything-flush c p' ∙ sym (append_assoc (requests p.flushed) p.batch (req ∷ [])))
        | inr room ↦ rw room (sym (append_assoc (requests p.flushed) p.batch (req ∷ [])))
      ]

  everything-tick : (c : Bool) (p : Processor) → everything (on_signal k tick c p) ≡ everything p
  unfolding on_signal
  everything-tick c p = elim (Bool-cases (is_empty p.batch)) [
    | inl e ↦ rw e
    | inr e ↦ rw e (everything-flush c p)
  ]

  round_idle : (r : Round) (p : Processor) → p.running ≡ false → round k r p ≡ p
  unfolding round
  round_idle r p h = ap (λ b. if b then on_signal k r.signal r.connected p else p) h

  stopped : (rs : List Round) (p : Processor) → p.running ≡ false → rounds k rs p ≡ p
  unfolding rounds
  stopped [] p h = refl
  stopped (r ∷ rs) p h = ap (rounds k rs) (round_idle r p h) ∙ stopped rs p h

  everything-closed :
      (rs : List Round) (c : Bool) (p : Processor)
      → everything (rounds k rs (on_signal k closed c p)) ≡ everything p
  unfolding on_signal
  everything-closed rs c p = ap everything (stopped rs (record p { running = false }) refl)

  pub running-request :
      (req : StoreRequest) (c : Bool) (p : Processor)
      → (on_signal k (request req) c p).running ≡ p.running
  unfolding on_signal flush
  running-request req c p = ground arith

  pub running-tick : (c : Bool) (p : Processor) → (on_signal k tick c p).running ≡ p.running
  unfolding on_signal flush
  running-tick c p = ground arith

  pub round_running :
      (r : Round) (p : Processor)
      → p.running ≡ true
      → round k r p ≡ on_signal k r.signal r.connected p
  unfolding round
  round_running r p h = ap (λ b. if b then on_signal k r.signal r.connected p else p) h

  conserve_signal :
      (s : Signal) (c : Bool) (rs : List Round) (p : Processor)
      → p.running ≡ true
      → ((q : Processor)
          → q.running ≡ true
          → everything (rounds k rs q) ≡ everything q ++ received rs)
      → everything (rounds k rs (on_signal k s c p)) ≡ everything p ++ seen s (received rs)
  conserve_signal (request req) c rs p h after =
      after (on_signal k (request req) c p) (running-request req c p ∙ h)
      ∙ ap (λ l. l ++ received rs) (everything-request req c p)
      ∙ append_assoc (everything p) (req ∷ []) (received rs)
  conserve_signal closed c rs p h after = everything-closed rs c p ∙ sym (append-nil (everything p))
  conserve_signal tick c rs p h after =
      after (on_signal k tick c p) (running-tick c p ∙ h)
      ∙ ap (λ l. l ++ received rs) (everything-tick c p)

  conserve :
      (rs : List Round) (p : Processor)
      → p.running ≡ true
      → everything (rounds k rs p) ≡ everything p ++ received rs
  unfolding rounds
  conserve [] p h = sym (append-nil _)
  conserve (r ∷ rs) p h =
      ap (λ q. everything (rounds k rs q)) (round_running r p h)
      ∙ conserve_signal r.signal r.connected rs p h (conserve rs)

  -- Whatever the rounds, the flushed batches and the batch that is left hold exactly the requests
  -- that were received before the queue ended, each once and in order.
  pub rounds_conserve : (rs : List Round) → everything (rounds k rs start) ≡ received rs
  rounds_conserve rs = conserve rs start refl
