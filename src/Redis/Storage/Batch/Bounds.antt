-- ===== src/Redis/Storage/Batch/Bounds.antt =====
-- How long the batches of the batch task are.
use sse_gateway.Prelude.{
  ◌+◌, ◌≤◌, ◌<◌, ◌≡◌, ap, Bool, true, false, List, [], ◌∷◌, ◌++◌, length, length-append, is_empty,
  leb, if◌then◌else◌, arith, Bool-cases, inl, inr, All,
}
use sse_gateway.Redis.Storage.{StoreRequest, batch_size}
use sse_gateway.Redis.Storage.Flush.{left_by_flush_batch}
use sse_gateway.Redis.Storage.Batch.{
  Signal, request, closed, tick, Round, Settings, Processor, start, flush, on_signal, round, rounds,
}

abbrev pub IsBatch : Bool × List StoreRequest → Type 0
IsBatch (_, batch) = (0 < length batch) × (length batch ≤ batch_size)

-- Between rounds the batch is short, and no flushed batch is empty or longer than `batch_size`.
pub record IsBounded (p : Processor) : Type 0 where
  pub short : length p.batch < batch_size
  pub batches : All IsBatch p.flushed

concat-IsBatch :
    (l : List (Bool × List StoreRequest)) (b : Bool × List StoreRequest)
    → All IsBatch l
    → IsBatch b
    → All IsBatch (l ++ b ∷ [])
concat-IsBatch [] b h p = (p, tt)
concat-IsBatch (x ∷ l) b h p = (h.0, concat-IsBatch l b h.1 p)

nonempty : (l : List StoreRequest) → is_empty l ≡ false → 0 < length l
nonempty [] h = cc
nonempty (x ∷ l) h = omega arith

length-snoc : (l : List StoreRequest) (x : StoreRequest) → length (l ++ x ∷ []) ≡ length l + 1
length-snoc l x = omega (arith, length-append l (x ∷ []))

chosen : {p q : Processor} (b : Bool) → IsBounded p → IsBounded q → IsBounded (if b then q else p)
chosen true h k = k
chosen false h k = h

module _ (k : Settings) where
  flush-IsBounded :
      (c : Bool) (p : Processor)
      → All IsBatch p.flushed
      → IsBatch (c, p.batch)
      → IsBounded (flush k c p)
  unfolding flush
  flush-IsBounded c p h b = record {
    short = omega (
      arith,
      ap length (left_by_flush_batch k.shuffle c k.max_per_channel k.ttl_seconds p.batch),
    );
    batches = concat-IsBatch p.flushed (c, p.batch) h b;
  }

  on_signal-IsBounded :
      (s : Signal) (c : Bool) (p : Processor) → IsBounded p → IsBounded (on_signal k s c p)
  unfolding on_signal
  on_signal-IsBounded (request req) c p h =
      let p' : Processor = record p { batch = p.batch ++ req ∷ [] } in
      elim (Bool-cases (leb batch_size (length (p.batch ++ req ∷ [])))) [
        | inl full ↦ rw full (
            flush-IsBounded c p' h.batches (
              omega (arith, length-snoc p.batch req, h.short),
              omega (arith, length-snoc p.batch req, h.short),
            ))
        | inr room ↦ rw room (record { short = ground arith; batches = h.batches })
      ]
  on_signal-IsBounded closed c p h = record { short = h.short; batches = h.batches }
  on_signal-IsBounded tick c p h = elim (Bool-cases (is_empty p.batch)) [
    | inl e ↦ rw e h
    | inr e ↦ rw e (flush-IsBounded c p h.batches (nonempty p.batch e, omega (arith, h.short)))
  ]

  round-IsBounded : (r : Round) (p : Processor) → IsBounded p → IsBounded (round k r p)
  unfolding round
  round-IsBounded r p h = chosen p.running h (on_signal-IsBounded r.signal r.connected p h)

  rounds-IsBounded_from :
      (rs : List Round) (p : Processor) → IsBounded p → IsBounded (rounds k rs p)
  unfolding rounds
  rounds-IsBounded_from [] p h = h
  rounds-IsBounded_from (r ∷ rs) p h =
      rounds-IsBounded_from rs (round k r p) (round-IsBounded r p h)

  -- Whatever the rounds, the batch is left shorter than `batch_size`, and each flush takes between
  -- one and `batch_size` requests.
  pub rounds-IsBounded : (rs : List Round) → IsBounded (rounds k rs start)
  rounds-IsBounded rs =
      rounds-IsBounded_from rs start (record { short = omega arith; batches = tt })
