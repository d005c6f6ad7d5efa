-- ===== src/Redis/Storage/Batch/Written.antt =====
-- What the batch task sends to Redis.
use mathlib.Core.List.{map-append}
use sse_gateway.Prelude.{
  ◌≡◌, refl, sym, ap, ◌∙◌, Bool, true, false, List, [], ◌∷◌, ◌++◌, map, append-nil, length,
  is_empty, leb, if◌then◌else◌, append_assoc,
}
use sse_gateway.Redis.Command.{Command}
use sse_gateway.Redis.Storage.{StoreRequest, batch_size}
use sse_gateway.Redis.Storage.Flush.{
  flush_batch, keys_to_expire, xadd, xadds, xadds-append, xadds-pipeline,
}
use sse_gateway.Redis.Storage.Batch.{
  Signal, request, closed, tick, Round, Settings, Processor, start, flush, on_signal, round, rounds,
  commands,
}
use sse_gateway.Redis.Storage.Batch.Conserve.{everything, received, rounds_conserve}

-- the requests of the batches that were flushed with a connection
abbrev pub sent : List (Bool × List StoreRequest) → List StoreRequest
sent [] = []
sent ((true, batch) ∷ l) = batch ++ sent l
sent ((false, batch) ∷ l) = sent l

sent-append : (l r : List (Bool × List StoreRequest)) → sent (l ++ r) ≡ sent l ++ sent r
sent-append [] r = refl
sent-append ((true, b) ∷ l) r =
    ap (λ x. b ++ x) (sent-append l r) ∙ sym (append_assoc b (sent l) (sent r))
sent-append ((false, b) ∷ l) r = sent-append l r

module _ (k : Settings) where
  -- the XADD commands of requests
  abbrev pub xadds_of : List StoreRequest → List Command
  xadds_of l = map (xadd k.max_per_channel) l

  xadds-commands :
      (c : Bool) (batch : List StoreRequest)
      → xadds (commands (flush_batch k.shuffle c k.max_per_channel k.ttl_seconds batch).0)
        ≡ xadds_of (sent ((c, batch) ∷ []))
  unfolding flush_batch
  xadds-commands true [] = refl
  xadds-commands false [] = refl
  xadds-commands true (req ∷ reqs) =
      xadds-pipeline k.max_per_channel k.ttl_seconds (req ∷ reqs)
        (k.shuffle (keys_to_expire (req ∷ reqs) []))
      ∙ ap xadds_of (sym (append-nil (req ∷ reqs)))
  xadds-commands false (req ∷ reqs) = refl

  -- What was written are the requests that were flushed with a connection.
  abbrev IsWritten : Processor → Type 0
  IsWritten p = xadds p.written ≡ xadds_of (sent p.flushed)

  flush-IsWritten : (c : Bool) (p : Processor) → IsWritten p → IsWritten (flush k c p)
  unfolding flush
  flush-IsWritten c p h =
      xadds-append p.written _
      ∙ ap
          (λ l.
            l
            ++ xadds (commands (flush_batch k.shuffle c k.max_per_channel k.ttl_seconds p.batch).0))
          h
      ∙ ap (λ l. xadds_of (sent p.flushed) ++ l) (xadds-commands c p.batch)
      ∙ sym (map-append (xadd k.max_per_channel) (sent p.flushed) (sent ((c, p.batch) ∷ [])))
      ∙ ap xadds_of (sym (sent-append p.flushed ((c, p.batch) ∷ [])))

  if-IsWritten :
      (b : Bool) (p q : Processor) → IsWritten p → IsWritten q → IsWritten (if b then p else q)
  if-IsWritten true p q h g = h
  if-IsWritten false p q h g = g

  on_signal-IsWritten :
      (s : Signal) (c : Bool) (p : Processor) → IsWritten p → IsWritten (on_signal k s c p)
  unfolding on_signal
  on_signal-IsWritten (request req) c p h =
      let p' : Processor = record p { batch = p.batch ++ req ∷ [] } in
      if-IsWritten (leb batch_size (length p'.batch)) (flush k c p') p' (flush-IsWritten c p' h) h
  on_signal-IsWritten closed c p h = h
  on_signal-IsWritten tick c p h =
      if-IsWritten (is_empty p.batch) p (flush k c p) h (flush-IsWritten c p h)

  rounds-IsWritten : (rs : List Round) (p : Processor) → IsWritten p → IsWritten (rounds k rs p)
  unfolding rounds round
  rounds-IsWritten [] p h = h
  rounds-IsWritten (r ∷ rs) p h = rounds-IsWritten rs (round k r p) (
      if-IsWritten p.running (on_signal k r.signal r.connected p) p
        (on_signal-IsWritten r.signal r.connected p h) h)

  -- Whatever the rounds, the flushed batches and the batch that is left hold exactly the requests
  -- that were received before the queue ended, each once and in order, and the XADD commands in
  -- the pipelines that were executed are those of the requests in the batches that were flushed
  -- with a connection, in order.
  pub rounds_written :
      (rs : List Round)
      → let p = rounds k rs start in
        (everything p ≡ received rs) × (xadds p.written ≡ xadds_of (sent p.flushed))
  rounds_written rs = (rounds_conserve k rs, rounds-IsWritten rs start refl)
