-- ===== src/Tests/Bench.antt =====
-- The benchmark client at small inputs.
use sse_gateway.Prelude.{
  ◌+◌, ◌≤◌, ◌≡◌, refl, sym, subst, ℕ, Text, codes, Option, none, some, List, [], ◌∷◌, length, arith,
  map,
}
use mathlib.Core.Option
use sse_gateway.Std.Split.{split}
use sse_gateway.Std.Affix.{strip_prefix, strip_suffix}
use sse_gateway.Std.Decimal.{ℤ, pos}
use sse_gateway.Bench.Sort.{sort}
use sse_gateway.Bench.Stats.{results_of, compute_stats, latencies_of}
use sse_gateway.Bench.Stats.Order.{results_ordered}
use sse_gateway.Std.Utf8.{is_utf8}
use sse_gateway.Bench.Frames.{drain, receive, bytes, all_sent_at}
use sse_gateway.Bench.Frames.Chunks.{receive_any_chunks, response, times_in}

-- three requests, one of which failed
abbrev requests_done : List (Option ℕ)
requests_done = some 30 ∷ none ∷ some 10 ∷ []

results_ordered_example :
    (let r = results_of (codes "push") 50 requests_done in
      (r.min_latency ≤ r.p50_latency)
      × (r.p50_latency ≤ r.p95_latency)
      × (r.p95_latency ≤ r.p99_latency)
      × (r.p99_latency ≤ r.max_latency)
      × (r.min_latency ≤ r.avg_latency)
      × (r.avg_latency ≤ r.max_latency)
      × (r.success_count + r.error_count ≡ 3))
unfolding latencies_of
results_ordered_example =
    results_ordered (codes "push") 50 requests_done (omega arith) (omega arith)

results_run :
    let r = results_of (codes "push") 50 requests_done in
    (r.min_latency ≡ 10)
    × (r.max_latency ≡ 30)
    × (r.avg_latency ≡ 20)
    × (r.p50_latency ≡ 30)
    × (r.error_count ≡ 1)
unfolding results_of compute_stats sort
results_run = (refl, refl, refl, refl, refl)

-- a JSON text of one digit
abbrev digit_ts : Text → Option ℤ
digit_ts [] = none
digit_ts (c ∷ s) = some (pos c)

-- the newline is between the chunks
abbrev two_chunks : List Text
two_chunks = codes "data:7\n" ∷ codes "\nevent:x\ndata:8\n\ndata" ∷ []

two_times : times_in digit_ts (response two_chunks) ≡ pos b'7' ∷ pos b'8' ∷ []
unfolding drain all_sent_at Option.bind split strip_prefix strip_suffix
two_times = refl

receive_any_chunks_example :
    receive digit_ts 2 (map bytes two_chunks) [] [] ≡ (times_in digit_ts (response two_chunks), 0)
unfolding is_utf8
receive_any_chunks_example =
    receive_any_chunks digit_ts 2 two_chunks (refl, (refl, tt))
      (subst (λ l. length l ≤ 2) (sym two_times) (omega arith))
