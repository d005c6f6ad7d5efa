-- ===== src/Bench/EndToEnd.antt =====
-- `bench_e2e_latency` of examples/benchmark.rs: its results. Times are milliseconds, and a latency is
-- in nanoseconds like every duration.
use sse_gateway.Prelude.{
  ℕ, suc, ◌+◌, ◌-◌, ◌*◌, ◌≡◌, refl, codes, Bool, true, false, List, [], ◌∷◌, if◌then◌else◌,
}
use sse_gateway.Std.Decimal.{ℤ, pos, negsuc}
use sse_gateway.Bench.Sort.{sort}
use sse_gateway.Bench.Stats.{
  BenchConfig, BenchResults, min, average, calculate_percentile, item, stats_of_sorted,
  compute_stats,
}

-- `(now - ts).max(0) as u64`
unfoldable pub since : ℤ → ℤ → ℕ
since (pos now) (pos ts) = now - ts
since (pos now) (negsuc ts) = now + ts + 1
since (negsuc now) (pos ts) = 0
since (negsuc now) (negsuc ts) = ts - now

-- `Duration::from_millis`, for the clock readings and the times that came with them
unfoldable pub latencies : List (ℤ × ℤ) → List ℕ
unfolding since
latencies [] = []
latencies ((now, ts) ∷ l) = since now ts * 1000000 ∷ latencies l

-- At most 100 messages are sent.
unfoldable pub message_count : BenchConfig → ℕ
unfolding min
message_count config = min config.num_messages 100

-- the posts that failed
unfoldable pub failures : List Bool → ℕ
failures [] = 0
failures (true ∷ posted) = failures posted
failures (false ∷ posted) = suc (failures posted)

-- what is returned when the stream cannot be opened
unfoldable pub not_connected : BenchResults
not_connected = record {
  name = codes "End-to-End Latency";
  total_time = 0;
  success_count = 0;
  error_count = 1;
  min_latency = 0;
  max_latency = 0;
  avg_latency = 0;
  p50_latency = 0;
  p95_latency = 0;
  p99_latency = 0;
}

-- `posted` says of each post whether it was answered; `received` and `errors` are what the receiver
-- found by its end.
unfoldable pub bench_e2e_latency : Bool → ℕ → List Bool → List (ℤ × ℤ) → ℕ → BenchResults
unfolding not_connected compute_stats failures latencies
bench_e2e_latency is_connected total_time posted received errors =
    if is_connected
    then compute_stats (codes "End-to-End Latency") total_time (latencies received)
        (errors + failures posted)
    else not_connected

-- The early result is that of one error and no latency.
not_connected_lem : not_connected ≡ compute_stats (codes "End-to-End Latency") 0 [] 1
unfolding not_connected compute_stats stats_of_sorted sort average calculate_percentile item
not_connected_lem = refl
