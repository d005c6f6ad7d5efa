-- ===== src/Bench/Stats.antt =====
-- `BenchConfig`, `compute_stats` and `calculate_percentile` of examples/benchmark.rs. A duration is
-- its number of nanoseconds.
pub mod Order
use mathlib.Core.Option
use sse_gateway.Prelude.{
  ℕ, zero, suc, ◌+◌, ◌-◌, ◌*◌, ◌/◌, ◌%◌, ◌^◌, Text, codes, Option, none, some, List, [], ◌∷◌,
  length, is_empty, leb, ltb, if◌then◌else◌,
}
use sse_gateway.Std.Decimal.{parse_u64}
use sse_gateway.Bench.Sort.{sort, sum}

pub record BenchConfig : Type 0 where
  pub gateway_url : Text
  pub push_url : Text
  pub num_connections : ℕ
  pub num_messages : ℕ
  pub concurrency : ℕ

-- `var` reads the environment. A `usize` has 64 bits.
unfoldable pub default : (Text → Option Text) → BenchConfig
default var = record {
  gateway_url = Option.get_or (var (codes "GATEWAY_URL")) (codes "http://localhost:8080");
  push_url = Option.get_or (var (codes "PUSH_URL")) (codes "http://localhost:9000");
  num_connections = Option.get_or (Option.bind (var (codes "NUM_CONNECTIONS")) parse_u64) 100;
  num_messages = Option.get_or (Option.bind (var (codes "NUM_MESSAGES")) parse_u64) 1000;
  concurrency = Option.get_or (Option.bind (var (codes "CONCURRENCY")) parse_u64) 10;
}

pub record BenchResults : Type 0 where
  pub name : Text
  pub total_time : ℕ
  pub success_count : ℕ
  pub error_count : ℕ
  pub min_latency : ℕ
  pub max_latency : ℕ
  pub avg_latency : ℕ
  pub p50_latency : ℕ
  pub p95_latency : ℕ
  pub p99_latency : ℕ

-- an item, or `Duration::ZERO` behind the end
unfoldable pub item : List ℕ → ℕ → ℕ
item [] i = 0
item (x ∷ l) zero = x
item (x ∷ l) (suc i) = item l i

unfoldable pub min : ℕ → ℕ → ℕ
min a b = if leb a b then a else b

-- The index is computed in `f64`. For a whole `percentile` that is the division of the integers, as
-- long as the product has 53 bits.
unfoldable pub calculate_percentile : List ℕ → ℕ → ℕ
unfolding item min
calculate_percentile sorted percentile =
    if is_empty sorted
    then 0
    else item sorted (min (length sorted * percentile / 100) (length sorted - 1))

-- the average in nanoseconds; a sum of `u64` wraps around in a release build
unfoldable pub average : List ℕ → ℕ
average sorted = if is_empty sorted then 0 else sum sorted % 2 ^ 64 / length sorted

-- the results, once the latencies are sorted
unfoldable pub stats_of_sorted : Text → ℕ → List ℕ → ℕ → BenchResults
unfolding calculate_percentile average item
stats_of_sorted name total_time sorted errors = record {
  name = name;
  total_time = total_time;
  success_count = length sorted;
  error_count = errors;
  min_latency = item sorted 0;
  max_latency = item sorted (length sorted - 1);
  avg_latency = average sorted;
  p50_latency = calculate_percentile sorted 50;
  p95_latency = calculate_percentile sorted 95;
  p99_latency = calculate_percentile sorted 99;
}

unfoldable pub compute_stats : Text → ℕ → List ℕ → ℕ → BenchResults
unfolding stats_of_sorted
compute_stats name total_time latencies errors =
    stats_of_sorted name total_time (sort latencies) errors

-- What a request of a benchmark comes to: its latency, or nothing if it failed.
unfoldable pub latencies_of : List (Option ℕ) → List ℕ
latencies_of [] = []
latencies_of (none ∷ l) = latencies_of l
latencies_of (some d ∷ l) = d ∷ latencies_of l

unfoldable pub errors_of : List (Option ℕ) → ℕ
errors_of [] = 0
errors_of (none ∷ l) = suc (errors_of l)
errors_of (some d ∷ l) = errors_of l

-- The end of a benchmark, from its requests in the order in which they were done.
unfoldable pub results_of : Text → ℕ → List (Option ℕ) → BenchResults
unfolding latencies_of errors_of
results_of name total_time done = compute_stats name total_time (latencies_of done) (errors_of done)
