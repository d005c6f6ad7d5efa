-- ===== src/Bench/Stats/Order.antt =====
-- The numbers of a benchmark are in order, and do not depend on the order of its requests.
use mathlib.Core.List.{Perm, Permᴰ}
use mathlib.Core.List.Perm
use mathlib.Core.Logic.{∥∥₁_elim}
use native.Mathlib.Nat.{le-div_iff_mul-le, div-lt_iff_lt-mul, mul-suc, suc-mul}
use sse_gateway.Prelude.{
  ℕ, zero, suc, ◌+◌, ◌-◌, ◌*◌, ◌/◌, ◌%◌, ◌^◌, ◌≤◌, ◌<◌, ◌≡◌, refl, sym, ap, subst, ◌∙◌, Text,
  Option, none, some, false, List, [], ◌∷◌, length, is_empty, arith, All,
}
use sse_gateway.Bench.Sort.{sort, sum, IsSorted, length-sort, sum-sort, sort-IsSorted, sort_perm}
use sse_gateway.Bench.Stats.{
  item, min, calculate_percentile, average, stats_of_sorted, compute_stats, latencies_of, errors_of,
  results_of,
}

item_above : (x : ℕ) (l : List ℕ) (i : ℕ) → All (λ y. x ≤ y) l → i < length l → x ≤ item l i
unfolding item
item_above x [] i h lt = absurd (omega (arith, lt))
item_above x (y ∷ l) zero h lt = h.0
item_above x (y ∷ l) (suc i) h lt = item_above x l i h.1 (omega (arith, lt))

-- an ascending list, at two places
item_le : (l : List ℕ) (i j : ℕ) → IsSorted l → i ≤ j → j < length l → item l i ≤ item l j
unfolding item
item_le [] i j h le lt = absurd (omega (arith, lt))
item_le (x ∷ l) zero zero h le lt = omega arith
item_le (x ∷ l) zero (suc j) h le lt = item_above x l j h.0 (omega (arith, lt))
item_le (x ∷ l) (suc i) zero h le lt = absurd (omega (arith, le))
item_le (x ∷ l) (suc i) (suc j) h le lt = item_le l i j h.1 (omega (arith, le)) (omega (arith, lt))

-- the sum lies between the bounds
sum_bounds :
    (a b : ℕ) (l : List ℕ)
    → ((i : ℕ) → i < length l → (a ≤ item l i) × (item l i ≤ b))
    → (a * length l ≤ sum l) × (sum l ≤ b * length l)
unfolding item
sum_bounds a b [] h = (omega arith, omega arith)
sum_bounds a b (x ∷ l) h =
    let rest = sum_bounds a b l (λ i lt. h (suc i) (omega (arith, lt))) in
    let first = h 0 (omega arith) in
    (
      subst (λ n. n ≤ x + sum l) (sym (mul-suc a (length l))) (omega (arith, rest.0, first.0)),
      subst (λ n. x + sum l ≤ n) (sym (mul-suc b (length l))) (omega (arith, rest.1, first.1)),
    )

mean_bounds : (a b s n : ℕ) → 0 < n → a * n ≤ s → s ≤ b * n → (a ≤ s / n) × (s / n ≤ b)
mean_bounds a b s n pos lo hi = (
  (le-div_iff_mul-le {k = n} {x = a} {y = s} pos).1 lo,
  omega (
    arith,
    (div-lt_iff_lt-mul {k = n} {x = s} {y = suc b} pos).1
        (subst (λ m. s < m) (sym (suc-mul b n)) (omega (arith, hi, pos))),
  ),
)

not_empty : (l : List ℕ) → 0 < length l → is_empty l ≡ false
not_empty [] pos = absurd (omega (arith, pos))
not_empty (x ∷ l) pos = refl

min_le : (a b : ℕ) → min a b ≤ b
unfolding min
min_le a b = ground arith

min_mono : (a a' b : ℕ) → a ≤ a' → min a b ≤ min a' b
unfolding min
min_mono a a' b h = ground arith

module _ (l : List ℕ) (h : IsSorted l) (pos : 0 < length l) where
  percentile_item :
      (p : ℕ) → calculate_percentile l p ≡ item l (min (length l * p / 100) (length l - 1))
  unfolding calculate_percentile
  percentile_item p = rw (not_empty l pos)

  percentile_le :
      (p q : ℕ)
      → length l * p / 100 ≤ length l * q / 100
      → calculate_percentile l p ≤ calculate_percentile l q
  percentile_le p q le =
      rw (percentile_item p, percentile_item q)
        (item_le l _ _ h (min_mono _ _ (length l - 1) le)
          (omega (arith, pos, min_le (length l * q / 100) (length l - 1))))

  percentile_between :
      (p : ℕ)
      → (item l 0 ≤ calculate_percentile l p) × (calculate_percentile l p ≤ item l (length l - 1))
  percentile_between p =
      let below = min_le (length l * p / 100) (length l - 1) in
      rw (percentile_item p) (
        item_le l 0 _ h (omega arith) (omega (arith, pos, below)),
        item_le l _ (length l - 1) h below (omega (arith, pos)),
      )

  average_between : sum l < 2 ^ 64 → (item l 0 ≤ average l) × (average l ≤ item l (length l - 1))
  unfolding average
  average_between fits =
      let (lo, hi) = sum_bounds (item l 0) (item l (length l - 1)) l λ i lt. (
        item_le l 0 i h (omega arith) lt,
        item_le l i (length l - 1) h (omega (arith, lt)) (omega (arith, lt)),
      ) in
      let small : sum l % 2 ^ 64 ≡ sum l = omega (arith, fits) in
      rw (not_empty l pos, small)
        (mean_bounds (item l 0) (item l (length l - 1)) (sum l) (length l) pos lo hi)

requests_count :
    (done : List (Option ℕ)) → length (latencies_of done) + errors_of done ≡ length done
unfolding latencies_of errors_of
requests_count [] = omega arith
requests_count (none ∷ l) = omega (arith, requests_count l)
requests_count (some d ∷ l) = omega (arith, requests_count l)

-- Let one request at least succeed, and the latencies sum up to less than 2^64 nanoseconds. The
-- median, the 95th and the 99th percentile are in ascending order between the least latency and
-- the greatest, the average is between these two, and the successes and errors are as many as the
-- requests.
pub results_ordered :
    (name : Text) (total_time : ℕ) (done : List (Option ℕ))
    → 0 < length (latencies_of done)
    → sum (latencies_of done) < 2 ^ 64
    → (let r = results_of name total_time done in
        (r.min_latency ≤ r.p50_latency)
        × (r.p50_latency ≤ r.p95_latency)
        × (r.p95_latency ≤ r.p99_latency)
        × (r.p99_latency ≤ r.max_latency)
        × (r.min_latency ≤ r.avg_latency)
        × (r.avg_latency ≤ r.max_latency)
        × (r.success_count + r.error_count ≡ length done))
unfolding results_of compute_stats stats_of_sorted
results_ordered name total_time done some_done fits =
    let l = sort (latencies_of done) in
    let h = sort-IsSorted (latencies_of done) in
    let n = length-sort (latencies_of done) in
    let pos : 0 < length l = omega (arith, n, some_done) in
    let mean = average_between l h pos (omega (arith, sum-sort (latencies_of done), fits)) in
    (
      (percentile_between l h pos 50).0,
      percentile_le l h pos 50 95 (omega arith),
      percentile_le l h pos 95 99 (omega arith),
      (percentile_between l h pos 99).1,
      mean.0,
      mean.1,
      omega (arith, n, requests_count done),
    )

-- the requests in another order
module _ where
  abbrev Same : List (Option ℕ) → List (Option ℕ) → Type 0
  Same a b = Perm (latencies_of a) (latencies_of b) × (errors_of a ≡ errors_of b)

  Same-cons : (o : Option ℕ) (a b : List (Option ℕ)) → Same a b → Same (o ∷ a) (o ∷ b)
  unfolding latencies_of errors_of
  Same-cons none a b h = (h.0, ap suc h.1)
  Same-cons (some d) a b h = (Perm.cons d h.0, h.1)

  Same-swap : (o p : Option ℕ) (a : List (Option ℕ)) → Same (o ∷ p ∷ a) (p ∷ o ∷ a)
  unfolding latencies_of errors_of
  Same-swap none none a = (Perm.rfl, refl)
  Same-swap none (some e) a = (Perm.rfl, refl)
  Same-swap (some d) none a = (Perm.rfl, refl)
  Same-swap (some d) (some e) a = (Perm.swap e d _, refl)

  Same-moved : {a b : List (Option ℕ)} → Permᴰ a b → Same a b
  unfolding latencies_of errors_of
  Same-moved Permᴰ.nil = (Perm.rfl, refl)
  Same-moved (Permᴰ.cons {a} {b} {l₁ = l} {l₂ = r} e p) =
      subst (λ x. Same (a ∷ l) (x ∷ r)) e (Same-cons a l r (Same-moved p))
  Same-moved (Permᴰ.swap {a} {b} {a' = c} {b' = d} {l} e f) =
      subst (λ x. Same (a ∷ b ∷ l) (c ∷ x ∷ l)) e
        (subst (λ x. Same (a ∷ b ∷ l) (x ∷ a ∷ l)) f (Same-swap a b l))
  Same-moved (Permᴰ.trans p q) =
      let u = Same-moved p in let v = Same-moved q in (Perm.trans u.0 v.0, u.1 ∙ v.1)

same_parts :
    {done done' : List (Option ℕ)}
    → Perm done done'
    → (sort (latencies_of done) ≡ sort (latencies_of done')) × (errors_of done ≡ errors_of done')
same_parts p = ∥∥₁_elim p (hlevel) (λ d. let h = Same-moved d in (sort_perm h.0, h.1))

-- The order in which the requests were done does not matter.
results_perm :
    (name : Text) (total_time : ℕ) {done done' : List (Option ℕ)}
    → Perm done done'
    → results_of name total_time done ≡ results_of name total_time done'
unfolding results_of compute_stats
results_perm name total_time {done} {done'} p =
    let h = same_parts p in
    ap (λ l. stats_of_sorted name total_time l (errors_of done)) h.0
    ∙ ap (stats_of_sorted name total_time (sort (latencies_of done'))) h.1
