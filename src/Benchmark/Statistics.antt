-- ===== src/Benchmark/Statistics.antt =====
-- src/benchmark.cpp, `percentile` and `summarize`.
pub mod Order
pub mod Extremes
use market_data_ingress.Base.{ℕ, ◌-◌, Bool, List, [], ◌∷◌, if◌then◌else◌, length, get_or, Double}
use market_data_ingress.Engine.{LatencyDistribution}

module _ {D : Type 0} (d : Double D) where
  abbrev pub zero_double : D
  zero_double = d.literal 0 0

  -- `std::sort` by `<`, as an insertion sort.
  unfoldable pub insert : D → List D → List D
  insert x [] = x ∷ []
  insert x (y ∷ sorted) = if d.lt y x then y ∷ insert x sorted else x ∷ y ∷ sorted

  unfoldable pub sort : List D → List D
  unfolding insert
  sort [] = []
  sort (x ∷ values) = insert x (sort values)

  -- `std::clamp`
  unfoldable pub clamp : D → D → D → D
  clamp value low high = if d.lt value low then low else if d.lt high value then high else value

  unfoldable pub percentile : List D → D → D
  unfolding clamp
  percentile [] p = zero_double
  percentile (x ∷ rest) p =
      let sorted = x ∷ rest in
      let position = d.mul (clamp p zero_double (d.literal 10 1)) (d.of_ℕ (length sorted - 1)) in
      let lower = d.to_ℕ (d.floor position) in
      let upper = d.to_ℕ (d.ceil position) in
      let weight = d.sub position (d.of_ℕ lower) in
      let below = get_or sorted lower zero_double in
      let above = get_or sorted upper zero_double in d.add below (d.mul (d.sub above below) weight)

  -- `std::accumulate`
  unfoldable pub accumulate : D → List D → D
  accumulate total [] = total
  accumulate total (x ∷ values) = accumulate (d.add total x) values

  unfoldable pub variance_from : D → D → List D → D
  variance_from mean total [] = total
  variance_from mean total (value ∷ values) =
      let delta = d.sub value mean in variance_from mean (d.add total (d.mul delta delta)) values

  -- `front` and `back` of a vector that is not empty.
  abbrev pub front : List D → D
  front [] = zero_double
  front (x ∷ values) = x

  abbrev pub back : List D → D
  back [] = zero_double
  back (x ∷ []) = x
  back (x ∷ y ∷ values) = back (y ∷ values)

  -- `LatencyDistribution{}`
  abbrev pub no_samples : LatencyDistribution D
  no_samples = record {
    samples = 0;
    mean_us = zero_double;
    min_us = zero_double;
    p50_us = zero_double;
    p90_us = zero_double;
    p95_us = zero_double;
    p99_us = zero_double;
    max_us = zero_double;
    stddev_us = zero_double;
  }

  -- `summarize` behind the sort.
  unfoldable pub summarize_sorted : List D → LatencyDistribution D
  unfolding accumulate variance_from
  summarize_sorted values =
      let count = d.of_ℕ (length values) in
      let mean = d.div (accumulate zero_double values) count in
      record {
        samples = length values;
        mean_us = mean;
        min_us = front values;
        p50_us = percentile values (d.literal 50 2);
        p90_us = percentile values (d.literal 90 2);
        p95_us = percentile values (d.literal 95 2);
        p99_us = percentile values (d.literal 99 2);
        max_us = back values;
        stddev_us = d.sqrt (d.div (variance_from mean zero_double values) count);
      }

  unfoldable pub summarize : List D → LatencyDistribution D
  unfolding summarize_sorted
  summarize [] = no_samples
  summarize (x ∷ values) = summarize_sorted (sort (x ∷ values))
