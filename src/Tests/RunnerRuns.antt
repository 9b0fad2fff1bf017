-- ===== src/Tests/RunnerRuns.antt =====
-- The theorems about src/main.cpp and src/benchmark.cpp at concrete options and runs.
use market_data_ingress.Base.{
  ltb, ◌^◌, size_max, ℕ, ◌*◌, ◌≤◌, ◌≡◌, refl, ◌↔◌, ◌⊎◌, true, false, none, some, List, [], ◌∷◌,
  codes, length, ok, arith, ltb,
}
use market_data_ingress.Engine.{
  Engine, RunOptions, default_options, tensorrt, InferenceStats, LatencyDistribution,
  OutputValidation,
}
use market_data_ingress.Engine.Factory.{Build, mock_backend, make_engine}
use market_data_ingress.Engine.Mock.{infer_into, mock_engine, initial, MockState, runtime_metadata}
use market_data_ingress.Benchmark.Statistics.Extremes.{Among, summarize_extremes}
use market_data_ingress.Benchmark.Statistics.{sort, summarize, percentile}
use market_data_ingress.Benchmark.Validation.{validate}
use market_data_ingress.Benchmark.Validation.Exact.{NoneExceeds, validate_iff}
use market_data_ingress.Benchmark.Run.{
  Machine, check_shapes, run_benchmark, input_from, warm_up, measure, infer, collect,
}
use market_data_ingress.Benchmark.Run.Mock.{run_benchmark_mock}
use market_data_ingress.Benchmark.Run.Samples.{check_shapes_lem, run_benchmark_samples}
use market_data_ingress.Benchmark.Report.{has_target}
use market_data_ingress.Runner.Options.{backend_name}
use market_data_ingress.Runner.Program.{Chosen, choose_engine, verdict}
use market_data_ingress.Runner.Program.Policy.{AsRequested, choose_engine_policy}
use market_data_ingress.Runner.Program.Verdict.{ValidationHolds, TargetHolds, Missed, verdict_lem}
use market_data_ingress.Tests.Numbers.{natural, natural_float}

abbrev engine : Engine ℕ ℕ
engine = mock_engine natural_float

-- A run of two calls with a target, on four elements.
abbrev options : RunOptions ℕ
options = record (default_options natural) {
  input_size = 4;
  iterations = 2;
  warmup = 1;
  target_latency_us = 1000;
}

abbrev total : ℕ
total = 4

abbrev machine : Machine ℕ
machine = record { elapsed = λ i. 2000; allocates = λ buffer elements. ltb elements (2 ^ 60) }

check_shapes_lem_example :
    (total ≡ options.input_size * options.batch_size)
    × (total ≤ size_max)
    × (1 ≤ total)
    × (1 ≤ total)
    × (1 ≤ options.iterations)
unfolding check_shapes
check_shapes_lem_example = check_shapes_lem machine options 0 0 4 4 refl

abbrev latency : LatencyDistribution ℕ
latency = record {
  samples = 2;
  mean_us = 2000;
  min_us = 2000;
  p50_us = 2000;
  p90_us = 2000;
  p95_us = 2000;
  p99_us = 2000;
  max_us = 2000;
  stddev_us = 0;
}

abbrev stats : InferenceStats ℕ
stats = record {
  end_to_end = latency;
  device_compute = none;
  validation = none;
  cuda_graph = false;
  runtime = runtime_metadata;
  throughput_inferences_per_second = 0;
  throughput_samples_per_second = 0;
  input_elements_per_batch = 4;
  backend = codes "mock-cpp-cpu";
}

-- The engine's state once the model is loaded.
abbrev loaded : MockState
loaded = record { input_elements = 0 }

run_stats : run_benchmark natural natural_float engine machine options loaded ≡ ok (stats, loaded)
unfolding run_benchmark check_shapes input_from warm_up measure infer collect summarize sort
    percentile infer_into
run_stats = refl

run_benchmark_mock_example :
    (found : InferenceStats ℕ) × (last : MockState) × (run_benchmark natural natural_float engine
        machine options loaded
      ≡ ok (found, last))
run_benchmark_mock_example =
    run_benchmark_mock natural natural_float machine options loaded refl (omega arith) (omega arith)
      (omega arith) (omega arith) refl refl refl refl

run_benchmark_samples_example :
    (stats.end_to_end.samples ≡ options.iterations)
    × ((stats.device_compute ≡ none)
        ⊎ ((device : LatencyDistribution ℕ) × (stats.device_compute ≡ some device)
            × (1 ≤ device.samples)
            × (device.samples ≤ options.iterations)))
run_benchmark_samples_example =
    run_benchmark_samples natural natural_float engine machine options loaded loaded stats run_stats

verdict_lem_example :
    ((¬ (ValidationHolds natural options stats)) × (verdict natural options stats ≡ 5))
    ⊎ (ValidationHolds natural options stats
        × TargetHolds natural options stats
        × (verdict natural options stats ≡ 0))
    ⊎ (ValidationHolds natural options stats
        × (has_target natural options ≡ true)
        × Missed natural options stats (verdict natural options stats))
verdict_lem_example = verdict_lem natural options stats

abbrev was : List ℕ
was = 100 ∷ 200 ∷ []

abbrev is : List ℕ
is = 100 ∷ 230 ∷ []

validate_iff_example :
    ((validate natural natural_float 10 was is 2).passed ≡ true)
    ↔ ((length is ≡ length was) × NoneExceeds natural natural_float 10 is was)
validate_iff_example = validate_iff natural natural_float 10 was is

ltb_asymmetric : (a b : ℕ) → ltb a b ≡ true → ltb b a ≡ false
ltb_asymmetric a b below = ground arith

ltb_transitive : (a b c : ℕ) → ltb b a ≡ false → ltb c b ≡ false → ltb c a ≡ false
ltb_transitive a b c above higher = ground arith

summarize_extremes_example :
    let stats = summarize natural (3 ∷ 1 ∷ 2 ∷ []) in
    Among natural stats.min_us (3 ∷ 1 ∷ 2 ∷ [])
    × Among natural stats.max_us (3 ∷ 1 ∷ 2 ∷ [])
    × ((v : ℕ)
        → Among natural v (3 ∷ 1 ∷ 2 ∷ [])
        → (ltb v stats.min_us ≡ false) × (ltb stats.max_us v ≡ false))
summarize_extremes_example = summarize_extremes natural ltb_asymmetric ltb_transitive 3 (1 ∷ 2 ∷ [])

-- A TensorRT run that may fall back, in a build without TensorRT.
abbrev build : Build
build = record { force_mock_backend = false; with_tensorrt = false }

abbrev given : RunOptions ℕ
given = record options { backend = tensorrt; allow_mock_fallback = true }

abbrev chosen : Chosen natural natural_float engine initial
chosen = record { backend = mock_backend; state = loaded }

abbrev fallen_back : RunOptions ℕ
fallen_back = record given { fallback_used = true; requested_backend = codes "tensorrt" }

falls_back :
    choose_engine natural natural_float engine initial build given ≡ (fallen_back, some chosen)
unfolding choose_engine make_engine market_data_ingress.Runner.Program.resolve_backend
    market_data_ingress.Runner.Program.use_mock_fallback backend_name
    market_data_ingress.Runner.Program.load_engine market_data_ingress.Engine.Mock.load
falls_back = refl

choose_engine_policy_example :
    AsRequested natural natural_float engine initial given fallen_back mock_backend
choose_engine_policy_example =
    choose_engine_policy natural natural_float engine initial build given fallen_back chosen refl
      refl falls_back
