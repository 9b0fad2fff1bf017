-- ===== src/Tests/TensorrtRuns.antt =====
-- The theorems about src/engine_tensorrt.cpp on a platform that answers every call.
use market_data_ingress.Base.{
  ltb, ◌^◌, ℕ, ◌+◌, ◌≤◌, ◌≡◌, refl, ◌↔◌, ◌⊎◌, true, equal, arith, false, Option, none, some, List,
  [], ◌∷◌, codes, ok, ◌++◌, All, ◌≢◌, size_max, pos,
}
use market_data_ingress.Engine.{
  RunOptions, default_options, no_metadata, InferenceStats, LatencyDistribution, Inference,
}
use market_data_ingress.Engine.Tensorrt.Calls
use market_data_ingress.Engine.Tensorrt.Volume.{checked_volume, bytes_of}
use market_data_ingress.Engine.Tensorrt.Volume.Exact.{IsPositive, product, checked_volume_iff}
use market_data_ingress.Engine.Tensorrt.Session.{
  index, call, calls, Member, S, created, destroy_resources,
}
use market_data_ingress.Engine.Tensorrt.Session.Balance.{opened, closed, held, Sound}
use market_data_ingress.Engine.Tensorrt.Loading.{load}
use market_data_ingress.Engine.Tensorrt.Inference.{
  run_inference, execute, copied, member, infer_into, enable_cuda_graph, tensorrt_engine,
}
use market_data_ingress.Engine.Tensorrt.Inference.Results.{Answers, infer_into_lem}
use market_data_ingress.Engine.Tensorrt.Lifetime.{
  Reachable, constructed, loaded, inferred, graph_enabled, reachable_account, destructor_account,
}
use market_data_ingress.Benchmark.Statistics.{sort, summarize, percentile}
use market_data_ingress.Benchmark.Run.{
  Machine, check_shapes, run_benchmark, input_from, warm_up, measure, infer, collect,
}
use market_data_ingress.Engine.Tensorrt.Progress.Inference.{load_then_infer}
use market_data_ingress.Interop.DeviceTimes.{run_benchmark_tensorrt}
use market_data_ingress.Tests.Numbers.{natural, natural_float}
use market_data_ingress.Tests.Devices.{platform}

abbrev new : S platform
new = created (record { next = 1; buffer = [] })

abbrev path : List ℕ
path = codes "models/tiny.onnx"

-- An engine that has loaded a model and has run once, by a graph.
abbrev used : S platform
used =
    (infer_into platform (some (7 ∷ 8 ∷ 9 ∷ 10 ∷ [])) 4 (some (0 ∷ 0 ∷ 0 ∷ 0 ∷ [])) 4
      (enable_cuda_graph platform (load platform path new).0).0).0

used-Reachable : Reachable platform used
used-Reachable =
    inferred (some (7 ∷ 8 ∷ 9 ∷ 10 ∷ [])) 4 (some (0 ∷ 0 ∷ 0 ∷ 0 ∷ [])) 4
      (enable_cuda_graph platform (load platform path new).0).0
      (graph_enabled (load platform path new).0
        (loaded path new (constructed (record { next = 1; buffer = [] }))))

-- The measure that counts every resource once.
abbrev each : Calls.Kind → ℕ → ℕ
each kind handle = 1

reachable_account_example :
    (opened each used.log ≡ closed each used.log + held each used.pointers) × Sound each used.log
reachable_account_example = reachable_account platform each used used-Reachable

destructor_account_example :
    (opened each (destroy_resources platform used).log
      ≡ closed each (destroy_resources platform used).log)
    × ((m : Member) → (destroy_resources platform used).pointers m ≡ none)
destructor_account_example = destructor_account platform each used used-Reachable

checked_volume_iff_example : (checked_volume (pos 2 ∷ pos 3 ∷ []) ≡ some 6) ↔ (
    ((pos 2 ∷ pos 3 ∷ []) ≢ [])
    × All IsPositive (pos 2 ∷ pos 3 ∷ [])
    × (product (pos 2 ∷ pos 3 ∷ []) ≡ 6)
    × (6 ≤ size_max))
checked_volume_iff_example = checked_volume_iff (pos 2 ∷ pos 3 ∷ []) 6

abbrev handles : Member → Option ℕ
handles Member.graph_execution = none
handles m = some (index m)

-- An engine with a model of one element, each of whose members is its own handle.
abbrev ready : S platform
ready = record new {
  pointers = handles;
  input_bytes = 4;
  output_bytes = 4;
  input_name = codes "in";
  output_name = codes "out";
}

-- What it leaves of an inference.
abbrev inferred_once : S platform × Inference ℕ
inferred_once = infer_into platform (some (7 ∷ [])) 1 (some (0 ∷ [])) 1 ready

infer_into_lem_example :
    ((inferred_once.1 ≡ record { output = 0 ∷ []; output_elements = 0; succeeded = false })
      × (inferred_once.0.last_device_latency_us ≡ none))
    ⊎ Answers platform (some (7 ∷ [])) 1 (some (0 ∷ [])) 1 ready inferred_once.1 inferred_once.0
infer_into_lem_example = infer_into_lem platform (some (7 ∷ [])) 1 (some (0 ∷ [])) 1 ready

abbrev options : RunOptions ℕ
options = record (default_options natural) { input_size = 1; iterations = 1; warmup = 1 }

abbrev machine : Machine ℕ
machine = record { elapsed = λ i. 2000; allocates = λ buffer elements. ltb elements (2 ^ 60) }

-- The calls of one inference, which answer the numbers from `n` on; the latest first.
abbrev round : ℕ → List (Calls.Call × Option ℕ)
round n =
    (Calls.elapsed (some 4) (some 5), some (n + 6))
    ∷ (Calls.synchronize (some 3), some (n + 5))
    ∷ (Calls.copy_to_host 9 7 4 3, some (n + 4))
    ∷ (Calls.record_event (some 5) 3, some (n + 3))
    ∷ (Calls.enqueue 2 3, some (n + 2))
    ∷ (Calls.record_event (some 4) 3, some (n + 1))
    ∷ (Calls.copy_to_device 6 8 4 3, some n)
    ∷ []

abbrev finished : S platform
finished = record ready {
  last_device_latency_us = some 250000;
  world = record { next = 15; buffer = 0 ∷ [] };
  log = round 8 ++ round 1;
}

abbrev of_one : ℕ → LatencyDistribution ℕ
of_one us = record {
  samples = 1;
  mean_us = us;
  min_us = us;
  p50_us = us;
  p90_us = us;
  p95_us = us;
  p99_us = us;
  max_us = us;
  stddev_us = 0;
}

abbrev stats : InferenceStats ℕ
stats = record {
  end_to_end = of_one 2000;
  device_compute = some (of_one 250000);
  validation = none;
  cuda_graph = false;
  runtime = no_metadata;
  throughput_inferences_per_second = 0;
  throughput_samples_per_second = 0;
  input_elements_per_batch = 1;
  backend = codes "tensorrt-gpu";
}

run_stats :
    run_benchmark natural natural_float (tensorrt_engine platform) machine options ready
    ≡ ok (stats, finished)
unfolding run_benchmark check_shapes input_from warm_up measure infer collect summarize sort
    percentile infer_into run_inference execute copied member bytes_of call calls
run_stats = refl

run_benchmark_tensorrt_example :
    (device : LatencyDistribution ℕ) × (stats.device_compute ≡ some device)
    × (device.samples ≡ options.iterations)
run_benchmark_tensorrt_example =
    run_benchmark_tensorrt platform machine options ready finished stats run_stats

load_then_infer_example :
    let loaded = load platform path new in
    (loaded.1 ≡ true)
    × ((infer_into platform
          (some (7 ∷ 8 ∷ 9 ∷ 10 ∷ []))
          4
          (some (0 ∷ 0 ∷ 0 ∷ 0 ∷ []))
          4
          loaded.0).1.succeeded
        ≡ true)
unfolding equal checked_volume market_data_ingress.Engine.Tensorrt.Volume.volume_from
load_then_infer_example =
    load_then_infer platform (codes "in") (codes "out") 4 4 path (7 ∷ 8 ∷ 9 ∷ 10 ∷ [])
      (0 ∷ 0 ∷ 0 ∷ 0 ∷ []) 4 new (λ c world. (world.next, refl))
      (λ engine. (refl, refl, refl, refl, refl, refl, refl)) refl refl
      (λ world. (codes "engine", refl, refl)) (omega arith) (omega arith) (omega arith)
