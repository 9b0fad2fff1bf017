-- ===== src/Benchmark/Run/Device.antt =====
-- The device times that `run_benchmark` reports.
use market_data_ingress.Base.{
  not, throw_if, ℕ, zero, suc, ◌+◌, ◌++◌, ◌≡◌, ◌≤◌, refl, sym, ◌∙◌, List, [], ◌∷◌, length, arith,
  Double, Float, true, Bool-cases, inl, inr, ok, bind-eq-ok, length-append, some, Option,
  List-cases,
}
use market_data_ingress.Engine.{RunOptions, InferenceStats, LatencyDistribution, Engine}
use market_data_ingress.Benchmark.Statistics.{summarize}
use market_data_ingress.Benchmark.Statistics.Order.{samples-summarize}
use market_data_ingress.Benchmark.Run.{
  Progress, infer, warm_up, push_some, measure, collect, check_shapes, input_from, run_benchmark,
  Machine, end_to_end_buffer, device_buffer, out_of_memory,
}
use market_data_ingress.Benchmark.Run.Samples.{warm_up_keeps, check_shapes_lem, clash}

module _ {F D : Type 0} (d : Double D) (f : Float F D) (engine : Engine F D) where
  -- An engine that has a device time after each inference that succeeds.
  abbrev pub IsTimed : Type 0
  IsTimed =
      (input : Option (List F)) (input_elements : ℕ) (output : Option (List F)) (capacity : ℕ)
      (s : engine.State)
      → let called = engine.infer_into input input_elements output capacity s in
        called.1.succeeded ≡ true
        → (latency : D) × (engine.last_device_latency_us called.0 ≡ some latency)

  measure_device :
      IsTimed
      → (elapsed : ℕ → D) (rounds i : ℕ) (input : List F) (progress after : Progress d f engine)
      → measure d f engine elapsed rounds i input progress ≡ ok after
      → length after.device_latencies ≡ length progress.device_latencies + rounds
  unfolding measure infer
  measure_device timed elapsed zero i input progress after h =
      let same : progress ≡ after = cc h in rw (same) (omega arith)
  measure_device timed elapsed (suc rounds) i input progress after h =
      let called = infer d f engine input progress in
      let grown =
        push_some d f engine (engine.last_device_latency_us called.0.state)
          called.0.device_latencies in
      let recorded = record called.0 {
        end_to_end_latencies = called.0.end_to_end_latencies ++ (elapsed i ∷ []);
        device_latencies = grown;
      } in
      elim (Bool-cases called.1) [
        | inl succeeded ↦
            let all =
              measure_device timed elapsed rounds (i + 1) input recorded after
                (rw (measure, succeeded) at h) in
            let (latency, there) =
              timed (some input) (length input) (some progress.output) (length progress.output)
                progress.state succeeded in
            let one_more : length grown ≡ length progress.device_latencies + 1 =
              rw there (length-append progress.device_latencies (latency ∷ [])) in
            omega arith
        | inr failed ↦ absurd (clash (rw (measure, failed) at h))
      ]

  collect_device :
      (options : RunOptions D) (input : List F) (finished : Progress d f engine)
      → 1 ≤ length finished.device_latencies
      → (device : LatencyDistribution D) × ((collect d f engine options input
            finished).device_compute
          ≡ some device)
        × (device.samples ≡ length finished.device_latencies)
  unfolding collect
  collect_device options input finished positive = elim (List-cases finished.device_latencies) [
    | inl empty ↦ absurd (ground arith)
    | inr (x, rest, more) ↦
        let samples = samples-summarize d (x ∷ rest) in
        (summarize d (x ∷ rest), rw (more) refl, rw (more) samples)
  ]

  finished_device :
      (options : RunOptions D) (input : List F) (finished : Progress d f engine)
      (stats : InferenceStats D)
      → collect d f engine options input finished ≡ stats
      → 1 ≤ options.iterations
      → length finished.device_latencies ≡ options.iterations
      → (device : LatencyDistribution D) × (stats.device_compute ≡ some device)
        × (device.samples ≡ options.iterations)
  finished_device options input finished stats same positive all =
      let (device, measured, samples) = collect_device options input finished (omega arith) in
      (device, rw (sym same) measured, samples ∙ all)

  -- A run that succeeds on an engine which times its inferences reports one device sample for each
  -- iteration, whatever the warm-up.
  pub run_benchmark_device :
      IsTimed
      → (machine : Machine D) (options : RunOptions D) (state last : engine.State)
        (stats : InferenceStats D)
      → run_benchmark d f engine machine options state ≡ ok (stats, last)
      → (device : LatencyDistribution D) × (stats.device_compute ≡ some device)
        × (device.samples ≡ options.iterations)
  unfolding run_benchmark
  run_benchmark_device timed machine options state last stats h =
      let (shapes, checked, h1) =
        bind-eq-ok
          (check_shapes machine options (engine.input_elements_per_batch state)
            (engine.output_elements_per_batch state))
          _ h in
      let (warmed, warm, h2) =
        bind-eq-ok (warm_up d f engine options.warmup (input_from f shapes.0 0) _) _ h1 in
      let (_, _, h3) =
        bind-eq-ok
          (throw_if (not (machine.allocates end_to_end_buffer options.iterations)) out_of_memory) _
          h2 in
      let (_, _, h4) =
        bind-eq-ok
          (throw_if (not (machine.allocates device_buffer options.iterations)) out_of_memory) _
          h3 in
      let (finished, run, h5) =
        bind-eq-ok
          (measure d f engine machine.elapsed options.iterations 0 (input_from f shapes.0 0) warmed)
          _ h4 in
      let same : collect d f engine options (input_from f shapes.0 0) finished ≡ stats = cc h5 in
      let (_, _, _, _, positive) =
        check_shapes_lem machine options (engine.input_elements_per_batch state)
          (engine.output_elements_per_batch state) shapes.0 shapes.1 checked in
      let kept =
        (warm_up_keeps d f engine options.warmup (input_from f shapes.0 0) _ warmed warm).1 in
      let none_yet : length warmed.device_latencies ≡ 0 = rw kept refl in
      let all =
        measure_device timed machine.elapsed options.iterations 0 (input_from f shapes.0 0) warmed
          finished run in
      finished_device options (input_from f shapes.0 0) finished stats same (omega arith)
        (omega arith)
