-- ===== src/Benchmark/Run/Samples.antt =====
-- The counts that src/benchmark.cpp's `run_benchmark` reports.
use native.Mathlib.Nat.{le-div_iff_mul-le}
use market_data_ingress.Base.{
  size_max, not, throw_if, ℕ, zero, suc, ◌+◌, ◌/◌, ◌++◌, ◌*◌, ◌≡◌, ◌≤◌, refl, sym, ◌∙◌, List, [],
  ◌∷◌, length, arith, Double, Float, Bool-cases, inl, inr, ◌⊎◌, ok, err, bind-eq-ok, length-append,
  some, none, Option, List-cases,
}
use market_data_ingress.Engine.{RunOptions, InferenceStats, LatencyDistribution, Engine}
use market_data_ingress.Benchmark.Statistics.{summarize}
use market_data_ingress.Benchmark.Statistics.Order.{samples-summarize}
use market_data_ingress.Benchmark.Run.{
  Progress, infer, warm_up, push_some, measure, collect, check_shapes, input_from, run_benchmark,
  Machine, end_to_end_buffer, device_buffer, out_of_memory,
}

accepted_shapes :
    {D : Type 0} (machine : Machine D) (options : RunOptions D) (capacity declared : ℕ)
    (total output : ℕ)
    → check_shapes machine options capacity declared ≡ ok (total, output)
    → (total ≡ options.input_size * options.batch_size)
      × (1 ≤ options.input_size)
      × (1 ≤ options.batch_size)
      × (1 ≤ options.iterations)
      × (options.input_size ≤ size_max / options.batch_size)
      × (1 ≤ output)
unfolding check_shapes
accepted_shapes machine options capacity declared total output h = ground arith

-- For the shapes that a run accepts, the input has as many elements as the product of the sizes, which
-- fits in 64 bits, and neither the counts of elements nor the iterations are zero.
pub check_shapes_lem :
    {D : Type 0} (machine : Machine D) (options : RunOptions D) (capacity declared : ℕ)
    (total output : ℕ)
    → check_shapes machine options capacity declared ≡ ok (total, output)
    → (total ≡ options.input_size * options.batch_size)
      × (total ≤ size_max)
      × (1 ≤ total)
      × (1 ≤ output)
      × (1 ≤ options.iterations)
check_shapes_lem machine options capacity declared total output h =
    let (product, input, batch, iterations, bound, out) =
      accepted_shapes machine options capacity declared total output h in
    let fits = (le-div_iff_mul-le batch).0 bound in
    (product, omega arith, grind arith, out, iterations)

pub clash : {E A : Type 0} {e : E} {a : A} → err e ≡ ok a → ⊥
clash h = cc

module _ {F D : Type 0} (d : Double D) (f : Float F D) (engine : Engine F D) where
  pub warm_up_keeps :
      (rounds : ℕ) (input : List F) (progress after : Progress d f engine)
      → warm_up d f engine rounds input progress ≡ ok after
      → (after.end_to_end_latencies ≡ progress.end_to_end_latencies)
        × (after.device_latencies ≡ progress.device_latencies)
  unfolding warm_up infer
  warm_up_keeps zero input progress after h = (cc h, cc h)
  warm_up_keeps (suc rounds) input progress after h =
      let called = infer d f engine input progress in
      elim (Bool-cases called.1) [
        | inl succeeded ↦ warm_up_keeps rounds input called.0 after (rw (warm_up, succeeded) at h)
        | inr failed ↦ absurd (clash (rw (warm_up, failed) at h))
      ]

  push_some_at_most :
      (latency : Option D) (latencies : List D)
      → length (push_some d f engine latency latencies) ≤ length latencies + 1
  push_some_at_most none latencies = omega arith
  push_some_at_most (some latency) latencies =
      let one_more = length-append latencies (latency ∷ []) in omega arith

  measure_counts :
      (elapsed : ℕ → D) (rounds i : ℕ) (input : List F) (progress after : Progress d f engine)
      → measure d f engine elapsed rounds i input progress ≡ ok after
      → (length after.end_to_end_latencies ≡ length progress.end_to_end_latencies + rounds)
        × (length after.device_latencies ≤ length progress.device_latencies + rounds)
  unfolding measure infer
  measure_counts elapsed zero i input progress after h =
      let same : progress ≡ after = cc h in (rw (same) (omega arith), rw (same) (omega arith))
  measure_counts elapsed (suc rounds) i input progress after h =
      let called = infer d f engine input progress in
      let grown =
        push_some d f engine (engine.last_device_latency_us called.0.state)
          called.0.device_latencies in
      let recorded = record called.0 {
        end_to_end_latencies = called.0.end_to_end_latencies ++ (elapsed i ∷ []);
        device_latencies = grown;
      } in
      elim (Bool-cases called.1) [
        | inl succeeded ↦
            let (all, device) =
              measure_counts elapsed rounds (i + 1) input recorded after
                (rw (measure, succeeded) at h) in
            let one_more = length-append called.0.end_to_end_latencies (elapsed i ∷ []) in
            let at_most =
              push_some_at_most (engine.last_device_latency_us called.0.state)
                called.0.device_latencies in
            (omega arith, omega arith)
        | inr failed ↦ absurd (clash (rw (measure, failed) at h))
      ]

  measure_from_none :
      (elapsed : ℕ → D) (rounds : ℕ) (input : List F) (progress after : Progress d f engine)
      → progress.end_to_end_latencies ≡ []
      → progress.device_latencies ≡ []
      → measure d f engine elapsed rounds 0 input progress ≡ ok after
      → (length after.end_to_end_latencies ≡ rounds) × (length after.device_latencies ≤ rounds)
  measure_from_none elapsed rounds input progress after none_yet no_device h =
      let (all, at_most) = measure_counts elapsed rounds 0 input progress after h in
      let empty : length progress.end_to_end_latencies ≡ 0 = rw (none_yet) refl in
      let empty_device : length progress.device_latencies ≡ 0 = rw (no_device) refl in
      (omega arith, omega arith)

  collect_counts :
      (options : RunOptions D) (input : List F) (finished : Progress d f engine)
      → let stats = collect d f engine options input finished in
        (stats.end_to_end.samples ≡ length finished.end_to_end_latencies)
        × ((stats.device_compute ≡ none)
            ⊎ ((device : LatencyDistribution D) × (stats.device_compute ≡ some device)
                × (1 ≤ device.samples)
                × (device.samples ≤ length finished.device_latencies)))
  unfolding collect
  collect_counts options input finished = (
    samples-summarize d finished.end_to_end_latencies,
    elim (List-cases finished.device_latencies) [
      | inl empty ↦ inl (rw (empty) refl)
      | inr (x, rest, more) ↦
          let samples = samples-summarize d (x ∷ rest) in
          let counted : length finished.device_latencies ≡ suc (length rest) = rw (more) refl in
          inr (summarize d (x ∷ rest), rw (more) refl, omega arith, omega arith)
    ],
  )

  -- A run that succeeds reports one end-to-end sample for each iteration, whatever the warm-up; its
  -- device samples, if it has any, are at least one and at most that many.
  pub run_benchmark_samples :
      (machine : Machine D) (options : RunOptions D) (state last : engine.State)
      (stats : InferenceStats D)
      → run_benchmark d f engine machine options state ≡ ok (stats, last)
      → (stats.end_to_end.samples ≡ options.iterations)
        × ((stats.device_compute ≡ none)
            ⊎ ((device : LatencyDistribution D) × (stats.device_compute ≡ some device)
                × (1 ≤ device.samples)
                × (device.samples ≤ options.iterations)))
  unfolding run_benchmark collect
  run_benchmark_samples machine options state last stats h =
      let (shapes, checked, h1) =
        bind-eq-ok
          (check_shapes machine options (engine.input_elements_per_batch state)
            (engine.output_elements_per_batch state))
          _ h in
      let (warmed, warm, h2) =
        bind-eq-ok (warm_up d f engine options.warmup (input_from f shapes.0 0) _) _ h1 in
      let (_, _, h3) =
        bind-eq-ok
          (throw_if (not (machine.allocates end_to_end_buffer options.iterations)) out_of_memory) _
          h2 in
      let (_, _, h4) =
        bind-eq-ok
          (throw_if (not (machine.allocates device_buffer options.iterations)) out_of_memory) _
          h3 in
      let (finished, run, h5) =
        bind-eq-ok
          (measure d f engine machine.elapsed options.iterations 0 (input_from f shapes.0 0) warmed)
          _ h4 in
      let same : collect d f engine options (input_from f shapes.0 0) finished ≡ stats = cc h5 in
      let (kept, kept_device) =
        warm_up_keeps options.warmup (input_from f shapes.0 0) _ warmed warm in
      let (all, at_most) =
        measure_from_none machine.elapsed options.iterations (input_from f shapes.0 0) warmed
          finished kept kept_device run in
      let (samples, device_samples) = collect_counts options (input_from f shapes.0 0) finished in
      rw (sym same) (
        samples ∙ all,
        elim device_samples [
          | inl unmeasured ↦ inl unmeasured
          | inr (device, measured, positive, bound) ↦ inr (device, measured, positive, omega arith)
        ],
      )
