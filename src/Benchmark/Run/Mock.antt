-- ===== src/Benchmark/Run/Mock.antt =====
-- Benchmarks of the mock backend: src/benchmark.cpp on src/engine_mock.cpp.
use native.Mathlib.Nat.{le-div_iff_mul-le}
use market_data_ingress.Base.{
  size_max, ℕ, zero, suc, ◌+◌, ◌*◌, ◌/◌, ◌≤◌, ◌≡◌, refl, ap, sym, ◌∙◌, ◌++◌, ◌==◌, ltb, ◌||◌, true,
  false, none, List, [], ◌∷◌, length, replicate, arith, Double, Float, ok,
}
use market_data_ingress.Engine.{RunOptions, InferenceStats, Engine}
use market_data_ingress.Engine.Mock.{MockState, fill, infer_into, mock_engine}
use market_data_ingress.Benchmark.Run.{
  Progress, infer, warm_up, measure, push_some, collect, check_shapes, input_from, run_benchmark,
  Machine, input_buffer, output_buffer, end_to_end_buffer, device_buffer,
}

length-input_from : {F D : Type 0} (f : Float F D) (n i : ℕ) → length (input_from f n i) ≡ n
unfolding input_from
length-input_from f zero i = refl
length-input_from f (suc n) i = ap suc (length-input_from f n (i + 1))

length-replicate : {A : Type 0} (n : ℕ) (a : A) → length (replicate n a) ≡ n
length-replicate zero a = refl
length-replicate (suc n) a = ap suc (length-replicate n a)

check_shapes_free :
    {D : Type 0} (machine : Machine D) (options : RunOptions D) (capacity : ℕ)
    → capacity ≡ 0
    → 1 ≤ options.input_size
    → 1 ≤ options.batch_size
    → 1 ≤ options.iterations
    → options.input_size ≤ size_max / options.batch_size
    → 1 ≤ options.input_size * options.batch_size
    → machine.allocates input_buffer (options.input_size * options.batch_size) ≡ true
    → machine.allocates output_buffer (options.input_size * options.batch_size) ≡ true
    → check_shapes machine options capacity 0
      ≡ ok (options.input_size * options.batch_size, options.input_size * options.batch_size)
unfolding check_shapes
check_shapes_free machine options capacity free input batch iterations fits positive has_input
      has_output =
    ground arith

module _ {F D : Type 0} (d : Double D) (f : Float F D) where
  abbrev engine : Engine F D
  engine = mock_engine f

  length-fill :
      (n : ℕ) (input output : List F) → length (fill {D = D} f n input output) ≡ length output
  unfolding fill
  length-fill zero input output = refl
  length-fill (suc n) [] output = refl
  length-fill (suc n) (x ∷ input) [] = refl
  length-fill (suc n) (x ∷ input) (y ∷ output) = ap suc (length-fill n input output)

  -- An output buffer of the length of the input, which is not empty.
  Fits : List F → Progress d f engine → Type 0
  Fits input progress = (1 ≤ length input) × (length progress.output ≡ length input)

  infer-Fits :
      (input : List F) (progress : Progress d f engine)
      → Fits input progress
      → ((infer d f engine input progress).1 ≡ true)
        × Fits input (infer d f engine input progress).0
  unfolding infer infer_into Fits
  infer-Fits input progress (positive, same) =
      let go : (length input == 0 || ltb (length progress.output) (length input)) ≡ false =
        ground arith in
      (
        rw (infer, infer_into, go) refl,
        (
          positive,
          rw (infer, infer_into, go) (length-fill (length input) input progress.output ∙ same),
        ),
      )

  warm_up-Fits :
      (rounds : ℕ) (input : List F) (progress : Progress d f engine)
      → Fits input progress
      → (after : Progress d f engine) × (warm_up d f engine rounds input progress ≡ ok after)
        × Fits input after
  unfolding warm_up
  warm_up-Fits zero input progress fits = (progress, refl, fits)
  warm_up-Fits (suc rounds) input progress fits =
      let (succeeds, fits_after) = infer-Fits input progress fits in
      let (after, warm, fits_last) =
        warm_up-Fits rounds input (infer d f engine input progress).0 fits_after in
      (after, rw (warm_up, succeeds) warm, fits_last)

  measure-Fits :
      (elapsed : ℕ → D) (rounds i : ℕ) (input : List F) (progress : Progress d f engine)
      → Fits input progress
      → (after : Progress d f engine) × (measure d f engine elapsed rounds i input progress
          ≡ ok after)
  unfolding measure Fits
  measure-Fits elapsed zero i input progress fits = (progress, refl)
  measure-Fits elapsed (suc rounds) i input progress fits =
      let (succeeds, fits_after) = infer-Fits input progress fits in
      let called = (infer d f engine input progress).0 in
      let recorded = record called {
        end_to_end_latencies = called.end_to_end_latencies ++ (elapsed i ∷ []);
        device_latencies = push_some d f engine none called.device_latencies;
      } in
      let (after, measured) = measure-Fits elapsed rounds (i + 1) input recorded fits_after in
      (after, rw (measure, succeeds) measured)

  -- A run of the mock on a loaded state, whose sizes and iterations are not zero, and whose product
  -- of sizes fits in 64 bits, ends with statistics, whatever the clock shows, if its four vectors get
  -- their memory: the input, the output, and the two of the latencies.
  pub run_benchmark_mock :
      (machine : Machine D) (options : RunOptions D) (state : MockState)
      → state.input_elements ≡ 0
      → 1 ≤ options.input_size
      → 1 ≤ options.batch_size
      → 1 ≤ options.iterations
      → options.input_size * options.batch_size ≤ size_max
      → machine.allocates input_buffer (options.input_size * options.batch_size) ≡ true
      → machine.allocates output_buffer (options.input_size * options.batch_size) ≡ true
      → machine.allocates end_to_end_buffer options.iterations ≡ true
      → machine.allocates device_buffer options.iterations ≡ true
      → (stats : InferenceStats D) × (last : MockState) × (run_benchmark d f engine machine options
            state
          ≡ ok (stats, last))
  unfolding run_benchmark
  run_benchmark_mock machine options state loaded input batch iterations fits has_input has_output
        has_times has_device =
      let total = options.input_size * options.batch_size in
      let positive : 1 ≤ total = grind arith in
      let accepted =
        check_shapes_free machine options state.input_elements loaded input batch iterations
          ((le-div_iff_mul-le batch).1 fits) positive has_input has_output in
      let start : Progress d f engine = record {
        state = state;
        output = replicate total (f.literal 0 0);
        output_elements = 0;
        end_to_end_latencies = [];
        device_latencies = [];
      } in
      let whole = length-input_from f total 0 in
      let start_fits : Fits (input_from f total 0) start =
        unfold Fits in (rw (whole) positive, length-replicate total (f.literal 0 0) ∙ sym whole) in
      let (warmed, warm, warm_fits) =
        warm_up-Fits options.warmup (input_from f total 0) start start_fits in
      let (finished, measured) =
        measure-Fits machine.elapsed options.iterations 0 (input_from f total 0) warmed warm_fits in
      (
        collect d f engine options (input_from f total 0) finished,
        finished.state,
        rw (run_benchmark, accepted, warm, has_times, has_device, measured) refl,
      )
