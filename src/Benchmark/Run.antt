-- ===== src/Benchmark/Run.antt =====
-- src/benchmark.cpp, `run_benchmark`.
pub mod Mock
pub mod Samples
pub mod Device
use market_data_ingress.Base.{
  size_max, ℕ, zero, suc, ◌+◌, ◌-◌, ◌*◌, ◌/◌, ◌%◌, ◌^◌, Bool, not, ◌&&◌, ◌||◌, Option, none, some,
  List, [], ◌∷◌, ◌++◌, Bytes, ◌==◌, ltb, if◌then◌else◌, length, replicate, Result, ok, err, ◌>>=◌,
  ◌>>◌, throw_if, Double, Float,
}
use market_data_ingress.Engine.{
  RunOptions, InferenceStats, LatencyDistribution, OutputValidation, Engine, Inference,
}
use market_data_ingress.Benchmark.Statistics.{summarize}
use market_data_ingress.Benchmark.Validation.{validate}

-- What `run_benchmark` throws.
pub data Failure : Type 0 where
  zero_option size_overflow shape_mismatch no_output_capacity : Failure
  warmup_failed inference_failed : Failure
  out_of_memory : Failure

-- The vectors of `run_benchmark`.
pub data Buffer : Type 0 where
  input_buffer output_buffer end_to_end_buffer device_buffer : Buffer

-- The machine: the time that the clock shows around the measured call `i`, and whether a vector gets
-- the memory for that many elements, where it throws `length_error` or `bad_alloc` otherwise.
pub record Machine (D : Type 0) : Type 0 where
  pub elapsed : ℕ → D
  pub allocates : Buffer → ℕ → Bool

-- The deterministic input, from element `i` on.
unfoldable pub input_from : {F D : Type 0} → Float F D → ℕ → ℕ → List F
input_from f zero i = []
input_from f (suc n) i = f.div (f.of_ℕ (i % 97)) (f.literal 970 1) ∷ input_from f n (i + 1)

-- The tests on the options and on the engine's shape, and the allocations between and behind them: how
-- many elements the input has, and how many the output buffer.
unfoldable pub check_shapes :
    {D : Type 0} → Machine D → RunOptions D → ℕ → ℕ → Result Failure (ℕ × ℕ)
check_shapes machine opts engine_capacity declared_output = do
  throw_if (opts.input_size == 0 || opts.batch_size == 0 || opts.iterations == 0) zero_option
  throw_if (ltb (size_max / opts.batch_size) opts.input_size) size_overflow
  let total_input = opts.input_size * opts.batch_size
  throw_if (not (engine_capacity == 0) && not (total_input == engine_capacity)) shape_mismatch
  throw_if (not (machine.allocates input_buffer total_input)) out_of_memory
  let output_capacity = if declared_output == 0 then total_input else declared_output
  throw_if (output_capacity == 0) no_output_capacity
  throw_if (not (machine.allocates output_buffer output_capacity)) out_of_memory
  ok (total_input, output_capacity)

module _ {F D : Type 0} (d : Double D) (f : Float F D) (engine : Engine F D) where
  open engine use {State}

  -- The local variables that the two loops change.
  pub record Progress : Type 0 where
    pub state : State
    pub output : List F
    pub output_elements : ℕ
    pub end_to_end_latencies : List D
    pub device_latencies : List D

  -- `engine.infer_into(input.data(), …)`: the variables after it, and its result.
  unfoldable pub infer : List F → Progress → Progress × Bool
  infer input progress =
      let (state, inference) =
        engine.infer_into (some input) (length input) (some progress.output)
          (length progress.output) progress.state in
      (
        record progress {
          state = state;
          output = inference.output;
          output_elements = inference.output_elements;
        },
        inference.succeeded,
      )

  unfoldable pub warm_up : ℕ → List F → Progress → Result Failure Progress
  warm_up zero input progress = ok progress
  warm_up (suc rounds) input progress =
      let (after, succeeded) = infer input progress in
      let rest = warm_up rounds input after in if not succeeded then err warmup_failed else rest

  -- `push_back` of a value that may be missing.
  abbrev pub push_some : Option D → List D → List D
  push_some none latencies = latencies
  push_some (some latency) latencies = latencies ++ (latency ∷ [])

  -- The measured loop with `rounds` to go. `elapsed i` is the time that the clock shows around call `i`.
  unfoldable pub measure : (ℕ → D) → ℕ → ℕ → List F → Progress → Result Failure Progress
  measure elapsed zero i input progress = ok progress
  measure elapsed (suc rounds) i input progress =
      let (after, succeeded) = infer input progress in
      let recorded = record after {
        end_to_end_latencies = after.end_to_end_latencies ++ (elapsed i ∷ []);
        device_latencies =
            push_some (engine.last_device_latency_us after.state) after.device_latencies;
      } in
      let rest = measure elapsed rounds (i + 1) input recorded in
      if not succeeded then err inference_failed else rest

  -- The statistics of a finished run.
  unfoldable pub collect : RunOptions D → List F → Progress → InferenceStats D
  collect opts input progress =
      let end_to_end = summarize d progress.end_to_end_latencies in
      let count = d.of_ℕ end_to_end.samples in
      let total_seconds = d.div (d.mul end_to_end.mean_us count) (d.of_ℕ 1_000_000) in
      let timed = d.lt (d.literal 0 0) total_seconds in
      record {
        end_to_end = end_to_end;
        device_compute = elim progress.device_latencies [
          | [] ↦ none
          | x ∷ latencies ↦ some (summarize d (x ∷ latencies))
        ];
        validation =
            if opts.verify_identity
            then some (
                validate d f opts.validation_tolerance input progress.output
                  progress.output_elements)
            else none;
        cuda_graph = engine.cuda_graph_enabled progress.state;
        runtime = engine.runtime_metadata progress.state;
        throughput_inferences_per_second =
            if timed then d.div count total_seconds else d.literal 0 0;
        throughput_samples_per_second =
            if timed
            then d.div (d.mul count (d.of_ℕ opts.batch_size)) total_seconds
            else d.literal 0 0;
        input_elements_per_batch = length input;
        backend = engine.backend_name progress.state;
      }

  unfoldable pub run_benchmark :
      Machine D → RunOptions D → State → Result Failure (InferenceStats D × State)
  run_benchmark machine opts state = do
    shapes ←
        check_shapes machine opts (engine.input_elements_per_batch state)
          (engine.output_elements_per_batch state)
    let input = input_from f shapes.0 0
    let start : Progress = record {
      state = state;
      output = replicate shapes.1 (f.literal 0 0);
      output_elements = 0;
      end_to_end_latencies = [];
      device_latencies = [];
    }
    warmed ← warm_up opts.warmup input start
    throw_if (not (machine.allocates end_to_end_buffer opts.iterations)) out_of_memory
    throw_if (not (machine.allocates device_buffer opts.iterations)) out_of_memory
    finished ← measure machine.elapsed opts.iterations 0 input warmed
    ok (collect opts input finished, finished.state)
