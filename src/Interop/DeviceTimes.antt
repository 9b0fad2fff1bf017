-- ===== src/Interop/DeviceTimes.antt =====
-- The device times of src/engine_tensorrt.cpp in the statistics of src/benchmark.cpp.
use market_data_ingress.Base.{◌≡◌, true, false, some, inl, inr, ok}
use market_data_ingress.Engine.{RunOptions, InferenceStats, LatencyDistribution}
use market_data_ingress.Engine.Tensorrt.Calls
use market_data_ingress.Engine.Tensorrt.Session.{S}
use market_data_ingress.Engine.Tensorrt.Inference.{infer_into, tensorrt_engine, latency_of}
use market_data_ingress.Engine.Tensorrt.Inference.Results.{infer_into_lem}
use market_data_ingress.Benchmark.Run.{Machine, run_benchmark}
use market_data_ingress.Benchmark.Run.Device.{IsTimed, run_benchmark_device}

failed : false ≡ true → ⊥
failed h = cc

module _ {F D : Type 0} (platform : Calls.Platform F D) where
  tensorrt_engine-IsTimed : IsTimed platform.double platform.float (tensorrt_engine platform)
  tensorrt_engine-IsTimed input input_elements output capacity s succeeded =
      elim (infer_into_lem platform input input_elements output capacity s) [
        | inl (refused, untimed) ↦ absurd (failed (rw refused at succeeded))
        | inr (_, _, _, _, _, _, _, _, _, _, _, _, _, _, _, _, _, _, _, _, _, _, timed) ↦ (
          latency_of platform (infer_into platform input input_elements output capacity s).0.world,
          timed,
        )
      ]

  -- A run on the TensorRT engine that succeeds reports one device sample for each iteration.
  pub run_benchmark_tensorrt :
      (machine : Machine D) (options : RunOptions D) (state last : S platform)
      (stats : InferenceStats D)
      → run_benchmark platform.double platform.float
          (tensorrt_engine platform)
          machine
          options
          state
        ≡ ok (stats, last)
      → (device : LatencyDistribution D) × (stats.device_compute ≡ some device)
        × (device.samples ≡ options.iterations)
  run_benchmark_tensorrt =
      run_benchmark_device platform.double platform.float (tensorrt_engine platform)
        tensorrt_engine-IsTimed
