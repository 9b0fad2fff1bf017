-- ===== src/Engine/Tensorrt/Inference.antt =====
-- src/engine_tensorrt.cpp: `infer_into`, the CUDA graph, and the class as an engine.
pub mod Account
pub mod Results
pub mod Graph
use market_data_ingress.Base.{
  ℕ, ◌*◌, ◌/◌, ◌%◌, ◌^◌, Bool, true, false, not, ◌&&◌, ◌||◌, Option, none, some, List, [], ◌∷◌,
  ◌++◌, Bytes, ◌==◌, if◌then◌else◌, ltb, codes, take, drop, Double, Float,
}
use market_data_ingress.Base.Attempts.{
  Attempt, continue_with, ◌>>=◌, ◌>>◌, done, require, present, inspect, modify, is_some, returned,
}
use market_data_ingress.Engine.{Engine, Inference}
use market_data_ingress.Engine.Tensorrt.Volume.{bytes_of}
use market_data_ingress.Engine.Tensorrt.Calls
use market_data_ingress.Engine.Tensorrt.Session.{Member, Session, S, call, calls, acquire, scoped}
use market_data_ingress.Engine.Tensorrt.Loading.{load}

-- `memcpy` of that many elements to the front of a buffer.
unfoldable pub copied : {F : Type 0} → ℕ → List F → List F → List F
copied elements from to = take elements from ++ drop elements to

module _ {F D : Type 0} (platform : Calls.Platform F D) where
  open platform use {World}

  -- A member that must not be null.
  unfoldable pub member : Member → Attempt (S platform) ℕ
  member m s = (s, s.pointers m)

  -- The copy to the device, the run of the network between the two events, the copy back, and the
  -- time between the events.
  abbrev pub inference_calls :
      (context stream input_device output_device input_host output_host : ℕ)
      → S platform
      → List Calls.Call
  inference_calls context stream input_device output_device input_host output_host s =
      Calls.copy_to_device input_device input_host s.input_bytes stream
      ∷ Calls.record_event (s.pointers Member.device_start) stream
      ∷ (elim (s.pointers Member.graph_execution) [
        | none ↦ Calls.enqueue context stream
        | some execution ↦ Calls.launch_graph execution stream
      ])
      ∷ Calls.record_event (s.pointers Member.device_stop) stream
      ∷ Calls.copy_to_host output_host output_device s.output_bytes stream
      ∷ Calls.synchronize (some stream)
      ∷ Calls.elapsed (s.pointers Member.device_start) (s.pointers Member.device_stop)
      ∷ []

  abbrev pub latency_of : World → D
  latency_of world =
      platform.double.mul (platform.float.widen (platform.elapsed_ms world))
        (platform.double.of_ℕ 1000)

  abbrev pub keep_latency : S platform → S platform
  keep_latency s = record s { last_device_latency_us = some (latency_of s.world) }

  unfoldable pub execute :
      (context stream input_device output_device input_host output_host : ℕ)
      → Attempt (S platform) (Unit {0})
  execute context stream input_device output_device input_host output_host s =
      (calls platform
            (inference_calls context stream input_device output_device input_host output_host s)
          >> modify keep_latency)
        s

  -- `infer_into` behind its first two lines: the output buffer, and the count of its elements.
  unfoldable pub run_inference :
      Option (List F) → ℕ → Option (List F) → ℕ → Attempt (S platform) (List F × ℕ)
  run_inference input_pointer input_elements output_pointer output_capacity = do
    context ← member Member.context
    stream ← member Member.stream
    input_device ← member Member.input_device
    output_device ← member Member.output_device
    input_host ← member Member.input_host
    output_host ← member Member.output_host
    input ← present input_pointer
    output ← present output_pointer
    require (not (input_elements == 0))
    input_bytes ← inspect (λ (s : S platform). s.input_bytes)
    output_bytes ← inspect (λ (s : S platform). s.output_bytes)
    require (bytes_of input_elements == input_bytes)
    require (not (ltb output_capacity (output_bytes / 4)))
    modify (λ (s : S platform). record s {
      world = platform.write_host input_host (take (input_bytes / 4) input) s.world;
    })
    execute context stream input_device output_device input_host output_host
    world ← inspect (λ (s : S platform). s.world)
    done (
      copied (output_bytes / 4) (platform.read_host output_host (output_bytes / 4) world) output,
      output_bytes / 4,
    )

  abbrev pub buffer : Option (List F) → List F
  buffer none = []
  buffer (some elements) = elements

  -- The output buffer after the call, the count of elements, and the result.
  abbrev pub inference_of : Option (List F) → Option (List F × ℕ) → Inference F
  inference_of given none = record { output = buffer given; output_elements = 0; succeeded = false }
  inference_of given (some (output, elements)) = record {
    output = output;
    output_elements = elements;
    succeeded = true;
  }

  unfoldable pub infer_into :
      Option (List F) → ℕ → Option (List F) → ℕ → S platform → S platform × Inference F
  infer_into input input_elements output output_capacity s =
      let reset = record s { last_device_latency_us = none } in
      let (after, result) = run_inference input input_elements output output_capacity reset in
      (after, inference_of output result)

  -- A call whose failure does not end the method.
  unfoldable pub try_call : Calls.Call → Attempt (S platform) Bool
  try_call c s = let (after, answer) = call platform c s in (after, some (is_some answer))

  -- From the end of the capture on.
  unfoldable pub end_capture : (stream : ℕ) → (enqueue_succeeded : Bool) → Attempt (S platform) ℕ
  end_capture stream enqueue_succeeded =
      scoped platform Calls.Kind.graph (Calls.end_capture stream) λ graph. do
        status ← inspect (λ (s : S platform). platform.capture_succeeded s.world)
        require (enqueue_succeeded && status)
        acquire platform Member.graph_execution (Calls.instantiate graph)

  unfoldable pub capture : (context stream : ℕ) → Attempt (S platform) ℕ
  capture context stream = do
    call platform (Calls.begin_capture stream)
    enqueue_succeeded ← try_call (Calls.enqueue context stream)
    end_capture stream enqueue_succeeded

  unfoldable pub create_graph : Attempt (S platform) ℕ
  create_graph = do
    context ← member Member.context
    stream ← member Member.stream
    call platform (Calls.enqueue context stream)
    call platform (Calls.synchronize (some stream))
    capture context stream

  unfoldable pub enable_cuda_graph : S platform → S platform × Bool
  enable_cuda_graph s = elim (s.pointers Member.graph_execution) [
    | some execution ↦ (s, true)
    | none ↦ returned (create_graph s)
  ]

  -- The class.
  abbrev pub tensorrt_engine : Engine F D
  tensorrt_engine = record {
    State = S platform;
    load = load platform;
    infer_into = infer_into;
    input_elements_per_batch = λ s. s.input_bytes / 4;
    output_elements_per_batch = λ s. s.output_bytes / 4;
    backend_name = λ s. codes "tensorrt-gpu";
    last_device_latency_us = λ s. s.last_device_latency_us;
    enable_cuda_graph = enable_cuda_graph;
    cuda_graph_enabled = λ s. is_some (s.pointers Member.graph_execution);
    runtime_metadata = λ s. s.metadata;
  }
