-- ===== src/Engine/Tensorrt/Loading.antt =====
-- src/engine_tensorrt.cpp: `initializeExecution` and the two ways to load a model.
pub mod Tensors
pub mod Ownership
pub mod Sources
use market_data_ingress.Base.{
  ℕ, zero, suc, ◌*◌, ◌+◌, ◌-◌, ◌/◌, ◌%◌, Bool, true, false, not, ◌&&◌, ◌||◌, Option, none, some,
  List, [], ◌∷◌, ◌++◌, Bytes, if◌then◌else◌, codes, decimal, drop, length, leb, equal, ℤ, pos,
  negsuc,
}
use market_data_ingress.Base.Attempts.{
  Attempt, continue_with, ◌>>=◌, ◌>>◌, done, require, present, inspect, modify, returned,
}
use market_data_ingress.Engine.{RuntimeMetadata}
use market_data_ingress.Engine.Tensorrt.Volume.{checked_volume, bytes_of}
use market_data_ingress.Engine.Tensorrt.Calls
use market_data_ingress.Engine.Tensorrt.Session.{
  Member, Session, S, call, issue, acquire, scoped, destroy_resources,
}

abbrev pub is_empty : Bytes → Bool
is_empty [] = true
is_empty (c ∷ text) = false

unfoldable pub cuda_version_string : ℤ → Bytes
cuda_version_string (negsuc n) = []
cuda_version_string (pos zero) = []
cuda_version_string (pos (suc n)) = decimal (suc n / 1000) ++ (b'.' ∷ decimal (suc n % 1000 / 10))

-- The version of a call that succeeded.
abbrev version_or : Bytes → Option ℤ → Bytes
version_or given none = given
version_or given (some version) = cuda_version_string version

unfoldable pub ends_with_onnx : Bytes → Bool
ends_with_onnx path = leb 5 (length path) && equal (drop (length path - 5) path) (codes ".onnx")

module _ {F D : Type 0} (platform : Calls.Platform F D) where
  open platform use {World, io_names, io_mode, is_float, shape}

  -- The body of the loop over the tensors.
  unfoldable pub name_tensor : ℕ → Bytes → Attempt (S platform) (Unit {0})
  name_tensor engine name s = elim (io_mode engine name) [
    | Calls.neither ↦ (s, some tt)
    | Calls.input ↦
        (require (is_empty s.input_name) >> modify (λ s. record s { input_name = name })) s
    | Calls.output ↦
        (require (is_empty s.output_name) >> modify (λ s. record s { output_name = name })) s
  ]

  unfoldable pub name_tensors : ℕ → List (Option Bytes) → Attempt (S platform) (Unit {0})
  unfolding name_tensor
  name_tensors engine [] = done tt
  name_tensors engine (none ∷ names) = name_tensors engine names
  name_tensors engine (some name ∷ names) = name_tensor engine name >> name_tensors engine names

  -- The metadata at the end of `initializeExecution`.
  unfoldable pub describe : World → RuntimeMetadata → RuntimeMetadata
  describe world metadata =
      let versions = record metadata {
        backend_version =
            decimal platform.tensorrt_major
            ++ (b'.'
                ∷ (decimal platform.tensorrt_minor ++ (b'.' ∷ decimal platform.tensorrt_patch)));
        cuda_runtime_version =
            version_or metadata.cuda_runtime_version (platform.runtime_version world);
        cuda_driver_version =
            version_or metadata.cuda_driver_version (platform.driver_version world);
      } in
      elim (platform.properties world) [
        | none ↦ versions
        | some properties ↦ record versions {
          device_name = properties.name;
          compute_capability = decimal properties.major ++ (b'.' ∷ decimal properties.minor);
          device_memory_bytes = properties.total_memory;
        }
      ]

  -- The tensors of an engine, found and checked: the sizes of the two buffers.
  unfoldable pub inspect_tensors : ℕ → Attempt (S platform) (Unit {0})
  inspect_tensors engine = do
    name_tensors engine (io_names engine)
    input_name ← inspect (λ (s : S platform). s.input_name)
    output_name ← inspect (λ (s : S platform). s.output_name)
    require (not (is_empty input_name || is_empty output_name))
    require (is_float engine input_name && is_float engine output_name)
    input_elements ← present (checked_volume (shape engine input_name))
    output_elements ← present (checked_volume (shape engine output_name))
    modify (λ (s : S platform). record s {
      input_bytes = bytes_of input_elements;
      output_bytes = bytes_of output_elements;
    })

  -- The context, the stream, the events and the buffers, in this order.
  unfoldable pub acquire_resources : ℕ → Attempt (S platform) (ℕ × ℕ × ℕ)
  acquire_resources engine = do
    input_bytes ← inspect (λ (s : S platform). s.input_bytes)
    output_bytes ← inspect (λ (s : S platform). s.output_bytes)
    context ← acquire platform Member.context (Calls.create_context engine)
    acquire platform Member.stream Calls.create_stream
    acquire platform Member.device_start Calls.create_event
    acquire platform Member.device_stop Calls.create_event
    input ← acquire platform Member.input_device (Calls.allocate_device input_bytes)
    output ← acquire platform Member.output_device (Calls.allocate_device output_bytes)
    acquire platform Member.input_host (Calls.allocate_host input_bytes)
    acquire platform Member.output_host (Calls.allocate_host output_bytes)
    done (context, input, output)

  -- Behind the test for an engine.
  unfoldable pub initialize_with : ℕ → Attempt (S platform) (Unit {0})
  initialize_with engine = do
    inspect_tensors engine
    (context, input, output) ← acquire_resources engine
    input_name ← inspect (λ (s : S platform). s.input_name)
    output_name ← inspect (λ (s : S platform). s.output_name)
    call platform (Calls.bind context input_name (some input))
    call platform (Calls.bind context output_name (some output))
    modify (λ (s : S platform). record s { metadata = describe s.world s.metadata })

  unfoldable pub initialize_execution : Attempt (S platform) (Unit {0})
  initialize_execution = do
    pointer ← inspect (λ (s : S platform). s.pointers Member.engine)
    engine ← present pointer
    initialize_with engine

  -- What `loadSerializedEngine` does with the bytes of the file.
  unfoldable pub load_bytes : Bytes → Attempt (S platform) (Unit {0})
  load_bytes model = do
    require (not (is_empty model))
    runtime ← acquire platform Member.runtime Calls.create_runtime
    acquire platform Member.engine (Calls.deserialize runtime model)
    initialize_execution

  unfoldable pub load_serialized_engine : Bytes → Attempt (S platform) (Unit {0})
  load_serialized_engine model_path = do
    contents ← inspect (λ (s : S platform). platform.file model_path s.world)
    model ← present contents
    load_bytes model

  -- What `loadOnnx` does with the serialized network.
  unfoldable pub load_built : ℕ → Attempt (S platform) (Unit {0})
  load_built serialized = do
    runtime ← acquire platform Member.runtime Calls.create_runtime
    acquire platform Member.engine (Calls.deserialize_memory runtime serialized)
    initialize_execution

  -- Its part from the builder configuration on.
  unfoldable pub build_network : (builder network : ℕ) → Attempt (S platform) (Unit {0})
  build_network builder network =
      scoped platform Calls.Kind.config (Calls.create_config builder) λ config.
        modify (issue platform (Calls.set_workspace config (256 * 1024 * 1024)))
        >> scoped platform Calls.Kind.serialized (Calls.build builder network config) load_built

  unfoldable pub load_onnx : Bytes → Attempt (S platform) (Unit {0})
  load_onnx model_path = scoped platform Calls.Kind.builder Calls.create_builder λ builder.
      scoped platform Calls.Kind.network (Calls.create_network builder) λ network.
        scoped platform Calls.Kind.parser (Calls.create_parser network) λ parser.
          call platform (Calls.parse_file parser model_path) >> build_network builder network

  unfoldable pub load : Bytes → S platform → S platform × Bool
  load model_path s =
      let cleared = destroy_resources platform s in
      returned (
        if ends_with_onnx model_path
        then load_onnx model_path cleared
        else load_serialized_engine model_path cleared)
