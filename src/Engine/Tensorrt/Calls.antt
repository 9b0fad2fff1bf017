-- ===== src/Engine/Tensorrt/Calls.antt =====
-- What the TensorRT programs ask of CUDA and of TensorRT: the calls of src/engine_tensorrt.cpp and
-- src/build_tiny_engine.cpp, and the platform that answers them, which is a parameter of the models.
use market_data_ingress.Base.{
  ◌≡◌, refl, ◌⊎◌, inl, inr, ℕ, Bool, Option, none, some, List, Bytes, ℤ, Double, Float,
}

-- The resources that a program has to give back. (`graph` is what a capture yields, and `graph_exec`
-- what is launched.)
pub data Kind : Type 0 where
  runtime engine context stream event graph graph_exec device_memory host_memory : Kind
  builder network parser config serialized : Kind

pub record Resource : Type 0 where
  pub kind : Kind
  pub handle : ℕ

pub data Call : Type 0 where
  create_runtime : Call
  deserialize : (runtime : ℕ) → (model : Bytes) → Call
  deserialize_memory : (runtime serialized : ℕ) → Call
  create_context : (engine : ℕ) → Call
  create_stream create_event : Call
  allocate_device allocate_host : (bytes : ℕ) → Call
  bind : (context : ℕ) → (name : Bytes) → (buffer : Option ℕ) → Call
  synchronize : (stream : Option ℕ) → Call
  copy_to_device copy_to_host : (to from bytes stream : ℕ) → Call
  record_event : (event : Option ℕ) → (stream : ℕ) → Call
  enqueue : (context stream : ℕ) → Call
  launch_graph : (graph stream : ℕ) → Call
  elapsed : (start stop : Option ℕ) → Call
  begin_capture end_capture : (stream : ℕ) → Call
  instantiate : (graph : ℕ) → Call
  create_builder : Call
  create_network create_config : (builder : ℕ) → Call
  create_parser : (network : ℕ) → Call
  parse_file : (parser : ℕ) → (path : Bytes) → Call
  set_workspace : (config bytes : ℕ) → Call
  build : (builder network config : ℕ) → Call
  add_input : (network elements : ℕ) → Call
  add_identity : (network input : ℕ) → Call
  set_name : (tensor : ℕ) → (name : Bytes) → Call
  mark_output : (network tensor : ℕ) → Call
  destroy : Resource → Call

-- The resource that a call yields, when it answers a pointer.
unfoldable pub yields : Call → Option Kind
yields create_runtime = some runtime
yields (deserialize _ _) = some engine
yields (deserialize_memory _ _) = some engine
yields (create_context _) = some context
yields create_stream = some stream
yields create_event = some event
yields (allocate_device _) = some device_memory
yields (allocate_host _) = some host_memory
yields (end_capture _) = some graph
yields (instantiate _) = some graph_exec
yields create_builder = some builder
yields (create_network _) = some network
yields (create_config _) = some config
yields (create_parser _) = some parser
yields (build _ _ _) = some serialized
yields _ = none

pub data IoMode : Type 0 where
  input output neither : IoMode

pub IoMode-cases : (mode : IoMode) → (mode ≡ input) ⊎ (mode ≡ output) ⊎ (mode ≡ neither)
IoMode-cases input = inl refl
IoMode-cases output = inr (inl refl)
IoMode-cases neither = inr (inr refl)

-- `cudaDeviceProp`, as far as it is read.
pub record Properties : Type 0 where
  pub name : Bytes
  pub major : ℕ
  pub minor : ℕ
  pub total_memory : ℕ

pub record Platform (F D : Type 0) : Type 1 where
  pub double : Double D
  pub float : Float F D
  pub World : Type 0
  -- A call answers none where it fails (an error status, a null pointer or `false`), and leaves a
  -- null pointer then; otherwise it answers the pointer that it yields, if it yields one.
  pub perform : Call → World → World × Option ℕ
  -- The status of the last `cudaStreamEndCapture`.
  pub capture_succeeded : World → Bool
  pub elapsed_ms : World → F
  -- `memcpy` into a host buffer, and that many elements of one.
  pub write_host : ℕ → List F → World → World
  pub read_host : ℕ → ℕ → World → List F
  pub file : Bytes → World → Option Bytes
  pub io_names : ℕ → List (Option Bytes)
  pub io_mode : ℕ → Bytes → IoMode
  pub is_float : ℕ → Bytes → Bool
  pub shape : ℕ → Bytes → List ℤ
  -- The version that the program was compiled against, and those that the runtime reports.
  pub tensorrt_major : ℕ
  pub tensorrt_minor : ℕ
  pub tensorrt_patch : ℕ
  pub runtime_version : World → Option ℤ
  pub driver_version : World → Option ℤ
  pub properties : World → Option Properties
