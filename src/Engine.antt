-- ===== src/Engine.antt =====
-- include/marketdata_infer/engine.h: options, statistics, and the interface of an engine.
pub mod Mock
pub mod Factory
pub mod Tensorrt
use market_data_ingress.Base.{ℕ, Bool, Option, List, Bytes, false, codes, [], Double}

pub data BackendHint : Type 0 where
  auto tensorrt mock : BackendHint

pub data LatencyScope : Type 0 where
  end_to_end device_compute : LatencyScope

pub record RunOptions (D : Type 0) : Type 0 where
  pub model_path : Bytes
  pub input_size : ℕ
  pub batch_size : ℕ
  pub iterations : ℕ
  pub warmup : ℕ
  pub target_latency_us : D
  pub metrics_path : Bytes
  pub backend : BackendHint
  pub target_scope : LatencyScope
  pub allow_mock_fallback : Bool
  pub fallback_used : Bool
  pub verify_identity : Bool
  pub use_cuda_graph : Bool
  pub validation_tolerance : D
  pub requested_backend : Bytes

-- The initialisers of `RunOptions`.
abbrev pub default_options : {D : Type 0} → Double D → RunOptions D
default_options d = record {
  model_path = codes "mock";
  input_size = 512;
  batch_size = 1;
  iterations = 200;
  warmup = 20;
  target_latency_us = d.literal 0 0;
  metrics_path = [];
  backend = auto;
  target_scope = end_to_end;
  allow_mock_fallback = false;
  fallback_used = false;
  verify_identity = false;
  use_cuda_graph = false;
  validation_tolerance = d.literal 1 6;
  requested_backend = codes "auto";
}

pub record LatencyDistribution (D : Type 0) : Type 0 where
  pub samples : ℕ
  pub mean_us : D
  pub min_us : D
  pub p50_us : D
  pub p90_us : D
  pub p95_us : D
  pub p99_us : D
  pub max_us : D
  pub stddev_us : D

pub record OutputValidation (D : Type 0) : Type 0 where
  pub passed : Bool
  pub compared_elements : ℕ
  pub mismatches : ℕ
  pub max_abs_error : D

pub record RuntimeMetadata : Type 0 where
  pub backend_version : Bytes
  pub device_name : Bytes
  pub compute_capability : Bytes
  pub cuda_runtime_version : Bytes
  pub cuda_driver_version : Bytes
  pub device_memory_bytes : ℕ

-- `RuntimeMetadata{}`
abbrev pub no_metadata : RuntimeMetadata
no_metadata = record {
  backend_version = [];
  device_name = [];
  compute_capability = [];
  cuda_runtime_version = [];
  cuda_driver_version = [];
  device_memory_bytes = 0;
}

pub record InferenceStats (D : Type 0) : Type 0 where
  pub end_to_end : LatencyDistribution D
  pub device_compute : Option (LatencyDistribution D)
  pub validation : Option (OutputValidation D)
  pub cuda_graph : Bool
  pub runtime : RuntimeMetadata
  pub throughput_inferences_per_second : D
  pub throughput_samples_per_second : D
  pub input_elements_per_batch : ℕ
  pub backend : Bytes

-- What a call of `infer_into` leaves: the output buffer, the count of elements, and its result.
pub record Inference (F : Type 0) : Type 0 where
  pub output : List F
  pub output_elements : ℕ
  pub succeeded : Bool

-- The virtual functions of `InferenceEngine` over the state of an implementation. A null pointer is
-- `none`; an output buffer that is null stays the empty list.
pub record Engine (F D : Type 0) : Type 1 where
  pub State : Type 0
  pub load : Bytes → State → State × Bool
  pub infer_into : Option (List F) → ℕ → Option (List F) → ℕ → State → State × Inference F
  pub input_elements_per_batch : State → ℕ
  pub output_elements_per_batch : State → ℕ
  pub backend_name : State → Bytes
  pub last_device_latency_us : State → Option D
  pub enable_cuda_graph : State → State × Bool
  pub cuda_graph_enabled : State → Bool
  pub runtime_metadata : State → RuntimeMetadata
