-- ===== src/Exporter/Snapshots.antt =====
-- tools/metrics_exporter.cpp, `Distribution`, `Snapshot` and their parsers.
use market_data_ingress.Base.{
  ℕ, Bool, not, Option, none, some, Bytes, ◌==◌, if◌then◌else◌, codes, Result, ok, ◌>>=◌, ◌>>◌,
  throw_if, map_ok, Double,
}
use market_data_ingress.Exporter.Scan.{
  Error, unsupported_schema, find_value, required_value, is_null, object_at,
}
use market_data_ingress.Exporter.Values.{
  string_value, optional_string_value, object_value, bool_at, bool_value, number_value,
  optional_number_value, unsigned_value,
}

pub record Distribution (D : Type 0) : Type 0 where
  pub samples : ℕ
  pub mean : D
  pub minimum : D
  pub p50 : D
  pub p90 : D
  pub p95 : D
  pub p99 : D
  pub maximum : D
  pub stddev : D

pub record Snapshot (D : Type 0) : Type 0 where
  pub version : Bytes
  pub revision : Bytes
  pub model : Bytes
  pub backend : Bytes
  pub backend_version : Bytes
  pub device : Bytes
  pub samples : ℕ
  pub input_size : ℕ
  pub batch_size : ℕ
  pub fallback_used : Bool
  pub cuda_graph : Bool
  pub throughput_ips : D
  pub throughput_samples_per_second : D
  pub end_to_end : Distribution D
  pub device_compute : Option (Distribution D)
  pub validation_passed : Option Bool
  pub validation_elements : Option ℕ
  pub slo_scope : Bytes
  pub slo_target_us : Option D
  pub slo_observed_p99_us : Option D
  pub slo_passed : Option Bool

-- `value_or`
abbrev pub value_or : {A : Type 0} → Option A → A → A
value_or none default = default
value_or (some a) default = a

unfoldable pub optional_bool_value : Bytes → Bytes → Result Error (Option Bool)
unfolding find_value is_null bool_at
optional_bool_value document key = elim (find_value document key) [
  | none ↦ ok none
  | some position ↦
      let present = map_ok some (bool_at document position) in
      if is_null document position then ok none else present
]

module _ {D : Type 0} (d : Double D) where
  unfoldable pub parse_distribution : Bytes → Result Error (Distribution D)
  unfolding unsigned_value number_value
  parse_distribution object = do
    samples ← unsigned_value d object (codes "samples")
    mean ← number_value d object (codes "mean")
    minimum ← number_value d object (codes "min")
    p50 ← number_value d object (codes "p50")
    p90 ← number_value d object (codes "p90")
    p95 ← number_value d object (codes "p95")
    p99 ← number_value d object (codes "p99")
    maximum ← number_value d object (codes "max")
    stddev ← number_value d object (codes "stddev")
    ok (record {
      samples = samples;
      mean = mean;
      minimum = minimum;
      p50 = p50;
      p90 = p90;
      p95 = p95;
      p99 = p99;
      maximum = maximum;
      stddev = stddev;
    })

  -- `device_compute`: the key must be there, and may be null.
  unfoldable pub parse_device : Bytes → Result Error (Option (Distribution D))
  unfolding required_value is_null object_at parse_distribution
  parse_device latency = do
    position ← required_value latency (codes "device_compute")
    let present = object_at latency position >>= λ object. map_ok some (parse_distribution object)
    if is_null latency position then ok none else present

  -- `validation`: whether it passed, and how many elements it checked.
  unfoldable pub parse_validation : Bytes → Result Error (Option Bool × Option ℕ)
  unfolding required_value is_null object_at bool_value find_value unsigned_value
  parse_validation document = do
    position ← required_value document (codes "validation")
    let present : Result Error (Option Bool × Option ℕ) =
        object_at document position >>= λ validation.
        bool_value validation (codes "passed") >>= λ passed.
        elim (find_value validation (codes "checked_elements")) [
          | none ↦ ok (some passed, none)
          | some _ ↦
              map_ok (λ elements. (some passed, some elements))
                (unsigned_value d validation (codes "checked_elements"))
        ]
    if is_null document position then ok (none, none) else present

  unfoldable pub parse_snapshot : Bytes → Result Error (Snapshot D)
  unfolding unsigned_value object_value parse_device parse_validation optional_bool_value
      string_value optional_string_value bool_value number_value parse_distribution
      optional_number_value
  parse_snapshot document = do
    schema ← unsigned_value d document (codes "schema_version")
    throw_if (not (schema == 2)) unsupported_schema
    build ← object_value document (codes "build")
    environment ← object_value document (codes "environment")
    latency ← object_value document (codes "latency_us")
    end_to_end ← object_value latency (codes "end_to_end")
    device_compute ← parse_device latency
    validation ← parse_validation document
    slo ← object_value document (codes "slo")
    slo_passed ← optional_bool_value slo (codes "passed")
    version ← string_value build (codes "version")
    revision ← string_value build (codes "revision")
    model ← string_value document (codes "model")
    backend ← string_value document (codes "backend")
    backend_version ← optional_string_value environment (codes "backend_version")
    device ← string_value environment (codes "device")
    samples ← unsigned_value d document (codes "samples")
    input_size ← unsigned_value d document (codes "input_size")
    batch_size ← unsigned_value d document (codes "batch_size")
    fallback_used ← bool_value document (codes "fallback_used")
    cuda_graph ← bool_value document (codes "cuda_graph")
    throughput_ips ← number_value d document (codes "throughput_ips")
    throughput_samples ← number_value d document (codes "throughput_samples_per_second")
    end_to_end_distribution ← parse_distribution end_to_end
    slo_scope ← string_value slo (codes "scope")
    slo_target_us ← optional_number_value d slo (codes "target_us")
    slo_observed_p99_us ← optional_number_value d slo (codes "observed_p99_us")
    ok (record {
      version = version;
      revision = revision;
      model = model;
      backend = backend;
      backend_version = value_or backend_version (codes "unknown");
      device = device;
      samples = samples;
      input_size = input_size;
      batch_size = batch_size;
      fallback_used = fallback_used;
      cuda_graph = cuda_graph;
      throughput_ips = throughput_ips;
      throughput_samples_per_second = throughput_samples;
      end_to_end = end_to_end_distribution;
      device_compute = device_compute;
      validation_passed = validation.0;
      validation_elements = validation.1;
      slo_scope = slo_scope;
      slo_target_us = slo_target_us;
      slo_observed_p99_us = slo_observed_p99_us;
      slo_passed = slo_passed;
    })
