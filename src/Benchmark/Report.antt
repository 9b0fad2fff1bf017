-- ===== src/Benchmark/Report.antt =====
-- src/benchmark.cpp, `write_distribution`, `scope_name` and `format_metrics_json`.
use market_data_ingress.Base.{
  ℕ, Bool, false, Option, none, some, [], ◌∷◌, ◌++◌, Bytes, ◌==◌, if◌then◌else◌, codes, decimal,
  replicate, ◌+◌, Double,
}
use market_data_ingress.Engine.{
  LatencyScope, end_to_end, device_compute, RunOptions, LatencyDistribution, OutputValidation,
  RuntimeMetadata, InferenceStats,
}
use market_data_ingress.Benchmark.Escape.{escape_json}

-- `MD_PROJECT_VERSION` and `MD_BUILD_REVISION`, which the build defines.
pub record BuildInfo : Type 0 where
  pub version : Bytes
  pub revision : Bytes

unfoldable pub scope_name : LatencyScope → Bytes
scope_name device_compute = codes "device_compute"
scope_name end_to_end = codes "end_to_end"

abbrev pub show_flag : Bool → Bytes
show_flag b = if b then codes "true" else codes "false"

-- A JSON string.
unfoldable pub show_string : Bytes → Bytes
unfolding escape_json
show_string value = b'"' ∷ (escape_json value ++ (b'"' ∷ []))

-- A JSON string, or null for an empty text.
unfoldable pub show_optional : Bytes → Bytes
unfolding show_string
show_optional [] = codes "null"
show_optional (c ∷ value) = show_string (c ∷ value)

-- A line of an object: two spaces for each level, the key, and the value.
unfoldable pub line : ℕ → Bytes → Bytes → Bytes → Bytes
line indent key value end =
    replicate indent b' ' ++ (b'"' ∷ (key ++ (codes "\": " ++ (value ++ end))))

abbrev comma : Bytes
comma = codes ",\n"

abbrev newline : Bytes
newline = codes "\n"

module _ {D : Type 0} (d : Double D) where
  abbrev number : D → Bytes
  number = d.show_fixed 6

  unfoldable pub write_distribution : LatencyDistribution D → ℕ → Bytes
  unfolding line
  write_distribution distribution indent =
      let at = indent + 2 in
      codes "{\n"
      ++ (line at (codes "samples") (decimal distribution.samples) comma
          ++ (line at (codes "mean") (number distribution.mean_us) comma
              ++ (line at (codes "min") (number distribution.min_us) comma
                  ++ (line at (codes "p50") (number distribution.p50_us) comma
                      ++ (line at (codes "p90") (number distribution.p90_us) comma
                          ++ (line at (codes "p95") (number distribution.p95_us) comma
                              ++ (line at (codes "p99") (number distribution.p99_us) comma
                                  ++ (line at (codes "max") (number distribution.max_us) comma
                                      ++ (line at (codes "stddev") (number distribution.stddev_us)
                                            newline
                                          ++ (replicate indent b' ' ++ (b'}' ∷ [])))))))))))

  -- The distribution that the target is about, if the engine measured it.
  unfoldable pub selected : RunOptions D → InferenceStats D → Option (LatencyDistribution D)
  selected options stats = elim options.target_scope [
    | end_to_end ↦ some stats.end_to_end
    | device_compute ↦ stats.device_compute
  ]

  -- `options.target_latency_us > 0.0`
  abbrev pub has_target : RunOptions D → Bool
  has_target options = d.lt (d.literal 0 0) options.target_latency_us

  -- What the report says of the target: nothing without one (`target_latency_us <= 0.0`), else
  -- whether the selected p99 meets it.
  unfoldable pub slo_passed : RunOptions D → InferenceStats D → Option Bool
  unfolding selected
  slo_passed options stats =
      if d.le options.target_latency_us (d.literal 0 0)
      then none
      else some (elim (selected options stats) [
        | none ↦ false
        | some distribution ↦ d.le distribution.p99_us options.target_latency_us
      ])

  show_optional_flag : Option Bool → Bytes
  show_optional_flag none = codes "null"
  show_optional_flag (some b) = show_flag b

  show_device : Option (LatencyDistribution D) → Bytes
  unfolding write_distribution
  show_device none = codes "null"
  show_device (some distribution) = write_distribution distribution 4

  show_validation : RunOptions D → Option (OutputValidation D) → Bytes
  unfolding line
  show_validation options none = codes "null"
  show_validation options (some validation) =
      codes "{\n"
      ++ (line 4 (codes "kind") (codes "\"identity\"") comma
          ++ (line 4 (codes "tolerance") (number options.validation_tolerance) comma
              ++ (line 4 (codes "compared_elements") (decimal validation.compared_elements) comma
                  ++ (line 4 (codes "mismatches") (decimal validation.mismatches) comma
                      ++ (line 4 (codes "max_abs_error") (number validation.max_abs_error) comma
                          ++ (line 4 (codes "passed") (show_flag validation.passed) newline
                              ++ codes "  }"))))))

  show_p99 : Option (LatencyDistribution D) → Bytes
  show_p99 none = codes "null"
  show_p99 (some distribution) = number distribution.p99_us

  show_build : BuildInfo → Bytes
  unfolding line show_string
  show_build build =
      codes "{\n"
      ++ (line 4 (codes "version") (show_string build.version) comma
          ++ (line 4 (codes "revision") (show_string build.revision) newline ++ codes "  }"))

  show_environment : RuntimeMetadata → Bytes
  unfolding line show_optional
  show_environment runtime =
      let memory : Bytes =
        if runtime.device_memory_bytes == 0
        then codes "null"
        else decimal runtime.device_memory_bytes in
      codes "{\n"
      ++ (line 4 (codes "backend_version") (show_optional runtime.backend_version) comma
          ++ (line 4 (codes "device") (show_optional runtime.device_name) comma
              ++ (line 4 (codes "compute_capability") (show_optional runtime.compute_capability)
                    comma
                  ++ (line 4 (codes "cuda_runtime") (show_optional runtime.cuda_runtime_version)
                        comma
                      ++ (line 4 (codes "cuda_driver") (show_optional runtime.cuda_driver_version)
                            comma
                          ++ (line 4 (codes "device_memory_bytes") memory newline
                              ++ codes "  }"))))))

  show_latency : InferenceStats D → Bytes
  unfolding line write_distribution show_device
  show_latency stats =
      codes "{\n"
      ++ (line 4 (codes "end_to_end") (write_distribution stats.end_to_end 4) comma
          ++ (line 4 (codes "device_compute") (show_device stats.device_compute) newline
              ++ codes "  }"))

  show_slo : RunOptions D → InferenceStats D → Bytes
  unfolding line scope_name slo_passed show_optional_flag show_p99 selected
  show_slo options stats =
      let target : Bytes =
        if has_target options then number options.target_latency_us else codes "null" in
      codes "{\n"
      ++ (line 4 (codes "scope") (b'"' ∷ (scope_name options.target_scope ++ (b'"' ∷ []))) comma
          ++ (line 4 (codes "target_us") target comma
              ++ (line 4 (codes "observed_p99_us") (show_p99 (selected options stats)) comma
                  ++ (line 4 (codes "passed") (show_optional_flag (slo_passed options stats))
                        newline
                      ++ codes "  }"))))

  unfoldable pub format_metrics_json : BuildInfo → RunOptions D → InferenceStats D → Bytes
  unfolding line show_string show_build show_environment show_latency show_validation show_slo
  format_metrics_json build options stats =
      let total = stats.end_to_end in
      codes "{\n"
      ++ (line 2 (codes "schema_version") (codes "2") comma
          ++ (line 2 (codes "build") (show_build build) comma
              ++ (line 2 (codes "model") (show_string options.model_path) comma
                  ++ (line 2 (codes "backend") (show_string stats.backend) comma
                      ++ (line 2 (codes "requested_backend") (show_string options.requested_backend)
                            comma
                          ++ (line 2 (codes "fallback_used") (show_flag options.fallback_used) comma
                              ++ (line 2 (codes "cuda_graph") (show_flag stats.cuda_graph) comma
                                  ++ (line 2 (codes "environment") (show_environment stats.runtime)
                                        comma
                                      ++ (line 2 (codes "samples") (decimal total.samples) comma
                                          ++ (line 2 (codes "input_size")
                                                (decimal options.input_size) comma
                                              ++ (line 2 (codes "batch_size")
                                                    (decimal options.batch_size) comma
                                                  ++ (line 2 (codes "latency_us")
                                                        (show_latency stats) comma
                                                      ++ (line 2 (codes "mean_us")
                                                            (number total.mean_us) comma
                                                          ++ (line 2 (codes "min_us")
                                                            (number total.min_us) comma
                                                            ++ (line 2 (codes "p50_us")
                                                            (number total.p50_us) comma
                                                            ++ (line 2 (codes "p90_us")
                                                            (number total.p90_us) comma
                                                            ++ (line 2 (codes "p95_us")
                                                            (number total.p95_us) comma
                                                            ++ (line 2 (codes "p99_us")
                                                            (number total.p99_us) comma
                                                            ++ (line 2 (codes "max_us")
                                                            (number total.max_us) comma
                                                            ++ (line 2 (codes "stddev_us")
                                                            (number total.stddev_us) comma
                                                            ++ (line 2 (codes "throughput_ips")
                                                            (number
                                                            stats.throughput_inferences_per_second)
                                                            comma
                                                            ++ (line 2
                                                            (codes "throughput_samples_per_second")
                                                            (number
                                                            stats.throughput_samples_per_second)
                                                            comma
                                                            ++ (line 2 (codes "validation")
                                                            (show_validation options
                                                            stats.validation)
                                                            comma
                                                            ++ (line 2 (codes "slo")
                                                            (show_slo options stats) newline
                                                            ++ codes "}\n"))))))))))))))))))))))))
