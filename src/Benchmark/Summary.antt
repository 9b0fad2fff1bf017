-- ===== src/Benchmark/Summary.antt =====
-- src/benchmark.cpp, `print_metrics`.
use market_data_ingress.Base.{
  Option, none, some, [], ◌∷◌, ◌++◌, Bytes, if◌then◌else◌, codes, decimal, Double,
}
use market_data_ingress.Engine.{LatencyDistribution, OutputValidation, InferenceStats}

abbrev rule : Bytes
rule = codes "============================================================\n"

abbrev show_device_name : Bytes → Bytes
show_device_name [] = codes "unknown"
show_device_name (c ∷ name) = c ∷ name

module _ {D : Type 0} (d : Double D) where
  abbrev show_us : D → Bytes
  show_us = d.show_fixed 3

  unfoldable pub show_device_times : Option (LatencyDistribution D) → Bytes
  show_device_times none = codes "GPU mean / p99   : n/a (backend has no device timer)\n"
  show_device_times (some device) =
      codes "GPU mean / p99   : "
      ++ (show_us device.mean_us ++ (codes " / " ++ (show_us device.p99_us ++ codes " us\n")))

  unfoldable pub show_validated : Option (OutputValidation D) → Bytes
  show_validated none = []
  show_validated (some validation) =
      codes "Output validation : "
      ++ ((if validation.passed then codes "pass" else codes "FAIL")
          ++ (codes " (" ++ (decimal validation.mismatches ++ codes " mismatches)\n")))

  -- The text on standard output. The function does not look at the options that it is given.
  unfoldable pub print_metrics : InferenceStats D → Bytes
  unfolding show_device_times show_validated
  print_metrics stats =
      let e2e = stats.end_to_end in
      codes "\n"
      ++ (rule
          ++ (codes "Backend          : "
              ++ (stats.backend
                  ++ (codes "\nMeasured samples : "
                      ++ (decimal e2e.samples
                          ++ (codes "\nCUDA graph       : "
                              ++ ((if stats.cuda_graph then codes "enabled" else codes "disabled")
                                  ++ (codes "\nDevice           : "
                                      ++ (show_device_name stats.runtime.device_name
                                          ++ (codes "\nE2E mean / p99   : "
                                              ++ (show_us e2e.mean_us
                                                  ++ (codes " / "
                                                      ++ (show_us e2e.p99_us
                                                          ++ (codes " us\n"
                                                            ++ (show_device_times
                                                            stats.device_compute
                                                            ++ (show_validated stats.validation
                                                            ++ (codes "E2E min / max    : "
                                                            ++ (show_us e2e.min_us
                                                            ++ (codes " / "
                                                            ++ (show_us e2e.max_us
                                                            ++ (codes " us\nE2E jitter       : "
                                                            ++ (show_us e2e.stddev_us
                                                            ++ (codes " us\nInference rate   : "
                                                            ++ (show_us
                                                            stats.throughput_inferences_per_second
                                                            ++ (codes " / s\nSample rate      : "
                                                            ++ (show_us
                                                            stats.throughput_samples_per_second
                                                            ++ (codes " / s\n"
                                                            ++ (rule
                                                            ++ codes
                                                            "\n"))))))))))))))))))))))))))))
