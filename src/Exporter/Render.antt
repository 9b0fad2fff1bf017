-- ===== src/Exporter/Render.antt =====
-- tools/metrics_exporter.cpp, the exposition text: `write_distribution`, `render_snapshot` and
-- `render_exporter_state`.
use market_data_ingress.Base.{
  ℕ, Bool, Option, none, some, [], ◌++◌, Bytes, if◌then◌else◌, codes, decimal, Double, true, false,
}
use market_data_ingress.Exporter.Labels.{escape_label}
use market_data_ingress.Exporter.Snapshots.{Distribution, Snapshot, value_or}

pub record ExporterState (D : Type 0) : Type 0 where
  pub scrapes : ℕ
  pub failures : ℕ
  pub last_success_timestamp : D

-- `b ? 1 : 0`
abbrev flag : Bool → Bytes
flag b = if b then codes "1" else codes "0"

abbrev is_some : {A : Type 0} → Option A → Bool
is_some none = false
is_some (some a) = true

-- The two comment lines in front of a metric.
unfoldable pub heading : Bytes → Bytes → Bytes → Bytes
heading name help kind =
    codes "# HELP "
    ++ (name
        ++ (codes " "
            ++ (help ++ (codes "\n# TYPE " ++ (name ++ (codes " " ++ (kind ++ codes "\n")))))))

-- A sample with no labels.
unfoldable pub sample : Bytes → Bytes → Bytes
sample name value = name ++ (codes " " ++ (value ++ codes "\n"))

unfoldable pub labelled : Bytes → Bytes → Bytes → Bytes
labelled name labels value =
    name ++ (codes "{" ++ (labels ++ (codes "} " ++ (value ++ codes "\n"))))

-- `name="value"`
unfoldable pub label : Bytes → Bytes → Bytes
unfolding escape_label
label name value = name ++ (codes "=\"" ++ (escape_label value ++ codes "\""))

unfoldable pub gauge : Bytes → Bytes → Bytes → Bytes
unfolding heading sample
gauge name help value = heading name help (codes "gauge") ++ sample name value

module _ {D : Type 0} (d : Double D) where
  abbrev number : D → Bytes
  number = d.show_general 12

  unfoldable pub write_distribution : Bytes → Distribution D → Bytes
  unfolding labelled label
  write_distribution scope distribution =
      let labels = label (codes "scope") scope in
      let latency = codes "marketdata_inference_latency_us" in
      let total = d.mul distribution.mean (d.of_ℕ distribution.samples) in
      labelled latency (labels ++ codes ",quantile=\"0.5\"") (number distribution.p50)
      ++ (labelled latency (labels ++ codes ",quantile=\"0.9\"") (number distribution.p90)
          ++ (labelled latency (labels ++ codes ",quantile=\"0.95\"") (number distribution.p95)
              ++ (labelled latency (labels ++ codes ",quantile=\"0.99\"") (number distribution.p99)
                  ++ (labelled (codes "marketdata_inference_latency_us_sum") labels (number total)
                      ++ (labelled (codes "marketdata_inference_latency_us_count") labels
                            (decimal distribution.samples)
                          ++ (labelled (codes "marketdata_inference_latency_mean_us") labels
                                (number distribution.mean)
                              ++ (labelled (codes "marketdata_inference_latency_min_us") labels
                                    (number distribution.minimum)
                                  ++ (labelled (codes "marketdata_inference_latency_max_us") labels
                                        (number distribution.maximum)
                                      ++ labelled (codes "marketdata_inference_latency_stddev_us")
                                          labels (number distribution.stddev)))))))))

  -- The lines up to the distributions.
  render_run : Snapshot D → D → Bytes
  unfolding heading labelled label gauge
  render_run snapshot file_timestamp_seconds =
      let build = codes "marketdata_build_info" in
      heading build (codes "Build, model, backend, and device provenance.") (codes "gauge")
      ++ (labelled build
            (label (codes "version") snapshot.version
              ++ (codes ","
                  ++ (label (codes "revision") snapshot.revision
                      ++ (codes ","
                          ++ (label (codes "model") snapshot.model
                              ++ (codes ","
                                  ++ (label (codes "backend") snapshot.backend
                                      ++ (codes ","
                                          ++ (label (codes "backend_version")
                                                snapshot.backend_version
                                              ++ (codes ","
                                                  ++ label (codes "device")
                                                      snapshot.device))))))))))
            (codes "1")
          ++ (gauge (codes "marketdata_metrics_file_timestamp_seconds")
                (codes "Modification time of the loaded snapshot.") (number file_timestamp_seconds)
              ++ (gauge (codes "marketdata_inference_run_samples")
                    (codes "Measured inference iterations in the snapshot.")
                    (decimal snapshot.samples)
                  ++ (gauge (codes "marketdata_inference_input_elements")
                        (codes "Elements per input sample.") (decimal snapshot.input_size)
                      ++ (gauge (codes "marketdata_inference_batch_size")
                            (codes "Samples per inference batch.") (decimal snapshot.batch_size)
                          ++ (gauge (codes "marketdata_inference_fallback_used")
                                (codes "Whether mock fallback was used.")
                                (flag snapshot.fallback_used)
                              ++ (gauge (codes "marketdata_inference_cuda_graph_enabled")
                                    (codes "Whether CUDA Graph replay was enabled.")
                                    (flag snapshot.cuda_graph)
                                  ++ (gauge
                                        (codes
                                          "marketdata_inference_throughput_inferences_per_second")
                                        (codes "Completed inference calls per second.")
                                        (number snapshot.throughput_ips)
                                      ++ gauge
                                          (codes
                                            "marketdata_inference_throughput_samples_per_second")
                                          (codes "Completed samples per second.")
                                          (number snapshot.throughput_samples_per_second)))))))))

  latency_headings : Bytes
  unfolding heading
  latency_headings =
      heading (codes "marketdata_inference_latency_us")
        (codes "Inference latency distribution summary.") (codes "summary")
      ++ (heading (codes "marketdata_inference_latency_mean_us") (codes "Mean inference latency.")
            (codes "gauge")
          ++ (heading (codes "marketdata_inference_latency_min_us")
                (codes "Minimum inference latency.") (codes "gauge")
              ++ (heading (codes "marketdata_inference_latency_max_us")
                    (codes "Maximum inference latency.") (codes "gauge")
                  ++ heading (codes "marketdata_inference_latency_stddev_us")
                      (codes "Latency standard deviation.") (codes "gauge"))))

  render_device : Snapshot D → Option (Distribution D) → Bytes
  unfolding write_distribution gauge
  render_device snapshot none = []
  render_device snapshot (some device) =
      write_distribution (codes "device_compute") device
      ++ gauge (codes "marketdata_inference_host_overhead_p99_us")
          (codes "Difference between end-to-end and device p99.")
          (number (d.sub snapshot.end_to_end.p99 device.p99))

  render_validation : Snapshot D → Bytes
  unfolding gauge
  render_validation snapshot =
      gauge (codes "marketdata_inference_validation_enabled")
        (codes "Whether output validation was performed.")
        (flag (is_some snapshot.validation_passed))
      ++ (gauge (codes "marketdata_inference_validation_pass")
            (codes "Whether output validation passed.")
            (flag (value_or snapshot.validation_passed false))
          ++ gauge (codes "marketdata_inference_validation_elements")
              (codes "Number of validated output elements.")
              (decimal (value_or snapshot.validation_elements 0)))

  render_slo : Snapshot D → Bytes
  unfolding gauge heading labelled label
  render_slo snapshot =
      let scope = label (codes "scope") snapshot.slo_scope in
      gauge (codes "marketdata_inference_slo_configured")
        (codes "Whether an SLO was configured for this run.")
        (flag (is_some snapshot.slo_target_us))
      ++ (heading (codes "marketdata_inference_slo_target_us")
            (codes "Configured p99 latency objective.") (codes "gauge")
          ++ (labelled (codes "marketdata_inference_slo_target_us") scope
                (number (value_or snapshot.slo_target_us (d.literal 0 0)))
              ++ (heading (codes "marketdata_inference_slo_observed_p99_us")
                    (codes "Observed p99 selected by the SLO.") (codes "gauge")
                  ++ (labelled (codes "marketdata_inference_slo_observed_p99_us") scope
                        (number (value_or snapshot.slo_observed_p99_us snapshot.end_to_end.p99))
                      ++ gauge (codes "marketdata_inference_slo_pass")
                          (codes "Whether the configured p99 objective passed.")
                          (flag (value_or snapshot.slo_passed false))))))

  unfoldable pub render_snapshot : Snapshot D → D → Bytes
  unfolding render_run latency_headings write_distribution render_device render_validation
      render_slo
  render_snapshot snapshot file_timestamp_seconds =
      render_run snapshot file_timestamp_seconds
      ++ (latency_headings
          ++ (write_distribution (codes "end_to_end") snapshot.end_to_end
              ++ (render_device snapshot snapshot.device_compute
                  ++ (render_validation snapshot ++ render_slo snapshot))))

  unfoldable pub render_exporter_state : ExporterState D → Bool → Bytes
  unfolding heading sample gauge
  render_exporter_state state load_success =
      let scrapes = codes "marketdata_exporter_scrapes_total" in
      let failures = codes "marketdata_exporter_load_failures_total" in
      heading scrapes (codes "Metrics scrape attempts.") (codes "counter")
      ++ (sample scrapes (decimal state.scrapes)
          ++ (heading failures (codes "Snapshot load failures.") (codes "counter")
              ++ (sample failures (decimal state.failures)
                  ++ (gauge (codes "marketdata_exporter_last_load_success")
                        (codes "Whether the latest snapshot load succeeded.") (flag load_success)
                      ++ gauge (codes "marketdata_exporter_last_success_timestamp_seconds")
                          (codes "Latest successful snapshot load.")
                          (number state.last_success_timestamp)))))
