-- ===== src/Tests/Documents.antt =====
-- A metrics document of schema 2, and what the readers find in it.
use market_data_ingress.Base.{ℕ, true, false, none, some, ◌≡◌, refl, ◌++◌, Bytes, codes, ok}
use market_data_ingress.Exporter.Snapshots.{Distribution, Snapshot, parse_snapshot}
use market_data_ingress.Tests.Numbers.{natural}

abbrev distribution : Bytes
distribution =
    codes
      "{\"samples\":2,\"mean\":3,\"min\":2,\"p50\":3,\"p90\":4,\"p95\":4,\"p99\":4,\"max\":4,\"stddev\":1}"

abbrev pub document : Bytes
document =
    codes
      "{\"schema_version\":2,\"build\":{\"version\":\"1\",\"revision\":\"a\"},\"model\":\"mock\","
    ++ (codes "\"environment\":{\"device\":\"cpu\",\"backend_version\":\"v\"},\"backend\":\"m\","
        ++ (codes
              "\"samples\":2,\"input_size\":8,\"batch_size\":1,\"fallback_used\":false,\"cuda_graph\":false,"
            ++ (codes
                  "\"throughput_ips\":5,\"throughput_samples_per_second\":5,\"latency_us\":{\"end_to_end\":"
                ++ (distribution
                    ++ codes
                        ",\"device_compute\":null},\"validation\":null,\"slo\":{\"scope\":\"e2e\",\"passed\":true}}"))))

abbrev pub summary : Distribution ℕ
summary = record {
  samples = 2;
  mean = 3000;
  minimum = 2000;
  p50 = 3000;
  p90 = 4000;
  p95 = 4000;
  p99 = 4000;
  maximum = 4000;
  stddev = 1000;
}

abbrev pub snapshot : Snapshot ℕ
snapshot = record {
  version = codes "1";
  revision = codes "a";
  model = codes "mock";
  backend = codes "m";
  backend_version = codes "v";
  device = codes "cpu";
  samples = 2;
  input_size = 8;
  batch_size = 1;
  fallback_used = false;
  cuda_graph = false;
  throughput_ips = 5000;
  throughput_samples_per_second = 5000;
  end_to_end = summary;
  device_compute = none;
  validation_passed = none;
  validation_elements = none;
  slo_scope = codes "e2e";
  slo_target_us = none;
  slo_observed_p99_us = none;
  slo_passed = some true;
}

pub parse_snapshot-document : parse_snapshot natural document ≡ ok snapshot
unfolding parse_snapshot market_data_ingress.Exporter.Scan.value_after_key
parse_snapshot-document = refl
