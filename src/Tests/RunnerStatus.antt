-- ===== src/Tests/RunnerStatus.antt =====
-- The exit status of src/main.cpp at a command line, with a TensorRT engine on a device.
use market_data_ingress.Base.{
  ltb, ◌^◌, ℕ, ◌/◌, ◌≡◌, ◌↔◌, true, false, some, List, [], ◌∷◌, Bytes, codes,
}
use market_data_ingress.Engine.Factory.{Build}
use market_data_ingress.Engine.Tensorrt.Session.{S, created}
use market_data_ingress.Engine.Tensorrt.Inference.{tensorrt_engine}
use market_data_ingress.Benchmark.Run.{Machine}
use market_data_ingress.Benchmark.Report.{BuildInfo}
use market_data_ingress.Runner.Options.{Parsers, parse_command_line}
use market_data_ingress.Runner.Program.{written, main}
use market_data_ingress.Runner.Program.Status.{EndsWell, runner_status_iff}
use market_data_ingress.Tests.Numbers.{natural, natural_float}
use market_data_ingress.Tests.Devices.{platform}

abbrev parsers : Parsers ℕ
parsers = record {
  stoull = λ text. let read = natural.strtod text in some (read.value / 1000, read.parsed);
  stod = λ text. let read = natural.strtod text in some (read.value, read.parsed);
}

abbrev build : Build
build = record { force_mock_backend = false; with_tensorrt = true }

abbrev info : BuildInfo
info = record { version = codes "1.0"; revision = codes "abc" }

abbrev new : S platform
new = created (record { next = 1; buffer = [] })

abbrev machine : Machine ℕ
machine = record { elapsed = λ i. 2000; allocates = λ buffer elements. ltb elements (2 ^ 60) }

abbrev arguments : List Bytes
arguments =
    codes "--backend"
    ∷ codes "tensorrt"
    ∷ codes "--input-size"
    ∷ codes "4"
    ∷ codes "--iterations"
    ∷ codes "3"
    ∷ codes "--verify-identity"
    ∷ codes "--cuda-graph"
    ∷ []

runner_status_iff_example :
    ((main natural natural_float
        (tensorrt_engine platform)
        new
        parsers
        build
        info
        written
        machine
        arguments).status
      ≡ 0)
    ↔ EndsWell natural natural_float
        (tensorrt_engine platform)
        new
        build
        written
        machine
        (parse_command_line natural parsers arguments)
runner_status_iff_example =
    runner_status_iff natural natural_float (tensorrt_engine platform) new parsers build info
      written machine arguments
