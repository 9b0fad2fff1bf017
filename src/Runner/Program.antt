-- ===== src/Runner/Program.antt =====
-- src/main.cpp: the choice of the engine, the run, the metrics file, and the exit status.
pub mod Policy
pub mod Verdict
pub mod Status
use market_data_ingress.Base.{
  ℕ, Bool, true, false, not, ◌&&◌, ◌||◌, Option, none, some, List, [], ◌∷◌, Bytes, if◌then◌else◌,
  equal, codes, Result, ok, err, ◌>>=◌, ◌⊎◌, inl, inr, Double, Float,
}
use market_data_ingress.Engine.{
  BackendHint, auto, tensorrt, mock, LatencyScope, end_to_end, device_compute, RunOptions,
  InferenceStats, LatencyDistribution, OutputValidation, Engine,
}
use market_data_ingress.Engine.Factory.{
  Build, Backend, tensorrt_backend, mock_backend, make_engine, is_mock,
}
use market_data_ingress.Engine.Mock.{mock_engine, initial}
use market_data_ingress.Benchmark.Run.{Machine, run_benchmark}
use market_data_ingress.Benchmark.Summary.{print_metrics}
use market_data_ingress.Benchmark.Report.{BuildInfo, format_metrics_json, has_target, selected}
use market_data_ingress.Runner.Options.{
  Parsers, Failure, Early, help, backend_name, parse_command_line,
}

-- Opening the metrics file and writing to it.
pub data Writing : Type 0 where
  written open_failed write_failed : Writing

-- What `main` leaves: its exit status, the text of the metrics file if it was written whole, and
-- the summary and the JSON on standard output.
pub record Outcome : Type 0 where
  pub status : ℕ
  pub summary : Option Bytes
  pub metrics_file : Option Bytes
  pub printed : Option Bytes

abbrev is_empty : Bytes → Bool
is_empty [] = true
is_empty (c ∷ text) = false

abbrev exits : ℕ → Outcome
exits status = record { status = status; summary = none; metrics_file = none; printed = none }

module _ {D : Type 0} (d : Double D) where
  unfoldable pub resolve_backend : RunOptions D → BackendHint
  resolve_backend options = elim options.backend [
    | auto ↦ if equal options.model_path (codes "mock") then mock else tensorrt
    | tensorrt ↦ tensorrt
    | mock ↦ mock
  ]

  unfoldable pub validation_failed : InferenceStats D → Bool
  validation_failed stats = elim stats.validation [
    | none ↦ false
    | some validation ↦ not validation.passed
  ]

  -- What the target adds to the exit status.
  unfoldable pub target_status : RunOptions D → InferenceStats D → ℕ
  target_status options stats =
      let status : ℕ = elim (selected d options stats) [
        | none ↦ 4
        | some distribution ↦ if d.lt options.target_latency_us distribution.p99_us then 3 else 0
      ] in
      if has_target d options then status else 0

  -- The exit status of a run whose metrics are out.
  unfoldable pub verdict : RunOptions D → InferenceStats D → ℕ
  verdict options stats = if validation_failed stats then 5 else target_status options stats

  -- The metrics file, standard output and the exit status, once the run has ended.
  unfoldable pub publish : BuildInfo → Writing → RunOptions D → InferenceStats D → Outcome
  publish info writing options stats =
      let json = format_metrics_json d info options stats in
      let status = verdict options stats in
      let summary = print_metrics d stats in
      let unwritten : Outcome = record (exits 2) { summary = some summary } in
      if is_empty options.metrics_path
      then record {
        status = status;
        summary = some summary;
        metrics_file = none;
        printed = some json;
      }
      else elim writing [
        | open_failed ↦ unwritten
        | write_failed ↦ unwritten
        | written ↦ record {
          status = status;
          summary = some summary;
          metrics_file = some json;
          printed = some json;
        }
      ]

module _ {F D : Type 0} (d : Double D) (f : Float F D) (tensorrt_engine : Engine F D)
    (new_tensorrt : tensorrt_engine.State) where
  -- The class behind a pointer to an engine, and the state of a new object of it.
  abbrev pub engine_of : Backend → Engine F D
  engine_of tensorrt_backend = tensorrt_engine
  engine_of mock_backend = mock_engine f

  abbrev pub new_engine : (backend : Backend) → (engine_of backend).State
  new_engine tensorrt_backend = new_tensorrt
  new_engine mock_backend = initial

  -- `unique_ptr<InferenceEngine>` that is not null.
  pub record Chosen : Type 0 where
    pub backend : Backend
    pub state : (engine_of backend).State

  -- A new engine that has loaded the model, if it could.
  unfoldable pub load_engine : Bytes → Backend → Option Chosen
  load_engine model_path backend =
      let (loaded, succeeded) = (engine_of backend).load model_path (new_engine backend) in
      if succeeded then some (record { backend = backend; state = loaded }) else none

  -- `use_mock_fallback`: the options after it, and the engine if there is one.
  unfoldable pub use_mock_fallback :
      Build → BackendHint → RunOptions D → RunOptions D × Option Chosen
  use_mock_fallback build resolved options =
      let fallback : Option Chosen = elim (make_engine build mock false) [
        | none ↦ none
        | some backend ↦ load_engine options.model_path backend
      ] in
      if not options.allow_mock_fallback || is_mock resolved
      then (options, none)
      else (record options { fallback_used = true }, fallback)

  -- The engine that runs, and the options as they stand then.
  unfoldable pub choose_engine : Build → RunOptions D → RunOptions D × Option Chosen
  choose_engine build given =
      let resolved = resolve_backend d given in
      let options = record given { requested_backend = backend_name resolved } in
      let fallback = use_mock_fallback build resolved options in
      elim (make_engine build resolved false) [
        | none ↦ fallback
        | some backend ↦ elim (load_engine options.model_path backend) [
          | some chosen ↦ (options, some chosen)
          | none ↦ fallback
        ]
      ]

  -- `main` with an engine: the CUDA graph, the benchmark, and its results.
  unfoldable pub run_engine : BuildInfo → Writing → Machine D → RunOptions D → Chosen → Outcome
  run_engine info writing machine options chosen =
      let engine = engine_of chosen.backend in
      let (captured, enabled) = engine.enable_cuda_graph chosen.state in
      let state = if options.use_cuda_graph then captured else chosen.state in
      if options.use_cuda_graph && not enabled
      then exits 6
      else elim (run_benchmark d f engine machine options state) [
        | err e ↦ exits 1
        | ok (stats, last) ↦ publish d info writing options stats
      ]

  unfoldable pub main : Parsers D → Build → BuildInfo → Writing → Machine D → List Bytes → Outcome
  main parsers build info writing machine arguments =
      elim (parse_command_line d parsers arguments) [
        | err e ↦ exits 1
        | ok (inl help) ↦ exits 0
        | ok (inr given) ↦
            let (options, engine) = choose_engine build given in
            elim engine [
              | none ↦ exits 2
              | some chosen ↦ run_engine info writing machine options chosen
            ]
      ]
