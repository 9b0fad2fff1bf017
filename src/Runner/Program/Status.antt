-- ===== src/Runner/Program/Status.antt =====
-- The exit status of src/main.cpp.
use market_data_ingress.Base.{
  ℕ, true, false, not, ◌&&◌, Bool-cases, Option, none, some, Option-cases, List, Bytes,
  if◌then◌else◌, ◌≡◌, ◌↔◌, refl, ◌⊎◌, inl, inr, Result, Result-cases, ok, err, Double, Float,
}
use market_data_ingress.Engine.{Engine, RunOptions, InferenceStats}
use market_data_ingress.Engine.Factory.{Build}
use market_data_ingress.Benchmark.Run.{Machine, run_benchmark}
use market_data_ingress.Benchmark.Report.{BuildInfo, has_target}
use market_data_ingress.Runner.Options.{Parsers, Failure, Early, help, parse_command_line}
use market_data_ingress.Runner.Program.{
  Writing, written, open_failed, write_failed, is_empty, verdict, publish, Chosen, engine_of,
  choose_engine, run_engine, main,
}
use market_data_ingress.Runner.Program.Verdict.{ValidationHolds, TargetHolds, Missed, verdict_lem}

clash : {E A : Type 0} {e : E} {a : A} → err e ≡ ok a → ⊥
clash h = cc

not_both : true ≡ false → ⊥
not_both h = cc

unwritten : ((false ≡ true) ⊎ (open_failed ≡ written)) → ⊥
unwritten (inl h) = cc
unwritten (inr h) = cc

cut_short : ((false ≡ true) ⊎ (write_failed ≡ written)) → ⊥
cut_short (inl h) = cc
cut_short (inr h) = cc

module _ {D : Type 0} (d : Double D) where
  Missed-status :
      (options : RunOptions D) (stats : InferenceStats D) {status : ℕ}
      → Missed d options stats status
      → status ≡ 0
      → ⊥
  Missed-status options stats (inl (four, _)) zero_status = cc
  Missed-status options stats (inr (_, three, _, _)) zero_status = cc

  not_met :
      (options : RunOptions D) (stats : InferenceStats D) {status : ℕ}
      → has_target d options ≡ true
      → Missed d options stats status
      → TargetHolds d options stats
      → ⊥
  not_met options stats target missed (inl without) = cc
  not_met options stats target (inl (_, unmeasured)) (inr (m, measured, met)) = cc
  not_met options stats target (inr (n, _, selected_n, above)) (inr (m, measured, met)) = cc

  verdict_iff :
      (options : RunOptions D) (stats : InferenceStats D)
      → (verdict d options stats ≡ 0)
        ↔ (ValidationHolds d options stats × TargetHolds d options stats)
  verdict_iff options stats = elim (verdict_lem d options stats) [
    | inl (failed, five) ↦ (λ h. cc, λ h. absurd (failed h.0))
    | inr (inl (holds, met, zero_status)) ↦ (λ _. (holds, met), λ _. zero_status)
    | inr (inr (holds, target, missed)) ↦ (
      λ h. absurd (Missed-status options stats missed h),
      λ h. absurd (not_met options stats target missed h.1),
    )
  ]

  -- The metrics file is not asked for, or it is written whole.
  abbrev pub Publishes : Writing → RunOptions D → Type 0
  Publishes writing options = (is_empty options.metrics_path ≡ true) ⊎ (writing ≡ written)

  publish_iff :
      (info : BuildInfo) (writing : Writing) (options : RunOptions D) (stats : InferenceStats D)
      → ((publish d info writing options stats).status ≡ 0) ↔ (
          Publishes writing options
          × (ValidationHolds d options stats × TargetHolds d options stats))
  unfolding publish
  publish_iff info written options stats =
      let judged = verdict_iff options stats in
      elim (Bool-cases (is_empty options.metrics_path)) [
        | inl unasked ↦ rw (publish, unasked) (λ h. (inl refl, judged.0 h), λ h. judged.1 h.1)
        | inr asked ↦ rw (publish, asked) (λ h. (inr refl, judged.0 h), λ h. judged.1 h.1)
      ]
  publish_iff info open_failed options stats =
      let judged = verdict_iff options stats in
      elim (Bool-cases (is_empty options.metrics_path)) [
        | inl unasked ↦ rw (publish, unasked) (λ h. (inl refl, judged.0 h), λ h. judged.1 h.1)
        | inr asked ↦ rw (publish, asked) (λ h. absurd cc, λ h. absurd (unwritten h.0))
      ]
  publish_iff info write_failed options stats =
      let judged = verdict_iff options stats in
      elim (Bool-cases (is_empty options.metrics_path)) [
        | inl unasked ↦ rw (publish, unasked) (λ h. (inl refl, judged.0 h), λ h. judged.1 h.1)
        | inr asked ↦ rw (publish, asked) (λ h. absurd cc, λ h. absurd (cut_short h.0))
      ]

module _ {F D : Type 0} (d : Double D) (f : Float F D) (tensorrt_engine : Engine F D)
    (new_tensorrt : tensorrt_engine.State) where
  -- The CUDA graph, if it is asked for, is enabled, and the benchmark ends with statistics that can
  -- be published and that pass.
  abbrev pub RunsWell :
      Writing → Machine D → RunOptions D → Chosen d f tensorrt_engine new_tensorrt → Type 0
  RunsWell writing machine options chosen =
      let engine = engine_of d f tensorrt_engine new_tensorrt chosen.backend in
      let captured = engine.enable_cuda_graph chosen.state in
      let state = if options.use_cuda_graph then captured.0 else chosen.state in
      ((options.use_cuda_graph && not captured.1) ≡ false)
      × ((stats : InferenceStats D) × (last : engine.State) × (run_benchmark d f engine machine
              options state
            ≡ ok (stats, last))
          × Publishes d writing options
          × (ValidationHolds d options stats × TargetHolds d options stats))

  run_engine_iff :
      (info : BuildInfo) (writing : Writing) (machine : Machine D) (options : RunOptions D)
      (chosen : Chosen d f tensorrt_engine new_tensorrt)
      → ((run_engine d f tensorrt_engine new_tensorrt info writing machine options chosen).status
          ≡ 0)
        ↔ RunsWell writing machine options chosen
  unfolding run_engine
  run_engine_iff info writing machine options chosen =
      let engine = engine_of d f tensorrt_engine new_tensorrt chosen.backend in
      let captured = engine.enable_cuda_graph chosen.state in
      let state = if options.use_cuda_graph then captured.0 else chosen.state in
      elim (Bool-cases (options.use_cuda_graph && not captured.1)) [
        | inl unavailable ↦
            rw (run_engine, unavailable) (λ h. absurd cc, λ h. absurd (not_both h.0))
        | inr available ↦ elim (Result-cases (run_benchmark d f engine machine options state)) [
          | inl ((stats, last), ended) ↦
              let published = publish_iff d info writing options stats in
              rw (run_engine, available, ended)
                (
                  λ h.
                      let (publishes, passes) = published.0 h in
                      (refl, (stats, last, refl, publishes, passes)),
                  λ h.
                      let (x, y, found, publishes, passes) = h.1 in
                      let same : stats ≡ x = cc in published.1 (publishes, rw same passes),
                )
          | inr (e, thrown) ↦
              rw (run_engine, available, thrown)
                (λ h. absurd cc, λ h. let (x, y, found, _, _) = h.1 in absurd (clash found))
        ]
      ]

  -- An engine could be chosen, and its run ends well.
  abbrev pub ChosenWell :
      Writing → Machine D → RunOptions D × Option (Chosen d f tensorrt_engine new_tensorrt) → Type 0
  ChosenWell writing machine (options, none) = ⊥
  ChosenWell writing machine (options, some chosen) = RunsWell writing machine options chosen

  -- The command line asks for the help, or gives options with which an engine is chosen and runs
  -- well.
  abbrev pub EndsWell :
      Build → Writing → Machine D → Result (Failure) (Early ⊎ RunOptions D) → Type 0
  EndsWell build writing machine (err e) = ⊥
  EndsWell build writing machine (ok (inl help)) = Unit {0}
  EndsWell build writing machine (ok (inr given)) =
      ChosenWell writing machine (choose_engine d f tensorrt_engine new_tensorrt build given)

  -- The runner exits with 0 exactly after the help, or when an engine can be chosen, its CUDA graph is
  -- enabled if it is asked for, the benchmark ends with statistics, the metrics file is written
  -- whole if it is asked for, the outputs pass if they are checked, and the target holds if there is
  -- one.
  pub runner_status_iff :
      (parsers : Parsers D) (build : Build) (info : BuildInfo) (writing : Writing)
      (machine : Machine D) (arguments : List Bytes)
      → ((main d f tensorrt_engine new_tensorrt parsers build info writing machine arguments).status
          ≡ 0)
        ↔ EndsWell build writing machine (parse_command_line d parsers arguments)
  unfolding main
  runner_status_iff parsers build info writing machine arguments =
      elim (Result-cases (parse_command_line d parsers arguments)) [
        | inr (e, refused) ↦ rw (main, refused) (λ h. cc, λ h. absurd h)
        | inl (inl help, parsed) ↦ rw (main, parsed) (λ _. tt, λ _. refl)
        | inl (inr given, parsed) ↦
            let (options, engine) = choose_engine d f tensorrt_engine new_tensorrt build given in
            elim (Option-cases engine) [
              | inl missing ↦ rw (main, parsed, missing) (λ h. cc, λ h. absurd h)
              | inr (chosen, there) ↦
                  rw (main, parsed, there) (run_engine_iff info writing machine options chosen)
            ]
      ]
