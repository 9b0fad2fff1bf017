-- ===== src/Runner/Program/Verdict.antt =====
-- The exit status of src/main.cpp against the validation and the target.
use market_data_ingress.Base.{
  ℕ, true, false, none, some, Option-cases, Bool-cases, ◌≡◌, refl, ◌⊎◌, inl, inr, Double,
}
use market_data_ingress.Engine.{RunOptions, InferenceStats, LatencyDistribution, OutputValidation}
use market_data_ingress.Benchmark.Report.{has_target, selected}
use market_data_ingress.Runner.Program.{validation_failed, target_status, verdict}

module _ {D : Type 0} (d : Double D) (options : RunOptions D) (stats : InferenceStats D) where
  -- The outputs were not checked, or they passed.
  abbrev pub ValidationHolds : Type 0
  ValidationHolds =
      (stats.validation ≡ none)
      ⊎ ((v : OutputValidation D) × (stats.validation ≡ some v) × (v.passed ≡ true))

  -- There is no target, or the distribution that it is about was measured and its p99 is not above it.
  abbrev pub TargetHolds : Type 0
  TargetHolds =
      (has_target d options ≡ false)
      ⊎ ((measured : LatencyDistribution D) × (selected d options stats ≡ some measured)
          × (d.lt options.target_latency_us measured.p99_us ≡ false))

  -- The selected distribution was not measured, and the status tells so, or its p99 is above the
  -- target, and the status tells that.
  abbrev pub Missed : ℕ → Type 0
  Missed status =
      ((status ≡ 4) × (selected d options stats ≡ none))
      ⊎ ((measured : LatencyDistribution D) × (status ≡ 3)
          × (selected d options stats ≡ some measured)
          × (d.lt options.target_latency_us measured.p99_us ≡ true))

  validation_cases :
      (ValidationHolds × (validation_failed d stats ≡ false))
      ⊎ ((¬ ValidationHolds) × (validation_failed d stats ≡ true))
  unfolding validation_failed
  validation_cases = elim (Option-cases stats.validation) [
    | inl unchecked ↦ inl (inl unchecked, rw (unchecked) refl)
    | inr (v, checked) ↦ elim (Bool-cases v.passed) [
      | inl passed ↦ inl (inr (v, checked, passed), rw (checked, passed) refl)
      | inr failed ↦ inr (
        λ holds. elim holds [ inl unchecked ↦ cc | inr (w, checked_w, passed) ↦ cc ],
        rw (checked, failed) refl,
      )
    ]
  ]

  target_cases :
      (TargetHolds × (target_status d options stats ≡ 0))
      ⊎ ((has_target d options ≡ true) × Missed (target_status d options stats))
  unfolding target_status
  target_cases = elim (Bool-cases (has_target d options)) [
    | inr without ↦ inl (inl without, rw (target_status, without) refl)
    | inl target ↦ elim (Option-cases (selected d options stats)) [
      | inl unmeasured ↦ inr (target, inl (rw (target_status, target, unmeasured) refl, unmeasured))
      | inr (m, measured) ↦ elim (Bool-cases (d.lt options.target_latency_us m.p99_us)) [
        | inl above ↦
            inr (target, inr (m, rw (target_status, target, measured, above) refl, measured, above))
        | inr met ↦ inl (inr (m, measured, met), rw (target_status, target, measured, met) refl)
      ]
    ]
  ]

  -- The exit status of a run that has published its metrics: 5 when the outputs were checked and
  -- did not pass, whatever the target; otherwise 0 when there is no target or the p99 meets it, 4
  -- when the latency that the target is about was not measured, and 3 when its p99 is above it.
  pub verdict_lem :
      ((¬ ValidationHolds) × (verdict d options stats ≡ 5))
      ⊎ (ValidationHolds × TargetHolds × (verdict d options stats ≡ 0))
      ⊎ (ValidationHolds × (has_target d options ≡ true) × Missed (verdict d options stats))
  unfolding verdict
  verdict_lem = elim validation_cases [
    | inr (failed, e) ↦ inl (failed, rw (verdict, e) refl)
    | inl (holds, e) ↦ elim target_cases [
      | inl (met, status) ↦ inr (inl (holds, met, rw (verdict, e) status))
      | inr (target, missed) ↦ inr (inr (holds, target, rw (verdict, e) missed))
    ]
  ]
