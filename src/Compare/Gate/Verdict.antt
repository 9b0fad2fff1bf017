-- ===== src/Compare/Gate/Verdict.antt =====
-- The verdict of tools/metrics_compare.cpp.
use market_data_ingress.Base.{
  ℕ, true, false, Option, List, Bytes, ◌≡◌, ◌↔◌, ◌⊎◌, inl, inr, ok, bind-eq-ok, Result-cases,
  Bool-cases, List-cases, arith, if◌then◌else◌, ap, ◌∙◌, Double,
}
use market_data_ingress.Compare.Metrics.{RunMetrics, context_differences}
use market_data_ingress.Compare.Metrics.Contexts.{SameContext, context_differences_iff}
use market_data_ingress.Compare.Gate.{
  Options, within_budget, judge, load_run, compare_files, check_options, parse_command_line,
  exit_status,
}

module _ {D : Type 0} (d : Double D) (options : Options D) where
  -- Two runs may be compared: the override is given, or they have one context.
  abbrev pub Comparable : RunMetrics D → RunMetrics D → Type 0
  Comparable baseline candidate =
      (options.allow_context_change ≡ true) ⊎ SameContext baseline candidate

  judge_either :
      (baseline candidate : RunMetrics D)
      → let status = (judge d options baseline candidate).status in
        (Comparable baseline candidate
          × (status ≡ (if within_budget d options baseline candidate then 0 else 1)))
        ⊎ ((¬ (Comparable baseline candidate)) × (status ≡ 4))
  unfolding judge
  judge_either baseline candidate = elim (Bool-cases options.allow_context_change) [
    | inl allowed ↦ inl (inl allowed, rw allowed)
    | inr strict ↦ elim (List-cases (context_differences baseline candidate)) [
      | inl same ↦
          inl (inr ((context_differences_iff baseline candidate).0 same), rw (strict, same))
      | inr (x, rest, differ) ↦ inr (
        λ c. elim c [
          | inl allowed ↦ cc
          | inr same ↦ cc ((context_differences_iff baseline candidate).1 same)
        ],
        rw (strict, differ),
      )
    ]
  ]

  -- The exit status of a comparison: 4 exactly when the runs are not comparable, 0 exactly when they
  -- are and the candidate is within the budget, and 1 exactly when they are and it is not.
  pub judge_status :
      (baseline candidate : RunMetrics D)
      → let status = (judge d options baseline candidate).status in
        ((status ≡ 4) ↔ (¬ (Comparable baseline candidate)))
        × ((status ≡ 0)
            ↔ (Comparable baseline candidate × (within_budget d options baseline candidate ≡ true)))
        × ((status ≡ 1) ↔ (
            Comparable baseline candidate × (within_budget d options baseline candidate ≡ false)))
  judge_status baseline candidate = elim (judge_either baseline candidate) [
    | inr (incomparable, four) ↦ (
      (λ _. incomparable, λ _. four),
      (λ zero_status. absurd (omega arith), λ (c, _). absurd (incomparable c)),
      (λ one_status. absurd (omega arith), λ (c, _). absurd (incomparable c)),
    )
    | inl (c, verdict) ↦ elim (Bool-cases (within_budget d options baseline candidate)) [
      | inl within ↦
          let status = rw within at verdict in
          (
            (λ four_status. absurd (omega arith), λ refused. absurd (refused c)),
            (λ _. (c, within), λ _. status),
            (λ one_status. absurd (omega arith), λ (_, over). cc),
          )
      | inr over ↦
          let status = rw over at verdict in
          (
            (λ four_status. absurd (omega arith), λ refused. absurd (refused c)),
            (λ zero_status. absurd (omega arith), λ (_, within). cc),
            (λ _. (c, over), λ _. status),
          )
    ]
  ]

  -- The document of a path, read and parsed.
  abbrev Loads : (Bytes → Option Bytes) → Bytes → RunMetrics D → Type 0
  Loads read_file path run = load_run d read_file options path ≡ ok run

  -- What a passing comparison rests on.
  pub record IsAccepted (read_file : Bytes → Option Bytes) : Type 0 where
    pub baseline : RunMetrics D
    pub candidate : RunMetrics D
    pub checked : check_options options ≡ ok tt
    pub baseline_loads : Loads read_file options.baseline_path baseline
    pub candidate_loads : Loads read_file options.candidate_path candidate
    pub comparable : Comparable baseline candidate
    pub in_budget : within_budget d options baseline candidate ≡ true

  -- On a command line that sets these options the program exits with 0 exactly when the options pass
  -- their checks, both documents load, the runs are comparable, and the candidate is within the
  -- budget.
  pub exit_status_iff :
      (read_file : Bytes → Option Bytes) (arguments : List Bytes) (self_test_status : ℕ)
      → parse_command_line d arguments ≡ ok (inr options)
      → (exit_status d read_file arguments self_test_status ≡ 0) ↔ IsAccepted read_file
  unfolding exit_status compare_files
  exit_status_iff read_file arguments self_test_status parsed = (there, back)
    where
      there : exit_status d read_file arguments self_test_status ≡ 0 → IsAccepted read_file
      there zero_status = elim (Result-cases (compare_files d read_file options)) [
        | inr (e, failed) ↦ absurd (omega (arith, rw (parsed, failed, exit_status) at zero_status))
        | inl (outcome, compared) ↦
            let (_, checked, rest) = bind-eq-ok (check_options options) _ compared in
            let (baseline, first, more) =
              bind-eq-ok (load_run d read_file options options.baseline_path) _ rest in
            let (candidate, second, last) =
              bind-eq-ok (load_run d read_file options options.candidate_path) _ more in
            let same : judge d options baseline candidate ≡ outcome = cc in
            let status : outcome.status ≡ 0 = rw (parsed, compared, exit_status) at zero_status in
            let accepted =
              (judge_status baseline candidate).1.0 (ap (λ o. o.status) same ∙ status) in
            record {
              baseline = baseline;
              candidate = candidate;
              checked = checked;
              baseline_loads = first;
              candidate_loads = second;
              comparable = accepted.0;
              in_budget = accepted.1;
            }
      ]

      back : IsAccepted read_file → exit_status d read_file arguments self_test_status ≡ 0
      back a =
          let compared : compare_files d read_file options
              ≡ ok (judge d options a.baseline a.candidate) =
            rw (a.checked, a.baseline_loads, a.candidate_loads, compare_files) in
          rw (parsed, compared, exit_status)
            ((judge_status a.baseline a.candidate).1.1 (a.comparable, a.in_budget))
