-- ===== src/Compare/Gate.antt =====
-- tools/metrics_compare.cpp: the command line, the budget, the report and the exit status.
pub mod Verdict
use market_data_ingress.Base.{
  ℕ, Bool, true, false, not, ◌&&◌, ◌||◌, Option, none, some, List, [], ◌∷◌, ◌++◌, Bytes, ◌==◌,
  if◌then◌else◌, equal, codes, length, Result, ok, err, ◌>>=◌, ◌>>◌, throw_if, ◌⊎◌, inl, inr,
  Double,
}
use market_data_ingress.Cli.{Action, stop, flag, value, unknown, parse_arguments}
use market_data_ingress.Compare.Reader.{Error}
use market_data_ingress.Compare.Metrics.{RunMetrics, parse_metrics, context_differences, join}

-- What the comparator throws.
pub data Failure : Type 0 where
  bad_document : Error → Failure
  needs_value unknown_option : Bytes → Failure
  needs_nonnegative : Failure
  no_documents bad_scope : Failure
  bad_metric : Bytes → Failure
  cannot_read : Bytes → Failure

pub data Early : Type 0 where
  help self_test : Early

pub record Options (D : Type 0) : Type 0 where
  pub baseline_path : Bytes
  pub candidate_path : Bytes
  pub scope : Bytes
  pub metric : Bytes
  pub max_regression_percent : D
  pub absolute_tolerance_us : D
  pub allow_context_change : Bool

abbrev is_empty : Bytes → Bool
is_empty [] = true
is_empty (c ∷ text) = false

unfoldable pub is_metric : Bytes → Bool
is_metric metric =
    equal metric (codes "mean")
    || equal metric (codes "p50")
    || equal metric (codes "p90")
    || equal metric (codes "p95")
    || equal metric (codes "p99")
    || equal metric (codes "max")

-- The tests between the command line and the first file.
unfoldable pub check_options : {D : Type 0} → Options D → Result Failure (Unit {0})
unfolding is_metric
check_options options = do
  throw_if (is_empty options.baseline_path || is_empty options.candidate_path) no_documents
  throw_if (not (equal options.scope (codes "e2e")) && not (equal options.scope (codes "device")))
      bad_scope
  throw_if (not (is_metric options.metric)) (bad_metric options.metric)

-- A document's failure as the program's.
abbrev lift : {A : Type 0} → Result Error A → Result Failure A
lift (ok a) = ok a
lift (err e) = err (bad_document e)

-- What the program prints on standard output or standard error, and its exit status.
pub record Outcome : Type 0 where
  pub printed : Bytes
  pub complaint : Bytes
  pub status : ℕ

module _ {D : Type 0} (d : Double D) where
  unfoldable pub parse_nonnegative : Bytes → Result Failure D
  parse_nonnegative text =
      let read = d.strtod text in
      if read.out_of_range
        || not (read.parsed == length text)
        || not (d.is_finite read.value)
        || d.lt read.value (d.literal 0 0)
      then err needs_nonnegative
      else ok read.value

  abbrev pub defaults : Options D
  defaults = record {
    baseline_path = [];
    candidate_path = [];
    scope = codes "e2e";
    metric = codes "p99";
    max_regression_percent = d.literal 50 1;
    absolute_tolerance_us = d.literal 0 0;
    allow_context_change = false;
  }

  unfoldable pub classify : Bytes → Action Failure (Options D) Early
  unfolding parse_nonnegative
  classify argument =
      if equal argument (codes "--help")
      then stop help
      else if equal argument (codes "--self-test")
      then stop self_test
      else if equal argument (codes "--baseline")
      then value (λ text options. ok (record options { baseline_path = text }))
      else if equal argument (codes "--candidate")
      then value (λ text options. ok (record options { candidate_path = text }))
      else if equal argument (codes "--scope")
      then value (λ text options. ok (record options { scope = text }))
      else if equal argument (codes "--metric")
      then value (λ text options. ok (record options { metric = text }))
      else if equal argument (codes "--max-regression-percent")
      then value (λ text options.
        parse_nonnegative text >>= λ n. ok (record options { max_regression_percent = n }))
      else if equal argument (codes "--absolute-tolerance-us")
      then value (λ text options.
        parse_nonnegative text >>= λ n. ok (record options { absolute_tolerance_us = n }))
      else if equal argument (codes "--allow-context-change")
      then flag (λ options. record options { allow_context_change = true })
      else unknown

  unfoldable pub parse_command_line : List Bytes → Result Failure (Early ⊎ Options D)
  unfolding parse_arguments classify
  parse_command_line = parse_arguments classify needs_value unknown_option defaults

  unfoldable pub latency_limit : Options D → RunMetrics D → D
  latency_limit options baseline =
      d.add
        (d.mul baseline.latency_us
          (d.add (d.literal 10 1) (d.div options.max_regression_percent (d.literal 1000 1))))
        options.absolute_tolerance_us

  unfoldable pub within_budget : Options D → RunMetrics D → RunMetrics D → Bool
  unfolding latency_limit
  within_budget options baseline candidate =
      d.le candidate.latency_us (latency_limit options baseline)

  unfoldable pub relative_change : RunMetrics D → RunMetrics D → Option D
  relative_change baseline candidate =
      if d.eq baseline.latency_us (d.literal 0 0)
      then none
      else some (
          d.mul (d.sub (d.div candidate.latency_us baseline.latency_us) (d.literal 10 1))
            (d.literal 1000 1))

  -- The JSON object on standard output.
  unfoldable pub report : Options D → RunMetrics D → RunMetrics D → Bytes
  unfolding within_budget relative_change latency_limit
  report options baseline candidate =
      let number = d.show_fixed 9 in
      let status : Bytes =
        if within_budget options baseline candidate then codes "pass" else codes "regression" in
      let change : Bytes = elim (relative_change baseline candidate) [
        | none ↦ codes "null"
        | some change ↦ number change
      ] in
      codes "{\"status\":\""
      ++ (status
          ++ (codes "\",\"scope\":\""
              ++ (options.scope
                  ++ (codes "\",\"metric\":\""
                      ++ (options.metric
                          ++ (codes "\",\"baseline_us\":"
                              ++ (number baseline.latency_us
                                  ++ (codes ",\"candidate_us\":"
                                      ++ (number candidate.latency_us
                                          ++ (codes ",\"limit_us\":"
                                              ++ (number (latency_limit options baseline)
                                                  ++ (codes ",\"relative_change_percent\":"
                                                      ++ (change
                                                          ++ (codes ",\"max_regression_percent\":"
                                                            ++ (number
                                                            options.max_regression_percent
                                                            ++ (codes ",\"absolute_tolerance_us\":"
                                                            ++ (number options.absolute_tolerance_us
                                                            ++ (codes ",\"context_override\":"
                                                            ++ ((if options.allow_context_change
                                                            then codes "true"
                                                            else codes "false")
                                                            ++ codes "}\n")))))))))))))))))))

  -- `main` from the two runs on.
  unfoldable pub judge : Options D → RunMetrics D → RunMetrics D → Outcome
  judge options baseline candidate =
      let differences = context_differences baseline candidate in
      let differs : Bool = elim differences [ [] ↦ false | _ ∷ _ ↦ true ] in
      if not options.allow_context_change && differs
      then record {
        printed = [];
        complaint = codes "incomparable benchmark context: " ++ (join differences ++ codes "\n");
        status = 4;
      }
      else record {
        printed = report options baseline candidate;
        complaint = [];
        status = if within_budget options baseline candidate then 0 else 1;
      }

  -- `parse_metrics(read_file(path), scope, metric)`. `read_file` is none where a file cannot be
  -- opened or read.
  unfoldable pub load_run :
      (Bytes → Option Bytes) → Options D → Bytes → Result Failure (RunMetrics D)
  load_run read_file options path = elim (read_file path) [
    | none ↦ err (cannot_read path)
    | some document ↦ lift (parse_metrics d document options.scope options.metric)
  ]

  -- `main` from the options on.
  unfoldable pub compare_files : (Bytes → Option Bytes) → Options D → Result Failure Outcome
  compare_files read_file options = do
    check_options options
    baseline ← load_run read_file options options.baseline_path
    candidate ← load_run read_file options options.candidate_path
    ok (judge options baseline candidate)

  -- The exit status of the program, once its self test is left aside: 2 for whatever is thrown.
  unfoldable pub exit_status : (Bytes → Option Bytes) → List Bytes → ℕ → ℕ
  exit_status read_file arguments self_test_status = elim (parse_command_line arguments) [
    | err e ↦ 2
    | ok (inl help) ↦ 0
    | ok (inl self_test) ↦ self_test_status
    | ok (inr options) ↦ elim (compare_files read_file options) [
      | err e ↦ 2
      | ok outcome ↦ outcome.status
    ]
  ]
