-- ===== src/Tests/ComparatorRuns.antt =====
-- The theorems about tools/metrics_compare.cpp and the command lines at concrete runs and arguments.
use market_data_ingress.Base.{
  arith, ℕ, ◌+◌, length, ◌≡◌, refl, ◌↔◌, inr, true, false, Option, some, List, [], ◌∷◌, ◌++◌, Bytes,
  codes, equal, ok,
}
use market_data_ingress.Benchmark.Escape.{escape_json}
use market_data_ingress.Interop.ComparatorStrings.{kept_all, parse_string-escape_json}
use market_data_ingress.Compare.Reader.{Span, parse_string, find_from, find}
use market_data_ingress.Compare.Reader.Fuel.{Ended, find_fuel}
use market_data_ingress.Json.{skip_space}
use market_data_ingress.Compare.Metrics.{RunMetrics, context_differences}
use market_data_ingress.Compare.Metrics.Contexts.{SameContext, context_differences_iff}
use market_data_ingress.Compare.Gate.{
  Options, defaults, parse_command_line, judge, within_budget, exit_status,
}
use market_data_ingress.Compare.Gate.Verdict.{Comparable, judge_status, IsAccepted, exit_status_iff}
use market_data_ingress.Tests.Documents.{document}
use market_data_ingress.Tests.Numbers.{natural}

parse_string-escape_json_example :
    parse_string
      (codes "[" ++ (b'"' ∷ (escape_json (codes "a\\") ++ (b'"' ∷ codes "]"))))
      (length (codes "["))
    ≡ ok (kept_all (codes "a\\"), length (codes "[") + length (escape_json (codes "a\\")) + 2)
parse_string-escape_json_example = parse_string-escape_json (codes "[") (codes "a\\") (codes "]")

-- The object of the text `{"a":1}`.
abbrev braces : Span
braces = record { start = 0; close = 6 }

find_fuel_example :
    Ended (find (codes "{\"a\":1}") braces (codes "a"))
    × (find_from 20 (codes "{\"a\":1}") 6 (codes "a") (skip_space (codes "{\"a\":1}") 1)
        ≡ find (codes "{\"a\":1}") braces (codes "a"))
find_fuel_example = find_fuel 20 (codes "{\"a\":1}") braces (codes "a") (omega arith) (omega arith)

abbrev baseline : RunMetrics ℕ
baseline = record {
  latency_us = 4000;
  backend = codes "m";
  device = codes "cpu";
  input_size = 8;
  batch_size = 1;
  cuda_graph = false;
}

abbrev slower : RunMetrics ℕ
slower = record baseline { latency_us = 9000 }

abbrev elsewhere : RunMetrics ℕ
elsewhere = record baseline { device = codes "gpu" }

context_differences_iff_example :
    (context_differences baseline elsewhere ≡ []) ↔ SameContext baseline elsewhere
context_differences_iff_example = context_differences_iff baseline elsewhere

abbrev options : Options ℕ
options = record (defaults natural) { baseline_path = codes "a"; candidate_path = codes "b" }

judge_status_example :
    let status = (judge natural options baseline slower).status in
    ((status ≡ 4) ↔ (¬ (Comparable natural options baseline slower)))
    × ((status ≡ 0) ↔ (
        Comparable natural options baseline slower
        × (within_budget natural options baseline slower ≡ true)))
    × ((status ≡ 1) ↔ (
        Comparable natural options baseline slower
        × (within_budget natural options baseline slower ≡ false)))
judge_status_example = judge_status natural options baseline slower

abbrev arguments : List Bytes
arguments = codes "--baseline" ∷ codes "a" ∷ codes "--candidate" ∷ codes "b" ∷ []

arguments_parse : parse_command_line natural arguments ≡ ok (inr options)
unfolding parse_command_line equal
arguments_parse = refl

abbrev one_file : Bytes → Option Bytes
one_file path = some document

exit_status_iff_example :
    (exit_status natural one_file arguments 0 ≡ 0) ↔ IsAccepted natural options one_file
exit_status_iff_example = exit_status_iff natural options one_file arguments 0 arguments_parse
