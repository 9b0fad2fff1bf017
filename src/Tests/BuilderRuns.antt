-- ===== src/Tests/BuilderRuns.antt =====
-- The theorems about src/build_tiny_engine.cpp at a command line, a device and a file system.
use market_data_ingress.Base.{
  ℕ, ◌+◌, ◌*◌, ◌/◌, ◌≤◌, ◌≡◌, refl, ◌↔◌, inr, true, Option, some, List, [], ◌∷◌, Bytes, codes,
  equal, length, ok, size_max,
}
use market_data_ingress.Cli.{parse_arguments, parse_from}
use market_data_ingress.Engine.Tensorrt.Session.Balance.{opened, closed, Sound}
use market_data_ingress.Engine.Tensorrt.Calls
use market_data_ingress.Builder.Options.{
  Options, int32_max, parse_positive_size, classify, parse_command_line, check_workspace,
}
use market_data_ingress.Builder.Options.Bounds.{
  InRange, parse_positive_size_iff, parse_command_line_bounds,
}
use market_data_ingress.Builder.Process.{Files, P}
use market_data_ingress.Builder.Program.{Outcome, main}
use market_data_ingress.Builder.Program.Account.{main_account}
use market_data_ingress.Builder.Program.Verdict.{Ended, main_lem}
use market_data_ingress.Builder.Program.Progress.{main_succeeds}
use market_data_ingress.Tests.Numbers.{natural}
use market_data_ingress.Tests.Devices.{Device, platform}

-- Decimal digits, as far as they go.
abbrev stoull : Bytes → Option (ℕ × ℕ)
stoull text = let read = natural.strtod text in some (read.value / 1000, read.parsed)

parse_positive_size_iff_example :
    (parse_positive_size stoull (codes "512") (codes "--input-size") ≡ ok 512)
    ↔ ((stoull (codes "512") ≡ some (512, length (codes "512"))) × (1 ≤ 512) × (512 ≤ int32_max))
parse_positive_size_iff_example =
    parse_positive_size_iff stoull (codes "512") (codes "--input-size") 512

abbrev arguments : List Bytes
arguments = codes "--input-size" ∷ codes "8" ∷ codes "--output" ∷ codes "m/t.engine" ∷ []

abbrev options : Options
options = record { output_path = codes "m/t.engine"; input_size = 8; workspace_mib = 16 }

parsed_options : parse_command_line stoull arguments ≡ ok (inr options)
unfolding parse_command_line classify parse_positive_size parse_arguments parse_from equal
parsed_options = refl

parse_command_line_bounds_example :
    InRange stoull options
    × (check_workspace options ≡ ok tt)
    × (options.workspace_mib * 1024 * 1024 ≤ size_max)
parse_command_line_bounds_example =
    parse_command_line_bounds stoull arguments options parsed_options

abbrev files : Files Device
files = record {
  parent_path = λ path. some (codes "m");
  create_directories = λ path world. (world, true);
  open_file = λ path world. (world, true);
  write_file = λ path bytes world. (world, true);
}

abbrev output_of : ℕ → Option ℕ
output_of layer = some (layer + 100)

abbrev contents : ℕ → Device → Bytes
contents serialized world = codes "engine"

abbrev started : P platform
started = record { world = record { next = 1; buffer = [] }; log = []; written = [] }

abbrev ended : Outcome Device
ended = main platform files output_of contents stoull arguments started

-- The measure that counts every resource once.
abbrev each : Calls.Kind → ℕ → ℕ
each kind handle = 1

main_account_example :
    (opened each ended.process.log ≡ closed each ended.process.log) × Sound each ended.process.log
main_account_example =
    main_account platform files output_of contents each stoull arguments started refl

main_lem_example :
    Ended platform files output_of contents [] (parse_command_line stoull arguments) ended
main_lem_example = main_lem platform files output_of contents [] stoull arguments started refl

main_succeeds_example : ended.status ≡ 0
main_succeeds_example =
    main_succeeds platform files output_of contents (λ c world. (world.next, refl))
      (λ path bytes world. (refl, refl, refl)) (λ layer. (layer + 100, refl)) stoull arguments
      options started parsed_options
