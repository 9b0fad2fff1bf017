-- ===== src/Builder/Options.antt =====
-- src/build_tiny_engine.cpp: the command line.
pub mod Bounds
use market_data_ingress.Base.{
  ℕ, ◌*◌, ◌-◌, ◌/◌, ◌^◌, Bool, true, false, not, ◌||◌, Option, none, some, List, Bytes, ◌==◌, ltb,
  if◌then◌else◌, codes, equal, length, Result, ok, err, ◌>>=◌, ◌⊎◌, inl, inr, size_max,
}
use market_data_ingress.Cli.{Action, stop, flag, value, unknown, parse_arguments}

-- What the part up to the workspace test throws.
pub data Failure : Type 0 where
  not_a_number : Bytes → Failure
  out_of_bounds : Bytes → Failure
  needs_value : Bytes → Failure
  unknown_argument : Bytes → Failure
  workspace_overflow : Failure

abbrev pub int32_max : ℕ
int32_max = 2 ^ 31 - 1

pub record Options : Type 0 where
  pub output_path : Bytes
  pub input_size : ℕ
  pub workspace_mib : ℕ

abbrev pub defaults : Options
defaults = record { output_path = codes "models/tiny.engine"; input_size = 512; workspace_mib = 16 }

-- `--help`
pub data Early : Type 0 where
  help : Early

-- `stoull` gives a 64-bit number and how many characters it took, or none where it throws.
module _ (stoull : Bytes → Option (ℕ × ℕ)) where
  unfoldable pub parse_positive_size : Bytes → Bytes → Result Failure ℕ
  parse_positive_size text flag_name = elim (stoull text) [
    | none ↦ err (not_a_number text)
    | some (parsed, consumed) ↦
        if not (consumed == length text) || parsed == 0 || ltb int32_max parsed
        then err (out_of_bounds flag_name)
        else ok parsed
  ]

  unfoldable pub classify : Bytes → Action Failure Options Early
  unfolding parse_positive_size
  classify argument =
      if equal argument (codes "--help") || equal argument (codes "-h")
      then stop help
      else if equal argument (codes "--output")
      then value (λ text options. ok (record options { output_path = text }))
      else if equal argument (codes "--input-size")
      then value (λ text options.
        parse_positive_size text argument >>= λ n. ok (record options { input_size = n }))
      else if equal argument (codes "--workspace-mib")
      then value (λ text options.
        parse_positive_size text argument >>= λ n. ok (record options { workspace_mib = n }))
      else unknown

  unfoldable pub parse_command_line : List Bytes → Result Failure (Early ⊎ Options)
  unfolding parse_arguments classify
  parse_command_line = parse_arguments classify needs_value unknown_argument defaults

-- The test behind the loop.
unfoldable pub check_workspace : Options → Result Failure (Unit {0})
check_workspace options =
    if ltb (size_max / (1024 * 1024)) options.workspace_mib then err workspace_overflow else ok tt
