-- ===== src/Runner/Options.antt =====
-- src/main.cpp: the values of options, and the command line.
use market_data_ingress.Base.{
  ℕ, Bool, true, false, not, ◌&&◌, ◌||◌, Option, none, some, List, Bytes, ◌==◌, ltb, if◌then◌else◌,
  equal, codes, length, Result, ok, err, ◌>>=◌, ◌⊎◌, Double,
}
use market_data_ingress.Cli.{Action, stop, flag, value, unknown, parse_arguments}
use market_data_ingress.Engine.{
  BackendHint, auto, tensorrt, mock, LatencyScope, end_to_end, device_compute, RunOptions,
  default_options,
}
use market_data_ingress.Base.{size_max}

-- What `std::stoull` and `std::stod` give: the number and how many characters it took, or none where
-- they throw. `stoull` takes a sign, and gives a 64-bit number.
pub record Parsers (D : Type 0) : Type 0 where
  pub stoull : Bytes → Option (ℕ × ℕ)
  pub stod : Bytes → Option (D × ℕ)

-- What the program throws before the benchmark runs.
pub data Failure : Type 0 where
  not_a_number : Bytes → Failure
  invalid_value : Bytes → Bytes → Failure
  bad_target bad_tolerance : Failure
  needs_value unknown_argument : Bytes → Failure
  unsupported_scope unsupported_backend : Bytes → Failure

-- `--help`
pub data Early : Type 0 where
  help : Early

unfoldable pub backend_name : BackendHint → Bytes
backend_name tensorrt = codes "tensorrt"
backend_name mock = codes "mock"
backend_name auto = codes "auto"

unfoldable pub parse_scope : Bytes → Result Failure LatencyScope
parse_scope text =
    if equal text (codes "e2e")
    then ok end_to_end
    else if equal text (codes "device")
    then ok device_compute
    else err (unsupported_scope text)

unfoldable pub parse_backend : Bytes → Result Failure BackendHint
parse_backend text =
    if equal text (codes "auto")
    then ok auto
    else if equal text (codes "tensorrt")
    then ok tensorrt
    else if equal text (codes "mock")
    then ok mock
    else err (unsupported_backend text)

module _ {D : Type 0} (d : Double D) (parsers : Parsers D) where
  unfoldable pub parse_size : Bytes → Bytes → Bool → Result Failure ℕ
  parse_size text flag_name allow_zero = elim (parsers.stoull text) [
    | none ↦ err (not_a_number text)
    | some (parsed, consumed) ↦
        if not (consumed == length text) || (not allow_zero && parsed == 0) || ltb size_max parsed
        then err (invalid_value flag_name text)
        else ok parsed
  ]

  unfoldable pub parse_target : Bytes → Result Failure D
  parse_target text = elim (parsers.stod text) [
    | none ↦ err (not_a_number text)
    | some (parsed, consumed) ↦
        if not (consumed == length text) || not (d.is_finite parsed) || d.le parsed (d.literal 0 0)
        then err bad_target
        else ok parsed
  ]

  unfoldable pub parse_tolerance : Bytes → Result Failure D
  parse_tolerance text = elim (parsers.stod text) [
    | none ↦ err (not_a_number text)
    | some (parsed, consumed) ↦
        if not (consumed == length text) || not (d.is_finite parsed) || d.lt parsed (d.literal 0 0)
        then err bad_tolerance
        else ok parsed
  ]

  -- An option whose value is a size.
  size_option :
      Bytes → Bool → (ℕ → RunOptions D → RunOptions D) → Action Failure (RunOptions D) Early
  unfolding parse_size
  size_option flag_name allow_zero assign =
      value (λ text options. parse_size text flag_name allow_zero >>= λ n. ok (assign n options))

  unfoldable pub classify : Bytes → Action Failure (RunOptions D) Early
  unfolding size_option parse_target parse_tolerance parse_scope parse_backend
  classify argument =
      if equal argument (codes "--help") || equal argument (codes "-h")
      then stop help
      else if equal argument (codes "--model")
      then value (λ text options. ok (record options { model_path = text }))
      else if equal argument (codes "--batch")
      then size_option argument false (λ n options. record options { batch_size = n })
      else if equal argument (codes "--input-size")
      then size_option argument false (λ n options. record options { input_size = n })
      else if equal argument (codes "--iterations")
      then size_option argument false (λ n options. record options { iterations = n })
      else if equal argument (codes "--warmup")
      then size_option argument true (λ n options. record options { warmup = n })
      else if equal argument (codes "--json-out")
      then value (λ text options. ok (record options { metrics_path = text }))
      else if equal argument (codes "--target-us")
      then value (λ text options.
        parse_target text >>= λ us. ok (record options { target_latency_us = us }))
      else if equal argument (codes "--target-scope")
      then value (λ text options.
        parse_scope text >>= λ scope. ok (record options { target_scope = scope }))
      else if equal argument (codes "--backend")
      then value
          (λ text options. parse_backend text >>= λ hint. ok (record options { backend = hint }))
      else if equal argument (codes "--allow-mock-fallback")
      then flag (λ options. record options { allow_mock_fallback = true })
      else if equal argument (codes "--verify-identity")
      then flag (λ options. record options { verify_identity = true })
      else if equal argument (codes "--tolerance")
      then value (λ text options.
        parse_tolerance text >>= λ t. ok (record options { validation_tolerance = t }))
      else if equal argument (codes "--cuda-graph")
      then flag (λ options. record options { use_cuda_graph = true })
      else unknown

  unfoldable pub parse_command_line : List Bytes → Result Failure (Early ⊎ RunOptions D)
  unfolding parse_arguments classify
  parse_command_line = parse_arguments classify needs_value unknown_argument (default_options d)
