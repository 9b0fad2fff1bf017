-- ===== src/Builder/Options/Bounds.antt =====
-- The numbers that the engine builder accepts.
use market_data_ingress.Base.{
  ℕ, ◌*◌, ◌≡◌, ◌≤◌, ◌↔◌, sym, Bool-cases, Option, some, List, Bytes, ok, length, inl, inr, arith,
  size_max, equal, codes, bind-eq-ok, ◌||◌,
}
use market_data_ingress.Cli.Keeps.{Keeps, parse_arguments_keeps}
use market_data_ingress.Builder.Options.{
  Options, int32_max, parse_positive_size, classify, parse_command_line, check_workspace, defaults,
  needs_value, unknown_argument,
}

module _ (stoull : Bytes → Option (ℕ × ℕ)) where
  -- A size is accepted exactly when the whole text is a number from 1 to the maximum of `int32_t`.
  pub parse_positive_size_iff :
      (text flag_name : Bytes) (n : ℕ)
      → (parse_positive_size stoull text flag_name ≡ ok n)
        ↔ ((stoull text ≡ some (n, length text)) × (1 ≤ n) × (n ≤ int32_max))
  unfolding parse_positive_size
  parse_positive_size_iff text flag_name n = (ground arith, ground arith)

  abbrev pub InRange : Options → Type 0
  InRange options =
      (1 ≤ options.input_size)
      × (options.input_size ≤ int32_max)
      × (1 ≤ options.workspace_mib)
      × (options.workspace_mib ≤ int32_max)

  classify-Keeps : (argument : Bytes) → Keeps InRange (classify stoull argument)
  unfolding classify
  classify-Keeps argument =
      elim (Bool-cases (equal argument (codes "--help") || equal argument (codes "-h"))) [
        | inl help ↦ rw (classify, help) tt
        | inr more ↦ elim (Bool-cases (equal argument (codes "--output"))) [
          | inl output ↦
              rw (classify, more, output)
                (λ text options assigned holds h.
                  let same : record options { output_path = text } ≡ assigned = cc in
                  rw (sym same) holds)
          | inr more2 ↦ elim (Bool-cases (equal argument (codes "--input-size"))) [
            | inl size ↦
                rw (classify, more, more2, size)
                  (λ text options assigned (_, _, one_mib, mib) h.
                    let (n, parsed, set) =
                      bind-eq-ok (parse_positive_size stoull text argument) _ h in
                    let same : record options { input_size = n } ≡ assigned = cc set in
                    let (_, one, most) = (parse_positive_size_iff text argument n).0 parsed in
                    rw (sym same) (one, most, one_mib, mib))
            | inr more3 ↦ elim (Bool-cases (equal argument (codes "--workspace-mib"))) [
              | inl workspace ↦
                  rw (classify, more, more2, more3, workspace)
                    (λ text options assigned (one, input, _, _) h.
                      let (n, parsed, set) =
                        bind-eq-ok (parse_positive_size stoull text argument) _ h in
                      let same : record options { workspace_mib = n } ≡ assigned = cc set in
                      let (_, one_mib, most) = (parse_positive_size_iff text argument n).0 parsed in
                      rw (sym same) (one, input, one_mib, most))
              | inr other ↦ rw (classify, more, more2, more3, other) tt
            ]
          ]
        ]
      ]

  -- Options that the command line gives are in range, so that the test of the workspace never throws:
  -- its size in bytes fits in 64 bits.
  pub parse_command_line_bounds :
      (arguments : List Bytes) (options : Options)
      → parse_command_line stoull arguments ≡ ok (inr options)
      → InRange options
        × (check_workspace options ≡ ok tt)
        × (options.workspace_mib * 1024 * 1024 ≤ size_max)
  unfolding parse_command_line check_workspace
  parse_command_line_bounds arguments options h =
      let (one, input, one_mib, mib) =
        parse_arguments_keeps (classify stoull) needs_value unknown_argument InRange classify-Keeps
          arguments defaults options (omega arith, omega arith, omega arith, omega arith) h in
      ((one, input, one_mib, mib), ground arith, omega arith)
