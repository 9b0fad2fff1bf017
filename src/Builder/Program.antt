-- ===== src/Builder/Program.antt =====
-- src/build_tiny_engine.cpp: the build and the exit status.
pub mod Account
pub mod Saving
pub mod Verdict
pub mod Progress
use market_data_ingress.Base.{
  ℕ, ◌*◌, ◌%◌, ◌^◌, Bool, true, false, Option, none, some, List, [], ◌∷◌, Bytes, codes, length, ℤ,
  pos, Result, ok, err, inl, inr, ◌⊎◌,
}
use market_data_ingress.Base.Attempts.{
  Attempt, continue_with, ◌>>=◌, ◌>>◌, done, present, inspect, modify,
}
use market_data_ingress.Engine.Tensorrt.Calls
use market_data_ingress.Builder.Options.{
  Options, Failure, Early, help, parse_command_line, check_workspace,
}
use market_data_ingress.Builder.Process.{Process, Files, P, ask, tell, owning, on_files}

-- What the program leaves: its exit status, and the state.
pub record Outcome (World : Type 0) : Type 0 where
  pub status : ℕ
  pub process : Process World

-- `output_of` is `ILayer::getOutput(0)`, and `contents` the bytes of a serialized network.
module _ {F D : Type 0} (platform : Calls.Platform F D) (files : Files platform.World)
    (output_of : ℕ → Option ℕ) (contents : ℕ → platform.World → Bytes) where
  open platform use {World}

  -- The network: an input and an identity layer on it.
  unfoldable pub add_layers : Options → ℕ → Attempt (P platform) (Unit {0})
  add_layers options network = do
    input ← ask platform (Calls.add_input network options.input_size)
    identity ← ask platform (Calls.add_identity network input)
    output ← present (output_of identity)
    modify (tell platform (Calls.set_name output (codes "output")))
    modify (tell platform (Calls.mark_output network output))

  -- `if (destination.has_parent_path()) { create_directories(…); }`
  abbrev make_parent : Option Bytes → Attempt (P platform) (Unit {0})
  make_parent none = done tt
  make_parent (some parent) = on_files platform (files.create_directories parent)

  -- The engine file: its directories, and its bytes.
  unfoldable pub save : Options → ℕ → Attempt (P platform) ℕ
  save options serialized = do
    make_parent (files.parent_path options.output_path)
    on_files platform (files.open_file options.output_path)
    bytes ← inspect (λ (s : P platform). contents serialized s.world)
    on_files platform (files.write_file options.output_path bytes)
    modify (λ (s : P platform). record s { written = (options.output_path, bytes) ∷ s.written })
    done (length bytes)

  -- Its part from the builder configuration on.
  unfoldable pub build_and_save : Options → (builder network : ℕ) → Attempt (P platform) ℕ
  build_and_save options builder network =
      owning platform Calls.Kind.config (Calls.create_config builder) λ config.
        modify (
          tell platform (Calls.set_workspace config (options.workspace_mib * 1024 * 1024 % 2 ^ 64)))
        >> owning platform Calls.Kind.serialized (Calls.build builder network config) (save options)

  unfoldable pub build : Options → Attempt (P platform) ℕ
  build options = owning platform Calls.Kind.builder Calls.create_builder λ builder.
      owning platform Calls.Kind.network (Calls.create_network builder)
        λ network. add_layers options network >> build_and_save options builder network

  abbrev status_of : P platform × Option ℕ → Outcome World
  status_of (s, none) = record { status = 1; process = s }
  status_of (s, some bytes) = record { status = 0; process = s }

  unfoldable pub build_checked : Options → P platform → Outcome World
  build_checked options s = elim (check_workspace options) [
    | err failure ↦ record { status = 1; process = s }
    | ok _ ↦ status_of (build options s)
  ]

  unfoldable pub main : (Bytes → Option (ℕ × ℕ)) → List Bytes → P platform → Outcome World
  main stoull arguments s = elim (parse_command_line stoull arguments) [
    | err failure ↦ record { status = 1; process = s }
    | ok (inl help) ↦ record { status = 0; process = s }
    | ok (inr options) ↦ build_checked options s
  ]
