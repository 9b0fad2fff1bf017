-- ===== src/Builder/Program/Progress.antt =====
-- The engine builder where nothing fails.
use market_data_ingress.Base.{
  ℕ, ◌*◌, ◌%◌, ◌^◌, ◌≡◌, refl, Bool, true, Option, none, some, List, [], ◌∷◌, Bytes, codes, length,
  inr, ok,
}
use market_data_ingress.Base.Attempts.{Attempt, Runs}
use market_data_ingress.Engine.Tensorrt.Calls
use market_data_ingress.Builder.Options.{Options, parse_command_line}
use market_data_ingress.Builder.Options.Bounds.{parse_command_line_bounds}
use market_data_ingress.Builder.Process.{Files, P, ask, tell, owning, on_files}
use market_data_ingress.Builder.Program.{
  add_layers, make_parent, save, build_and_save, build, build_checked, main,
}

-- A platform on which every call answers, and files on which every operation goes well.
abbrev pub Answering : {F D : Type 0} → Calls.Platform F D → Type 0
Answering platform =
    (c : Calls.Call) (world : platform.World) → (a : ℕ) × ((platform.perform c world).1 ≡ some a)

abbrev pub Writable : {World : Type 0} → Files World → Type 0
Writable {World = World} files =
    (path bytes : Bytes) (world : World)
    → ((files.create_directories path world).1 ≡ true)
      × ((files.open_file path world).1 ≡ true)
      × ((files.write_file path bytes world).1 ≡ true)

module _ {F D : Type 0} (platform : Calls.Platform F D) (files : Files platform.World)
    (output_of : ℕ → Option ℕ) (contents : ℕ → platform.World → Bytes)
    (answering : Answering platform) (writable : Writable files)
    (outputs : (layer : ℕ) → (tensor : ℕ) × (output_of layer ≡ some tensor)) where
  ask-Runs : (c : Calls.Call) → Runs (ask platform c)
  unfolding ask
  ask-Runs c s =
      let (a, answered) = answering c s.world in
      (
        a,
        record s { world = (platform.perform c s.world).0; log = (c, some a) ∷ s.log },
        rw (ask, answered) refl,
      )

  on_files-Runs :
      (operation : platform.World → platform.World × Bool)
      → ((world : platform.World) → (operation world).1 ≡ true)
      → Runs (on_files platform operation)
  unfolding on_files
  on_files-Runs operation good s =
      (tt, record s { world = (operation s.world).0 }, rw (on_files, good s.world) refl)

  owning-Runs :
      {A : Type 0} (kind : Calls.Kind) (c : Calls.Call) (body : ℕ → Attempt (P platform) A)
      → ((handle : ℕ) → Runs (body handle))
      → Runs (owning platform kind c body)
  unfolding owning
  owning-Runs kind c body runs s =
      let (handle, t, e) = ask-Runs c s in
      let (a, u, e2) = runs handle t in
      (
        a,
        tell platform (Calls.destroy (record { kind = kind; handle = handle })) u,
        rw (owning, e, e2) refl,
      )

  add_layers-Runs :
      (options : Options) (network : ℕ)
      → Runs (add_layers platform files output_of contents options network)
  unfolding add_layers
  add_layers-Runs options network s =
      let (input, t, e) = ask-Runs (Calls.add_input network options.input_size) s in
      let (identity, u, e2) = ask-Runs (Calls.add_identity network input) t in
      let (output, there) = outputs identity in
      (
        tt,
        tell platform (Calls.mark_output network output)
            (tell platform (Calls.set_name output (codes "output")) u),
        rw (add_layers, e) (rw e2 (rw there refl)),
      )

  make_parent-Runs :
      (parent : Option Bytes) → Runs (make_parent platform files output_of contents parent)
  make_parent-Runs none s = (tt, s, refl)
  make_parent-Runs (some parent) s =
      on_files-Runs (files.create_directories parent) (λ world. (writable parent [] world).0) s

  save-Runs :
      (options : Options) (serialized : ℕ)
      → Runs (save platform files output_of contents options serialized)
  unfolding save
  save-Runs options serialized s =
      let path = options.output_path in
      let (_, t, e) = make_parent-Runs (files.parent_path path) s in
      let (_, u, e2) =
        on_files-Runs (files.open_file path) (λ world. (writable path [] world).1) t in
      let bytes = contents serialized u.world in
      let (_, v, e3) =
        on_files-Runs (files.write_file path bytes) (λ world. (writable path bytes world).2) u in
      (
        length bytes,
        record v { written = (path, bytes) ∷ v.written },
        rw (save, e) (rw e2 (rw e3 refl)),
      )

  build_and_save-Runs :
      (options : Options) (builder network : ℕ)
      → Runs (build_and_save platform files output_of contents options builder network)
  unfolding build_and_save
  build_and_save-Runs options builder network =
      owning-Runs Calls.Kind.config (Calls.create_config builder) _ λ config s.
        owning-Runs Calls.Kind.serialized (Calls.build builder network config)
          (save platform files output_of contents options) (save-Runs options)
          (tell platform (Calls.set_workspace config (options.workspace_mib * 1024 * 1024 % 2 ^ 64))
            s)

  build-Runs : (options : Options) → Runs (build platform files output_of contents options)
  unfolding build
  build-Runs options = owning-Runs Calls.Kind.builder Calls.create_builder _ λ builder.
      owning-Runs Calls.Kind.network (Calls.create_network builder) _ λ network s.
        let (_, t, e) = add_layers-Runs options network s in
        let (size, u, e2) = build_and_save-Runs options builder network t in
        (size, u, rw (e, e2) refl)

  -- If every call of TensorRT answers, every layer has an output, and every operation on files goes
  -- well, the program exits with 0 on every command line that parses.
  pub main_succeeds :
      (stoull : Bytes → Option (ℕ × ℕ)) (arguments : List Bytes) (options : Options)
      (s : P platform)
      → parse_command_line stoull arguments ≡ ok (inr options)
      → (main platform files output_of contents stoull arguments s).status ≡ 0
  unfolding main build_checked
  main_succeeds stoull arguments options s parsed =
      let (_, fits, _) = parse_command_line_bounds stoull arguments options parsed in
      let (size, t, e) = build-Runs options s in
      rw (main, parsed) (rw (build_checked, fits, e) refl)
