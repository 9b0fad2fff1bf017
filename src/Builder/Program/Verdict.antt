-- ===== src/Builder/Program/Verdict.antt =====
-- The exit status of the engine builder, and the file that it leaves.
use market_data_ingress.Base.{
  ap, ℕ, ◌*◌, ◌%◌, ◌^◌, ◌≡◌, refl, Bool, true, Option, none, some, List, ◌∷◌, Bytes, inl, inr, ◌⊎◌,
  Result, Result-cases, ok,
}
use market_data_ingress.Engine.Tensorrt.Calls
use market_data_ingress.Engine.Tensorrt.Session.Steps.{Ends, Ends-bind, present-then, outcome}
use market_data_ingress.Builder.Options.{
  Options, Failure, parse_command_line, check_workspace, Early, help,
}
use market_data_ingress.Builder.Process.{Files, P, ask, tell, on_files}
use market_data_ingress.Builder.Program.{
  Outcome, add_layers, make_parent, save, build_and_save, build, build_checked, main,
}
use market_data_ingress.Builder.Program.Saving.{
  Logged, Unwritten, Saved, Saves, ask-Unwritten, on_files-Unwritten, owning-Saves,
}

module _ {F D : Type 0} (platform : Calls.Platform F D) (files : Files platform.World)
    (output_of : ℕ → Option ℕ) (contents : ℕ → platform.World → Bytes)
    (before : List (Bytes × Bytes)) where
  abbrev Kept : {A : Type 0} → P platform × Option A → Type 0
  Kept =
      Ends (Unwritten platform files contents before)
        (λ _. Unwritten platform files contents before)

  asked :
      (c : Calls.Call) (s : P platform)
      → Unwritten platform files contents before s
      → ((t : P platform) × (ask platform c s ≡ (t, none))
          × Unwritten platform files contents before t)
        ⊎ ((a : ℕ) × (t : P platform) × (ask platform c s ≡ (t, some a))
            × Unwritten platform files contents before t)
  asked c s unwritten =
      elim (outcome (Unwritten platform files contents before)
        (λ answer t. Unwritten platform files contents before t × Logged (c, some answer) t.log)
        (ask platform c s) (ask-Unwritten platform files contents before c s unwritten)) [
          | inl failed ↦ inl failed
          | inr (a, t, e, (after, _)) ↦ inr (a, t, e, after)
        ]

  add_layers-Kept :
      (options : Options) (network : ℕ) (s : P platform)
      → Unwritten platform files contents before s
      → Kept (add_layers platform files output_of contents options network s)
  unfolding add_layers tell ask
  add_layers-Kept options network s unwritten =
      elim (asked (Calls.add_input network options.input_size) s unwritten) [
        | inl (t, e, after) ↦ rw (e) after
        | inr (input, t, e, after) ↦
            rw (e) (elim (asked (Calls.add_identity network input) t after) [
              | inl (u, e2, later) ↦ rw (e2) later
              | inr (identity, u, e2, later) ↦ rw (e2) (
                  present-then (Unwritten platform files contents before)
                    (λ _. Unwritten platform files contents before) (output_of identity) u _ later
                    λ output _. later)
            ])
      ]

  -- Nothing has been written whole yet, and the call has been answered.
  abbrev Ready : Calls.Call × Option ℕ → P platform → Type 0
  Ready entry s = Unwritten platform files contents before s × Logged entry s.log

  -- What a file operation that goes well leaves.
  abbrev Changed :
      (platform.World → platform.World × Bool)
      → Calls.Call × Option ℕ
      → P platform
      → P platform
      → Type 0
  Changed operation entry s t =
      Unwritten platform files contents before t
      × Logged entry t.log
      × ((operation s.world).0 ≡ t.world)
      × ((operation s.world).1 ≡ true)

  changed :
      (operation : platform.World → platform.World × Bool) (entry : Calls.Call × Option ℕ)
      (s : P platform)
      → Ready entry s
      → ((t : P platform) × (on_files platform operation s ≡ (t, none))
          × Unwritten platform files contents before t)
        ⊎ ((a : Unit {0}) × (t : P platform) × (on_files platform operation s ≡ (t, some a))
            × Changed operation entry s t)
  changed operation entry s (unwritten, logged) =
      outcome (Unwritten platform files contents before) (λ _. Changed operation entry s)
        (on_files platform operation s)
        (on_files-Unwritten platform files contents before operation entry s unwritten logged)

  make_parent-Ready :
      (parent : Option Bytes) (entry : Calls.Call × Option ℕ) (s : P platform)
      → Ready entry s
      → Ends
          (Unwritten platform files contents before)
          (λ _. Ready entry)
          (make_parent platform files output_of contents parent s)
  make_parent-Ready none entry s ready = ready
  make_parent-Ready (some parent) entry s (unwritten, logged) =
      elim (changed (files.create_directories parent) entry s (unwritten, logged)) [
        | inl (t, e, after) ↦ rw e after
        | inr (_, t, e, (after, kept, _, _)) ↦ rw e (after, kept)
      ]

  save-Saves :
      (options : Options) (builder network config serialized : ℕ) (s : P platform)
      → Ready (Calls.build builder network config, some serialized) s
      → Saves platform files contents before options
          (save platform files output_of contents options serialized s)
  unfolding save
  save-Saves options builder network config serialized s ready =
      let path = options.output_path in
      let entry : Calls.Call × Option ℕ = (Calls.build builder network config, some serialized) in
      elim (outcome (Unwritten platform files contents before) (λ _. Ready entry)
        (make_parent platform files output_of contents (files.parent_path path) s)
        (make_parent-Ready (files.parent_path path) entry s ready)) [
          | inl (t, e, after) ↦ rw e after
          | inr (_, t, e, after) ↦ rw e (elim (changed (files.open_file path) entry t after) [
            | inl (u, e2, later) ↦ rw e2 later
            | inr (_, u, e2, (later, logged, opened, good)) ↦
                rw e2
                  (elim (changed (files.write_file path (contents serialized u.world)) entry u
                    (later, logged)) [
                      | inl (v, e3, last) ↦ rw e3 last
                      | inr (_, v, e3, (last, kept, _, whole)) ↦ rw e3 (
                        builder,
                        network,
                        config,
                        serialized,
                        t.world,
                        u.world,
                        kept,
                        opened,
                        good,
                        whole,
                        ap (λ written. (path, contents serialized u.world) ∷ written) last,
                        refl,
                      )
                    ])
          ])
        ]

  build_and_save-Saves :
      (options : Options) (builder network : ℕ) (s : P platform)
      → Unwritten platform files contents before s
      → Saves platform files contents before options
          (build_and_save platform files output_of contents options builder network s)
  unfolding build_and_save tell ask
  build_and_save-Saves options builder network s =
      owning-Saves platform files contents before options Calls.Kind.config
        (Calls.create_config builder) _ s
        λ config t unwritten _.
          owning-Saves platform files contents before options Calls.Kind.serialized
            (Calls.build builder network config) (save platform files output_of contents options)
            (tell platform
              (Calls.set_workspace config (options.workspace_mib * 1024 * 1024 % 2 ^ 64)) t)
            (λ serialized u ready logged.
              save-Saves options builder network config serialized u (ready, logged))
            unwritten

  build-Saves :
      (options : Options) (s : P platform)
      → Unwritten platform files contents before s
      → Saves platform files contents before options
          (build platform files output_of contents options s)
  unfolding build
  build-Saves options s =
      owning-Saves platform files contents before options Calls.Kind.builder Calls.create_builder _
        s
        λ builder t held _.
          owning-Saves platform files contents before options Calls.Kind.network
            (Calls.create_network builder) _ t
            (λ network u unwritten _.
              Ends-bind (Unwritten platform files contents before)
                (λ _. Unwritten platform files contents before)
                (Saved platform files contents before options)
                (add_layers platform files output_of contents options network u)
                (λ _. build_and_save platform files output_of contents options builder network)
                (add_layers-Kept options network u unwritten)
                (λ _ v. build_and_save-Saves options builder network v))
            held

  -- How a run ends: with the help, with the engine file written whole, or with an error and no file
  -- written whole.
  abbrev pub Ended : Result Failure (Early ⊎ Options) → Outcome platform.World → Type 0
  Ended parsed outcome =
      ((parsed ≡ ok (inl help)) × (outcome.status ≡ 0) × (outcome.process.written ≡ before))
      ⊎ ((options : Options) × (size : ℕ) × (parsed ≡ ok (inr options))
          × (outcome.status ≡ 0)
          × Saved platform files contents before options size outcome.process)
      ⊎ ((outcome.status ≡ 1) × (outcome.process.written ≡ before))

  build_checked-Ended :
      (options : Options) (s : P platform)
      → s.written ≡ before
      → Ended (ok (inr options)) (build_checked platform files output_of contents options s)
  unfolding build_checked
  build_checked-Ended options s unwritten = elim (Result-cases (check_workspace options)) [
    | inr (_, overflows) ↦ rw (build_checked, overflows) (inr (inr (refl, unwritten)))
    | inl (_, fits) ↦
        elim (outcome (Unwritten platform files contents before)
          (Saved platform files contents before options)
          (build platform files output_of contents options s) (build-Saves options s unwritten)) [
            | inl (t, e, after) ↦ rw (build_checked, fits, e) (inr (inr (refl, after)))
            | inr (size, t, e, saved) ↦
                rw (build_checked, fits, e) (inr (inl (options, size, refl, refl, saved)))
          ]
  ]

  -- The program exits with 0 after the help, with no file written, or once it has opened the path of
  -- its options and written there, whole, the bytes of a network that TensorRT has serialized, and has
  -- written no other file; else it exits with 1, and no file has been written whole.
  pub main_lem :
      (stoull : Bytes → Option (ℕ × ℕ)) (arguments : List Bytes) (s : P platform)
      → s.written ≡ before
      → Ended
          (parse_command_line stoull arguments)
          (main platform files output_of contents stoull arguments s)
  unfolding main
  main_lem stoull arguments s unwritten =
      elim (Result-cases (parse_command_line stoull arguments)) [
        | inl (inl help, parsed) ↦ rw (main, parsed) (inl (refl, refl, unwritten))
        | inl (inr options, parsed) ↦ rw (main, parsed) (build_checked-Ended options s unwritten)
        | inr (failure, refused) ↦ rw (main, refused) (inr (inr (refl, unwritten)))
      ]
