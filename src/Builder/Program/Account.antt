-- ===== src/Builder/Program/Account.antt =====
-- The resources of the engine builder over a whole run.
use market_data_ingress.Base.{
  ℕ, ◌*◌, ◌%◌, ◌^◌, ◌≡◌, refl, Option, none, some, List, [], Bytes, codes, arith, inl, inr, ◌⊎◌,
  Result-cases,
}
use market_data_ingress.Engine.Tensorrt.Calls
use market_data_ingress.Engine.Tensorrt.Session.Balance.{Weight, opened, closed, closed_by, Sound}
use market_data_ingress.Engine.Tensorrt.Session.Steps.{Ends-bind, present-then, outcome}
use market_data_ingress.Builder.Options.{Options, parse_command_line, check_workspace, help}
use market_data_ingress.Builder.Process.{Files, P, ask, tell, on_files}
use market_data_ingress.Builder.Process.Account.{
  Due, Settled, ask-Due, told, on_files-Due, owning-Due,
}
use market_data_ingress.Builder.Program.{
  add_layers, make_parent, save, build_and_save, build, status_of, build_checked, main,
}

module _ {F D : Type 0} (platform : Calls.Platform F D) (files : Files platform.World)
    (output_of : ℕ → Option ℕ) (contents : ℕ → platform.World → Bytes) (w : Weight) where
  abbrev Dues : ℕ → P platform → Type 0
  Dues = Due platform w

  asked :
      (extra : ℕ) (c : Calls.Call) (s : P platform)
      → Calls.yields c ≡ none
      → closed_by w c ≡ 0
      → Dues extra s
      → ((t : P platform) × (ask platform c s ≡ (t, none)) × Dues extra t)
        ⊎ ((a : ℕ) × (t : P platform) × (ask platform c s ≡ (t, some a)) × Dues extra t)
  asked extra c s yields closes due =
      outcome (Dues extra) (λ _. Dues extra) (ask platform c s)
        (ask-Due platform w c extra s yields closes due)

  add_layers-Settled :
      (extra : ℕ) (options : Options) (network : ℕ) (s : P platform)
      → Dues extra s
      → Settled platform w extra (add_layers platform files output_of contents options network s)
  unfolding add_layers Calls.yields
  add_layers-Settled extra options network s due =
      elim (asked extra (Calls.add_input network options.input_size) s refl refl due) [
        | inl (t, e, after) ↦ rw e after
        | inr (input, t, e, after) ↦
            rw e (elim (asked extra (Calls.add_identity network input) t refl refl after) [
              | inl (u, e2, later) ↦ rw e2 later
              | inr (identity, u, e2, later) ↦ rw e2 (
                  present-then (Dues extra) (λ _. Dues extra) (output_of identity) u _ later
                    λ output _.
                      told platform w (Calls.mark_output network output) extra
                        (tell platform (Calls.set_name output (codes "output")) u) refl refl
                        (told platform w (Calls.set_name output (codes "output")) extra u refl refl
                          later))
            ])
      ]

  make_parent-Settled :
      (extra : ℕ) (parent : Option Bytes) (s : P platform)
      → Dues extra s
      → Settled platform w extra (make_parent platform files output_of contents parent s)
  make_parent-Settled extra none s due = due
  make_parent-Settled extra (some parent) s due =
      on_files-Due platform w (files.create_directories parent) extra s due

  save-Settled :
      (extra : ℕ) (options : Options) (serialized : ℕ) (s : P platform)
      → Dues extra s
      → Settled platform w extra (save platform files output_of contents options serialized s)
  unfolding save
  save-Settled extra options serialized s due =
      let path = options.output_path in
      elim (outcome (Dues extra) (λ _. Dues extra)
        (make_parent platform files output_of contents (files.parent_path path) s)
        (make_parent-Settled extra (files.parent_path path) s due)) [
          | inl (t, e, after) ↦ rw e after
          | inr (_, t, e, after) ↦
              rw e
                (elim (outcome (Dues extra) (λ _. Dues extra)
                  (on_files platform (files.open_file path) t)
                  (on_files-Due platform w (files.open_file path) extra t after)) [
                    | inl (u, e2, later) ↦ rw e2 later
                    | inr (_, u, e2, later) ↦ rw e2 (
                        let bytes = contents serialized u.world in
                        elim (outcome (Dues extra) (λ _. Dues extra)
                          (on_files platform (files.write_file path bytes) u)
                          (on_files-Due platform w (files.write_file path bytes) extra u later)) [
                            | inl (v, e3, last) ↦ rw e3 last
                            | inr (_, v, e3, last) ↦ rw e3 last
                          ])
                  ])
        ]

  build_and_save-Settled :
      (extra : ℕ) (options : Options) (builder network : ℕ) (s : P platform)
      → Dues extra s
      → Settled platform w extra
          (build_and_save platform files output_of contents options builder network s)
  unfolding build_and_save Calls.yields
  build_and_save-Settled extra options builder network s =
      owning-Due platform w Calls.Kind.config (Calls.create_config builder) _ extra s refl refl
        λ config t due.
          owning-Due platform w Calls.Kind.serialized (Calls.build builder network config)
            (save platform files output_of contents options) _
            (tell platform
              (Calls.set_workspace config (options.workspace_mib * 1024 * 1024 % 2 ^ 64)) t)
            refl refl (λ serialized u. save-Settled _ options serialized u)
            (told platform w
              (Calls.set_workspace config (options.workspace_mib * 1024 * 1024 % 2 ^ 64)) _ t refl
              refl due)

  build-Settled :
      (extra : ℕ) (options : Options) (s : P platform)
      → Dues extra s
      → Settled platform w extra (build platform files output_of contents options s)
  unfolding build Calls.yields
  build-Settled extra options s =
      owning-Due platform w Calls.Kind.builder Calls.create_builder _ extra s refl refl λ builder t.
        owning-Due platform w Calls.Kind.network (Calls.create_network builder) _ _ t refl refl
          λ network u due.
            Ends-bind (Dues _) (λ _. Dues _) (λ _. Dues _)
              (add_layers platform files output_of contents options network u)
              (λ _. build_and_save platform files output_of contents options builder network)
              (add_layers-Settled _ options network u due)
              (λ _ v. build_and_save-Settled _ options builder network v)

  status_of-Due :
      (extra : ℕ) (r : P platform × Option ℕ)
      → Settled platform w extra r
      → Dues extra (status_of platform files output_of contents r).process
  status_of-Due extra (s, none) due = due
  status_of-Due extra (s, some bytes) due = due

  build_checked-Due :
      (options : Options) (s : P platform)
      → Dues 0 s
      → Dues 0 (build_checked platform files output_of contents options s).process
  unfolding build_checked
  build_checked-Due options s due = elim (Result-cases (check_workspace options)) [
    | inl (_, fits) ↦
        rw (build_checked, fits)
          (status_of-Due 0 (build platform files output_of contents options s)
            (build-Settled 0 options s due))
    | inr (_, overflows) ↦ rw (build_checked, overflows) due
  ]

  main-Due :
      (stoull : Bytes → Option (ℕ × ℕ)) (arguments : List Bytes) (s : P platform)
      → Dues 0 s
      → Dues 0 (main platform files output_of contents stoull arguments s).process
  unfolding main
  main-Due stoull arguments s due = elim (Result-cases (parse_command_line stoull arguments)) [
    | inl (inl help, parsed) ↦ rw (main, parsed) due
    | inl (inr options, parsed) ↦ rw (main, parsed) (build_checked-Due options s due)
    | inr (failure, refused) ↦ rw (main, refused) due
  ]

  -- However the program ends, it has closed every resource as often as it opened it, and at no time
  -- had more been closed than opened.
  pub main_account :
      (stoull : Bytes → Option (ℕ × ℕ)) (arguments : List Bytes) (s : P platform)
      → s.log ≡ []
      → let log = (main platform files output_of contents stoull arguments s).process.log in
        (opened w log ≡ closed w log) × Sound w log
  main_account stoull arguments s fresh =
      let due : Dues 0 s = rw fresh (refl, tt) in
      let (balance, sound) = main-Due stoull arguments s due in (omega arith, sound)
