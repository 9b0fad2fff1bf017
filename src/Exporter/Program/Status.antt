-- ===== src/Exporter/Program/Status.antt =====
-- The exit status of tools/metrics_exporter.cpp.
use market_data_ingress.Base.{
  ◌≡◌, ◌↔◌, refl, sym, Bool, true, false, Bool-cases, arith, List, [], ◌∷◌, Bytes, if◌then◌else◌,
  Result, Result-cases, ok, Option, none, some, err, ◌⊎◌, inl, inr, Double,
}
use market_data_ingress.Exporter.Render.{ExporterState}
use market_data_ingress.Exporter.Scrape.{Host}
use market_data_ingress.Exporter.Http.{handle_connection}
use market_data_ingress.Exporter.Server.{
  Strtoul, Options, Failure, Early, help, self_test, parse_command_line, Network, create_listener,
  Event, connection, interrupted, stop_signal, accept_error, accept_loop, initial_state, print_once,
}
use market_data_ingress.Exporter.Program.{exits, is_missing, serve, run, main}

-- A signal to stop comes, and no `accept` fails before it.
abbrev pub Stops : {D : Type 0} → List (Event D) → Type 0
Stops [] = ⊥
Stops (connection host received ∷ events) = Stops events
Stops (interrupted ∷ events) = Stops events
Stops (stop_signal ∷ events) = Unit {0}
Stops (accept_error ∷ events) = ⊥

clash : {E A : Type 0} {e : E} {a : A} → err e ≡ ok a → ⊥
clash h = cc

waits : {A : Type 0} {a : A} → none ≡ some a → ⊥
waits h = cc

throws :
    (e : Failure)
    → let thrown : Option (Result Failure (Unit {0})) = some (err e) in thrown ≡ some (ok tt) → ⊥
throws e h = cc

-- How the loop may stand.
pub loop_cases :
    (outcome : Option (Result Failure (Unit {0})))
    → (outcome ≡ none) ⊎ ((outcome ≡ some (ok tt)) ⊎ ((e : Failure) × (outcome ≡ some (err e))))
loop_cases none = inl refl
loop_cases (some (ok _)) = inr (inl refl)
loop_cases (some (err e)) = inr (inr (e, refl))

not_both : true ≡ false → ⊥
not_both h = cc

module _ {D : Type 0} (d : Double D) where
  accept_loop_iff :
      (path : Bytes) (state : ExporterState D) (events : List (Event D))
      → ((accept_loop d path state events).2 ≡ some (ok tt)) ↔ Stops events
  unfolding accept_loop
  accept_loop_iff path state [] = (λ h. absurd cc, λ h. absurd h)
  accept_loop_iff path state (connection host received ∷ events) =
      accept_loop_iff path (handle_connection d host path received state).1 events
  accept_loop_iff path state (interrupted ∷ events) = accept_loop_iff path state events
  accept_loop_iff path state (stop_signal ∷ events) = (λ _. tt, λ _. refl)
  accept_loop_iff path state (accept_error ∷ events) = (λ h. cc, λ h. absurd h)

  serve_iff :
      (net : Network) (events : List (Event D)) (options : Options)
      → ((serve d net events options).status ≡ some 0)
        ↔ (((create_listener net options.listen_address options.port).0 ≡ ok tt) × Stops events)
  unfolding serve
  serve_iff net events options =
      let stops = accept_loop_iff options.metrics_file (initial_state d) events in
      elim (Result-cases (create_listener net options.listen_address options.port).0) [
        | inr (e, failed) ↦ rw (serve, failed) (λ h. absurd cc, λ h. absurd (clash h.0))
        | inl (_, listening) ↦
            elim (loop_cases (accept_loop d options.metrics_file (initial_state d) events).2) [
              | inl waiting ↦
                  rw (serve, listening, waiting)
                    (λ h. absurd cc, λ (_, held). absurd (waits (rw waiting at (stops.1 held))))
              | inr (inl stopped) ↦
                  rw (serve, listening, stopped) (λ _. (refl, stops.0 stopped), λ _. refl)
              | inr (inr (e, thrown)) ↦
                  rw (serve, listening, thrown)
                    (λ h. absurd cc, λ (_, held). absurd (throws e (rw thrown at (stops.1 held))))
            ]
      ]

  -- What a run needs to end well.
  abbrev pub EndsWell : Host D → Network → List (Event D) → Options → Type 0
  EndsWell host net events options =
      (is_missing options.metrics_file ≡ false)
      × (((options.once ≡ true)
            × ((text : Bytes) × (print_once d host options.metrics_file ≡ ok text)))
          ⊎ ((options.once ≡ false)
              × ((create_listener net options.listen_address options.port).0 ≡ ok tt)
              × Stops events))

  run_iff :
      (host : Host D) (net : Network) (events : List (Event D)) (options : Options)
      → ((run d host net events options).status ≡ some 0) ↔ EndsWell host net events options
  unfolding run serve
  run_iff host net events options = elim (Bool-cases (is_missing options.metrics_file)) [
    | inl missing ↦ rw (run, missing) (λ h. absurd cc, λ h. absurd (not_both h.0))
    | inr given ↦ elim (Bool-cases options.once) [
      | inl once ↦ elim (Result-cases (print_once d host options.metrics_file)) [
        | inl (text, printed) ↦
            rw (run, given, once, printed) (λ _. (refl, inl (refl, (text, refl))), λ _. refl)
        | inr (e, failed) ↦
            rw (run, given, once, failed)
              (
                λ h. absurd cc,
                λ h. elim h.1 [
                  | inl (_, (text, p)) ↦ absurd (clash p)
                  | inr (wrong, _, _) ↦ absurd (not_both wrong)
                ],
              )
      ]
      | inr serving ↦
          let served = serve_iff net events options in
          rw (run, given, serving)
            (
              λ h. (refl, let (listening, stops) = served.0 h in inr (refl, listening, stops)),
              λ h. served.1 (elim h.1 [
                | inl (wrong, _) ↦ absurd (not_both (sym wrong))
                | inr (_, listening, stops) ↦ (listening, stops)
              ]),
            )
    ]
  ]

  -- What a command line needs for the program to end well.
  abbrev pub MainEndsWell :
      Bool → Host D → Network → List (Event D) → Result Failure (Early ⊎ Options) → Type 0
  MainEndsWell self_test_passes host net events (err e) = ⊥
  MainEndsWell self_test_passes host net events (ok (inl help)) = Unit {0}
  MainEndsWell self_test_passes host net events (ok (inl self_test)) = self_test_passes ≡ true
  MainEndsWell self_test_passes host net events (ok (inr options)) =
      EndsWell host net events options

  self_test_iff :
      (passes : Bool) → ((exits (if passes then 0 else 2)).status ≡ some 0) ↔ (passes ≡ true)
  self_test_iff passes = ground arith

  -- The exporter exits with 0 exactly after the help, after a self test that passes, with `--once`
  -- when the metrics and their time can be read, and as a server when its socket listens, a signal to
  -- stop comes and no `accept` fails before it. A server that still waits has no exit status.
  pub exporter_status_iff :
      (strtoul : Bytes → Strtoul) (self_test_passes : Bool) (host : Host D) (net : Network)
      (events : List (Event D)) (arguments : List Bytes)
      → ((main d strtoul self_test_passes host net events arguments).status ≡ some 0)
        ↔ MainEndsWell self_test_passes host net events (parse_command_line strtoul arguments)
  unfolding main
  exporter_status_iff strtoul self_test_passes host net events arguments =
      elim (Result-cases (parse_command_line strtoul arguments)) [
        | inr (e, refused) ↦ rw (main, refused) (λ h. cc, λ h. absurd h)
        | inl (inl help, parsed) ↦ rw (main, parsed) (λ _. tt, λ _. refl)
        | inl (inl self_test, parsed) ↦ rw (main, parsed) (self_test_iff self_test_passes)
        | inl (inr options, parsed) ↦ rw (main, parsed) (run_iff host net events options)
      ]
