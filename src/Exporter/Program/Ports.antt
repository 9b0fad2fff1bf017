-- ===== src/Exporter/Program/Ports.antt =====
-- The ports that tools/metrics_exporter.cpp listens on.
use market_data_ingress.Base.{
  ℕ, ◌≡◌, ◌≤◌, sym, Bool, Bool-cases, List, [], ◌∷◌, Bytes, ok, inl, inr, arith, equal, codes,
  bind-eq-ok, All, All-append, Result-cases, Double,
}
use market_data_ingress.Cli.Keeps.{Keeps, parse_arguments_keeps}
use market_data_ingress.Exporter.Scrape.{Host}
use market_data_ingress.Exporter.Server.{
  Strtoul, Options, defaults, parse_port, classify, parse_command_line, needs_value, unknown_option,
  help, self_test, SocketCall, opened, closed, bound, listening, Network, create_listener, Event,
  accept_loop, initial_state, print_once,
}
use market_data_ingress.Exporter.Program.Status.{loop_cases}
use market_data_ingress.Exporter.Program.{is_missing, serve, run, main}

abbrev InRange : ℕ → Type 0
InRange port = (1 ≤ port) × (port ≤ 65535)

-- A socket that is bound is bound to a port that is not 0 and fits in 16 bits.
abbrev pub BindsInRange : SocketCall → Type 0
BindsInRange opened = Unit {0}
BindsInRange closed = Unit {0}
BindsInRange (bound address port) = InRange port
BindsInRange listening = Unit {0}

module _ (strtoul : Bytes → Strtoul) where
  parse_port-InRange : (text : Bytes) (port : ℕ) → parse_port strtoul text ≡ ok port → InRange port
  unfolding parse_port
  parse_port-InRange text port h = ground arith

  abbrev PortInRange : Options → Type 0
  PortInRange options = InRange options.port

  classify-Keeps : (argument : Bytes) → Keeps PortInRange (classify strtoul argument)
  unfolding classify
  classify-Keeps argument = elim (Bool-cases (equal argument (codes "--help"))) [
    | inl asked ↦ rw (classify, asked) tt
    | inr n1 ↦ elim (Bool-cases (equal argument (codes "--self-test"))) [
      | inl test ↦ rw (classify, n1, test) tt
      | inr n2 ↦ elim (Bool-cases (equal argument (codes "--metrics-file"))) [
        | inl file ↦
            rw (classify, n1, n2, file)
              (λ text options assigned holds h.
                let same : record options { metrics_file = text } ≡ assigned = cc in
                rw (sym same) holds)
        | inr n3 ↦ elim (Bool-cases (equal argument (codes "--listen-address"))) [
          | inl address ↦
              rw (classify, n1, n2, n3, address)
                (λ text options assigned holds h.
                  let same : record options { listen_address = text } ≡ assigned = cc in
                  rw (sym same) holds)
          | inr n4 ↦ elim (Bool-cases (equal argument (codes "--port"))) [
            | inl port ↦
                rw (classify, n1, n2, n3, n4, port)
                  (λ text options assigned holds h.
                    let (n, parsed, set) = bind-eq-ok (parse_port strtoul text) _ h in
                    let same : record options { port = n } ≡ assigned = cc set in
                    rw (sym same) (parse_port-InRange text n parsed))
            | inr n5 ↦ elim (Bool-cases (equal argument (codes "--once"))) [
              | inl once ↦ rw (classify, n1, n2, n3, n4, n5, once) (λ options holds. holds)
              | inr other ↦ rw (classify, n1, n2, n3, n4, n5, other) tt
            ]
          ]
        ]
      ]
    ]
  ]

  parse_command_line-InRange :
      (arguments : List Bytes) (options : Options)
      → parse_command_line strtoul arguments ≡ ok (inr options)
      → PortInRange options
  unfolding parse_command_line
  parse_command_line-InRange arguments options h =
      parse_arguments_keeps (classify strtoul) needs_value unknown_option PortInRange classify-Keeps
        arguments defaults options (omega arith, omega arith) h

create_listener-InRange :
    (net : Network) (address : Bytes) (port : ℕ)
    → InRange port
    → All BindsInRange (create_listener net address port).1
unfolding create_listener
create_listener-InRange net address port holds = ground arith

module _ {D : Type 0} (d : Double D) where
  serve-InRange :
      (net : Network) (events : List (Event D)) (options : Options)
      → InRange options.port
      → All BindsInRange (serve d net events options).sockets
  unfolding serve
  serve-InRange net events options holds =
      let calls = create_listener-InRange net options.listen_address options.port holds in
      elim (Result-cases (create_listener net options.listen_address options.port).0) [
        | inr (e, failed) ↦ rw (serve, failed) calls
        | inl (_, good) ↦
            elim (loop_cases (accept_loop d options.metrics_file (initial_state d) events).2) [
              | inl waiting ↦ rw (serve, good, waiting) calls
              | inr (inl stopped) ↦
                  rw (serve, good, stopped)
                    (All-append BindsInRange
                      (create_listener net options.listen_address options.port).1 (closed ∷ [])
                      calls (tt, tt))
              | inr (inr (e, thrown)) ↦ rw (serve, good, thrown) calls
            ]
      ]

  run-InRange :
      (host : Host D) (net : Network) (events : List (Event D)) (options : Options)
      → InRange options.port
      → All BindsInRange (run d host net events options).sockets
  unfolding run serve
  run-InRange host net events options holds = elim (Bool-cases (is_missing options.metrics_file)) [
    | inl missing ↦ rw (run, missing) tt
    | inr given ↦ elim (Bool-cases options.once) [
      | inr serving ↦ rw (run, given, serving) (serve-InRange net events options holds)
      | inl once ↦ elim (Result-cases (print_once d host options.metrics_file)) [
        | inl (text, printed) ↦ rw (run, given, once, printed) tt
        | inr (e, failed) ↦ rw (run, given, once, failed) tt
      ]
    ]
  ]

  -- Whatever the command line, the exporter binds no socket but to a port from 1 to 65535.
  pub main_binds :
      (strtoul : Bytes → Strtoul) (self_test_passes : Bool) (host : Host D) (net : Network)
      (events : List (Event D)) (arguments : List Bytes)
      → All BindsInRange (main d strtoul self_test_passes host net events arguments).sockets
  unfolding main
  main_binds strtoul self_test_passes host net events arguments =
      elim (Result-cases (parse_command_line strtoul arguments)) [
        | inr (e, refused) ↦ rw (main, refused) tt
        | inl (inl help, parsed) ↦ rw (main, parsed) tt
        | inl (inl self_test, parsed) ↦ rw (main, parsed) tt
        | inl (inr options, parsed) ↦
            rw (main, parsed)
              (run-InRange host net events options
                (parse_command_line-InRange strtoul arguments options parsed))
      ]
