-- ===== src/Exporter/Program.antt =====
-- tools/metrics_exporter.cpp, `main`.
pub mod Status
pub mod Ports
use market_data_ingress.Base.{
  ℕ, Bool, true, false, Option, none, some, List, [], ◌∷◌, ◌++◌, Bytes, if◌then◌else◌, Result, ok,
  err, ◌⊎◌, inl, inr, Double,
}
use market_data_ingress.Exporter.Scrape.{Host}
use market_data_ingress.Exporter.Http.{Response}
use market_data_ingress.Exporter.Server.{
  Strtoul, Options, Early, help, self_test, parse_command_line, SocketCall, closed, Network,
  create_listener, Event, accept_loop, initial_state, print_once,
}

-- What `main` leaves: its exit status (none as long as the server waits for a client), its standard output but for the usage and the self test, the
-- calls on the listening socket, and the answers to the clients.
pub record Outcome : Type 0 where
  pub status : Option ℕ
  pub printed : Option Bytes
  pub sockets : List SocketCall
  pub responses : List (Option Response)

abbrev pub exits : ℕ → Outcome
exits status = record { status = some status; printed = none; sockets = []; responses = [] }

abbrev pub is_missing : Bytes → Bool
is_missing [] = true
is_missing (c ∷ path) = false

module _ {D : Type 0} (d : Double D) where
  -- The server. Its socket is closed once, by the signal handler or behind the loop, unless the loop
  -- throws.
  unfoldable pub serve : Network → List (Event D) → Options → Outcome
  serve net events options =
      let (listening, calls) = create_listener net options.listen_address options.port in
      let (responses, last, outcome) =
        accept_loop d options.metrics_file (initial_state d) events in
      elim listening [
        | err e ↦ record { status = some 2; printed = none; sockets = calls; responses = [] }
        | ok _ ↦ elim outcome [
          | none ↦ record { status = none; printed = none; sockets = calls; responses = responses }
          | some (err e) ↦ record {
            status = some 2;
            printed = none;
            sockets = calls;
            responses = responses;
          }
          | some (ok _) ↦ record {
            status = some 0;
            printed = none;
            sockets = calls ++ (closed ∷ []);
            responses = responses;
          }
        ]
      ]

  unfoldable pub run : Host D → Network → List (Event D) → Options → Outcome
  run host net events options =
      if is_missing options.metrics_file
      then exits 2
      else if options.once
      then (elim (print_once d host options.metrics_file) [
        | err e ↦ exits 2
        | ok text ↦ record { status = some 0; printed = some text; sockets = []; responses = [] }
      ])
      else serve net events options

  -- `self_test_passes` tells whether `self_test` returns.
  unfoldable pub main :
      (Bytes → Strtoul) → Bool → Host D → Network → List (Event D) → List Bytes → Outcome
  main strtoul self_test_passes host net events arguments =
      elim (parse_command_line strtoul arguments) [
        | err e ↦ exits 2
        | ok (inl help) ↦ exits 0
        | ok (inl self_test) ↦ exits (if self_test_passes then 0 else 2)
        | ok (inr options) ↦ run host net events options
      ]
