-- ===== src/Exporter/Server.antt =====
-- tools/metrics_exporter.cpp: `send_all`, the listener, the command line, `main` and its loop.
pub mod Loop
pub mod Sockets
use market_data_ingress.Base.{
  ℕ, zero, suc, ◌+◌, Bool, true, false, not, ◌||◌, Option, none, some, List, [], ◌∷◌, ◌++◌, Bytes,
  ◌==◌, if◌then◌else◌, ltb, equal, codes, length, take, drop, Result, ok, err, ◌>>=◌, ◌⊎◌, Double,
}
use market_data_ingress.Cli.{Action, stop, flag, value, unknown, parse_arguments}
use market_data_ingress.Exporter.Scan.{Error}
use market_data_ingress.Exporter.Render.{ExporterState, render_exporter_state, render_snapshot}
use market_data_ingress.Exporter.Scrape.{Host, load_snapshot, file_timestamp}
use market_data_ingress.Exporter.Http.{Response, handle_connection}

-- The loop of `send_all` on fuel. `send sent` is what the kernel answers once `sent` bytes are out:
-- none for an error or zero, and otherwise one less than the bytes it took. Those bytes go on the wire.
unfoldable pub send_from : ℕ → (ℕ → Option ℕ) → Bytes → ℕ → Bytes
send_from zero send response sent = []
send_from (suc fuel) send response sent = elim (send sent) [
  | none ↦ []
  | some result ↦
      let chunk = take (suc result) (drop sent response) in
      let rest = send_from fuel send response (sent + suc result) in
      if ltb sent (length response) then chunk ++ rest else []
]

unfoldable pub send_all : (ℕ → Option ℕ) → Bytes → Bytes
unfolding send_from
send_all send response = send_from (length response) send response 0

-- What `strtoul` reports, as `Strtod` does for `strtod`.
pub record Strtoul : Type 0 where
  pub number : ℕ
  pub parsed : ℕ
  pub out_of_range : Bool

-- What the exporter throws beside the errors of a document.
pub data Failure : Type 0 where
  bad_document : Error → Failure
  needs_value unknown_option : Bytes → Failure
  bad_port : Failure
  no_metrics_file : Failure
  no_socket bad_socket_option bad_address cannot_bind cannot_listen : Failure
  accept_failed : Failure

unfoldable pub parse_port : (Bytes → Strtoul) → Bytes → Result Failure ℕ
parse_port strtoul text =
    let read = strtoul text in
    if read.out_of_range
      || not (read.parsed == length text)
      || read.number == 0
      || ltb 65535 read.number
    then err bad_port
    else ok read.number

pub record Options : Type 0 where
  pub metrics_file : Bytes
  pub listen_address : Bytes
  pub port : ℕ
  pub once : Bool

abbrev pub defaults : Options
defaults = record { metrics_file = []; listen_address = codes "0.0.0.0"; port = 9108; once = false }

-- How the command line may end the program.
pub data Early : Type 0 where
  help self_test : Early

unfoldable pub classify : (Bytes → Strtoul) → Bytes → Action Failure Options Early
unfolding parse_port
classify strtoul argument =
    if equal argument (codes "--help")
    then stop help
    else if equal argument (codes "--self-test")
    then stop self_test
    else if equal argument (codes "--metrics-file")
    then value (λ text options. ok (record options { metrics_file = text }))
    else if equal argument (codes "--listen-address")
    then value (λ text options. ok (record options { listen_address = text }))
    else if equal argument (codes "--port")
    then value
        (λ text options. parse_port strtoul text >>= λ port. ok (record options { port = port }))
    else if equal argument (codes "--once")
    then flag (λ options. record options { once = true })
    else unknown

unfoldable pub parse_command_line :
    (Bytes → Strtoul) → List Bytes → Result Failure (Early ⊎ Options)
unfolding parse_arguments classify
parse_command_line strtoul = parse_arguments (classify strtoul) needs_value unknown_option defaults

-- The socket calls that `create_listener` makes, and those that it relies on to succeed.
pub data SocketCall : Type 0 where
  opened closed : SocketCall
  bound : Bytes → ℕ → SocketCall
  listening : SocketCall

pub record Network : Type 0 where
  pub can_open : Bool
  pub can_reuse : Bool
  pub is_ipv4 : Bytes → Bool
  pub can_bind : Bool
  pub can_listen : Bool

-- The outcome, and the calls in order.
unfoldable pub create_listener : Network → Bytes → ℕ → Result Failure (Unit {0}) × List SocketCall
create_listener net address port =
    let numeric_address =
      if equal address (codes "localhost") then codes "127.0.0.1" else address in
    if not net.can_open
    then (err no_socket, [])
    else if not net.can_reuse
    then (err bad_socket_option, opened ∷ closed ∷ [])
    else if not (net.is_ipv4 numeric_address)
    then (err bad_address, opened ∷ closed ∷ [])
    else if not net.can_bind
    then (err cannot_bind, opened ∷ closed ∷ [])
    else if not net.can_listen
    then (err cannot_listen, opened ∷ bound numeric_address port ∷ closed ∷ [])
    else (ok tt, opened ∷ bound numeric_address port ∷ listening ∷ [])

-- What wakes the loop of `main`: a client and what it sends, an interrupted `accept`, a signal to
-- stop, or another error of `accept`.
pub data Event (D : Type 0) : Type 0 where
  connection : Host D → Option Bytes → Event D
  interrupted : Event D
  stop_signal : Event D
  accept_error : Event D

module _ {D : Type 0} (d : Double D) where
  -- The answers in order, the state at the end, and how the loop ended: after a stop signal no client
  -- is served, since its socket is closed and the loop's test fails, and a failed `accept` throws. Where
  -- the events are used up without either the loop has not ended (none): it waits in `accept`.
  unfoldable pub accept_loop :
      Bytes
      → ExporterState D
      → List (Event D)
      → List (Option Response) × ExporterState D × Option (Result Failure (Unit {0}))
  accept_loop metrics_path state [] = ([], state, none)
  accept_loop metrics_path state (connection host received ∷ events) =
      let (response, after) = handle_connection d host metrics_path received state in
      let (responses, last, outcome) = accept_loop metrics_path after events in
      (response ∷ responses, last, outcome)
  accept_loop metrics_path state (interrupted ∷ events) = accept_loop metrics_path state events
  accept_loop metrics_path state (stop_signal ∷ events) = ([], state, some (ok tt))
  accept_loop metrics_path state (accept_error ∷ events) = ([], state, some (err accept_failed))

  abbrev pub initial_state : ExporterState D
  initial_state = record { scrapes = 0; failures = 0; last_success_timestamp = d.literal 0 0 }

  -- `--once`: the text on standard output.
  unfoldable pub print_once : Host D → Bytes → Result Error Bytes
  print_once host path = do
    let state = record initial_state { scrapes = 1; last_success_timestamp = host.now }
    snapshot ← load_snapshot d host path
    timestamp ← file_timestamp d host path
    ok (render_exporter_state d state true ++ render_snapshot d snapshot timestamp)
