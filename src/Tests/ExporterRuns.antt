-- ===== src/Tests/ExporterRuns.antt =====
-- The theorems about tools/metrics_exporter.cpp at concrete documents, requests and events.
use market_data_ingress.Base.{
  ℕ, ◌+◌, ◌≤◌, ◌≡◌, ◌≢◌, refl, ◌↔◌, ◌⊎◌, true, false, Option, none, some, List, [], ◌∷◌, ◌++◌,
  Bytes, codes, length, map, ok, if◌then◌else◌, arith,
}
use market_data_ingress.Benchmark.Escape.{escape_json}
use market_data_ingress.Interop.ExporterStrings.{shown, string_at-escape_json}
use market_data_ingress.Interop.ExporterObjects.{Nested, done, text, object, char, object_at-Nested}
use market_data_ingress.Exporter.Scan.{
  position_of, find, find_value, find_value_from, quoted, value_after_key, string_at, object_at,
}
use market_data_ingress.Exporter.Scan.Keys.{Ended, find_value_fuel}
use market_data_ingress.Exporter.Scan.Fields.{IsField, find_value_sound}
use market_data_ingress.Exporter.Labels.{escape_label, read_label}
use market_data_ingress.Exporter.Labels.RoundTrip.{read_label-escape_label}
use market_data_ingress.Exporter.Snapshots.{Snapshot}
use market_data_ingress.Exporter.Render.{ExporterState}
use market_data_ingress.Exporter.Scrape.{Host, absent, contents, load_snapshot, load_for_scrape}
use market_data_ingress.Exporter.Http.{Response, parse_request, handle_connection}
use market_data_ingress.Exporter.Http.Requests.{IsRequestLine, request_line, parse_request_lem}
use market_data_ingress.Exporter.Http.States.{
  is_scrape, handle_connection-state, handle_connection_ready,
}
use market_data_ingress.Exporter.Server.{
  send_all, Network, create_listener, Event, connection, interrupted, stop_signal, accept_loop,
}
use market_data_ingress.Exporter.Server.Sockets.{
  send_all_prefix, send_all_complete, create_listener_lem, left_open,
}
use market_data_ingress.Exporter.Server.Loop.{scrapes_served, accept_loop_counts}
use market_data_ingress.Tests.Numbers.{natural}
use market_data_ingress.Tests.Documents.{document}

string_at-escape_json_example :
    string_at
      (codes "{\"model\":" ++ (b'"' ∷ (escape_json (codes "a\"\n") ++ (b'"' ∷ codes "}"))))
      (length (codes "{\"model\":"))
    ≡ ok (map shown (codes "a\"\n"))
string_at-escape_json_example =
    string_at-escape_json (codes "{\"model\":") (codes "a\"\n") (codes "}")

-- The text `"}":{}`, which has a brace in a string and an object in it.
abbrev tricky : Bytes
tricky = b'"' ∷ (escape_json (codes "}") ++ (b'"' ∷ b':' ∷ b'{' ∷ b'}' ∷ []))

tricky-Nested : Nested tricky
tricky-Nested = text (codes "}") (char b':' refl refl refl (object done done))

object_at-Nested_example :
    object_at (codes "[" ++ (b'{' ∷ (tricky ++ (b'}' ∷ codes "]")))) (length (codes "["))
    ≡ ok (b'{' ∷ (tricky ++ (b'}' ∷ [])))
object_at-Nested_example = object_at-Nested (codes "[") (codes "]") tricky-Nested

read_label-escape_label_example :
    read_label (escape_label (codes "a\\b\"\n") ++ (b'"' ∷ codes "} 1"))
    ≡ some (codes "a\\b\"\n", codes "} 1")
read_label-escape_label_example = read_label-escape_label (codes "a\\b\"\n") (codes "} 1")

find_value_fuel_example :
    Ended (find_value_from 20 (codes "{\"a\":1}") (quoted (codes "a")) 0)
    × (position_of (find_value_from 20 (codes "{\"a\":1}") (quoted (codes "a")) 0)
        ≡ find_value (codes "{\"a\":1}") (codes "a"))
find_value_fuel_example = find_value_fuel 20 (codes "{\"a\":1}") (codes "a") (omega arith)

find_value_sound_example : IsField (codes "{\"a\": 1}") (codes "a") 6
unfolding find_value value_after_key market_data_ingress.Json.skip_space
find_value_sound_example = find_value_sound (codes "{\"a\": 1}") (codes "a") 6 refl

-- A machine that has the document at one path, and another that has nothing.
abbrev full_host : Host ℕ
full_host = record { file = λ path. contents document; modified = λ path. some 7000; now = 9000 }

abbrev empty_host : Host ℕ
empty_host = record { file = λ path. absent; modified = λ path. none; now = 9000 }

abbrev state : ExporterState ℕ
state = record { scrapes = 4; failures = 1; last_success_timestamp = 3000 }

abbrev path : Bytes
path = codes "m.json"

get_metrics-IsRequestLine :
    IsRequestLine (codes "GET") (codes "/metrics") (some (codes "x=1")) (codes "HTTP/1.1")
get_metrics-IsRequestLine = record {
  method_space = (refl, (refl, (refl, tt)));
  method_return = (refl, (refl, (refl, tt)));
  path_space = (refl, (refl, (refl, (refl, (refl, (refl, (refl, (refl, tt))))))));
  path_return = (refl, (refl, (refl, (refl, (refl, (refl, (refl, (refl, tt))))))));
  path_query = (refl, (refl, (refl, (refl, (refl, (refl, (refl, (refl, tt))))))));
  query_space = (refl, (refl, (refl, tt)));
  query_return = (refl, (refl, (refl, tt)));
  version_return = (refl, (refl, (refl, (refl, (refl, (refl, (refl, (refl, tt))))))));
}

abbrev get_metrics : Bytes
get_metrics =
    request_line (codes "GET") (codes "/metrics") (some (codes "x=1")) (codes "HTTP/1.1")
    ++ (b'\r' ∷ b'\n' ∷ codes "Host: a\r\n\r\n")

parse_request_lem_example : parse_request get_metrics ≡ some (codes "GET", codes "/metrics")
parse_request_lem_example =
    parse_request_lem (codes "GET") (codes "/metrics") (some (codes "x=1")) (codes "HTTP/1.1")
      (codes "Host: a\r\n\r\n") get_metrics-IsRequestLine (omega arith)

handle_connection-state_example :
    (handle_connection natural empty_host path (some get_metrics) state).1 ≡ (
      if is_scrape (some get_metrics)
      then (load_for_scrape natural empty_host path state).1
      else state)
handle_connection-state_example =
    handle_connection-state natural empty_host path state (some get_metrics)

abbrev get_ready : Bytes
get_ready = codes "GET /readyz HTTP/1.1\r\n\r\n"

get_ready-parsed : parse_request get_ready ≡ some (codes "GET", codes "/readyz")
unfolding parse_request market_data_ingress.Exporter.Http.request_target find
    market_data_ingress.Exporter.Http.before
get_ready-parsed = refl

handle_connection_ready_example :
    (response : Response) × (handle_connection natural full_host path (some get_ready) state
      ≡ (some response, state))
    × ((response.status ≡ 200)
        ↔ ((found : Snapshot ℕ) × (load_snapshot natural full_host path ≡ ok found)))
handle_connection_ready_example =
    handle_connection_ready natural full_host path state b'G' (codes "ET /readyz HTTP/1.1\r\n\r\n")
      get_ready-parsed

abbrev events : List (Event ℕ)
events =
    connection empty_host (some get_metrics)
    ∷ interrupted
    ∷ connection full_host (some get_ready)
    ∷ stop_signal
    ∷ []

accept_loop_counts_example :
    let last = (accept_loop natural path state events).1 in
    (last.scrapes ≡ 4 + scrapes_served natural path events)
    × (1 ≤ last.failures)
    × (last.failures ≤ last.scrapes)
accept_loop_counts_example =
    accept_loop_counts natural path events state (omega arith) (omega arith)

-- A kernel that takes three bytes at a time.
abbrev by_three : ℕ → Option ℕ
by_three sent = some 2

send_all_prefix_example :
    (left : Bytes) × (send_all by_three (codes "HTTP/1.1") ++ left ≡ codes "HTTP/1.1")
send_all_prefix_example = send_all_prefix by_three (codes "HTTP/1.1")

send_all_complete_example : send_all by_three (codes "HTTP/1.1") ≡ codes "HTTP/1.1"
send_all_complete_example = send_all_complete by_three (codes "HTTP/1.1") (λ n below. cc)

abbrev busy_port : Network
busy_port = record {
  can_open = true;
  can_reuse = true;
  is_ipv4 = λ address. true;
  can_bind = false;
  can_listen = true;
}

create_listener_lem_example :
    let (outcome, calls) = create_listener busy_port (codes "localhost") 9108 in
    ((outcome ≢ ok tt) × (left_open 0 calls ≡ 0)) ⊎ ((outcome ≡ ok tt) × (left_open 0 calls ≡ 1))
create_listener_lem_example = create_listener_lem busy_port (codes "localhost") 9108
