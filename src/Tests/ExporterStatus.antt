-- ===== src/Tests/ExporterStatus.antt =====
-- The exit status of tools/metrics_exporter.cpp at a command line and a host.
use market_data_ingress.Base.{All, ℕ, ◌≡◌, ◌↔◌, true, false, some, List, [], ◌∷◌, Bytes, codes}
use market_data_ingress.Exporter.Scrape.{Host, contents}
use market_data_ingress.Exporter.Server.{
  Strtoul, parse_command_line, Network, Event, interrupted, stop_signal,
}
use market_data_ingress.Exporter.Program.{main}
use market_data_ingress.Exporter.Program.Ports.{BindsInRange, main_binds}
use market_data_ingress.Exporter.Program.Status.{MainEndsWell, exporter_status_iff}
use market_data_ingress.Tests.Numbers.{natural}
use market_data_ingress.Tests.Documents.{document}

abbrev strtoul : Bytes → Strtoul
strtoul word = record { number = 9108; parsed = 4; out_of_range = false }

abbrev host : Host ℕ
host = record { file = λ path. contents document; modified = λ path. some 1000; now = 2000 }

abbrev net : Network
net = record {
  can_open = true;
  can_reuse = true;
  is_ipv4 = λ address. true;
  can_bind = true;
  can_listen = true;
}

abbrev events : List (Event ℕ)
events = interrupted ∷ stop_signal ∷ []

abbrev arguments : List Bytes
arguments = codes "--metrics-file" ∷ codes "m.json" ∷ codes "--port" ∷ codes "9108" ∷ []

exporter_status_iff_example :
    ((main natural strtoul true host net events arguments).status ≡ some 0)
    ↔ MainEndsWell natural true host net events (parse_command_line strtoul arguments)
exporter_status_iff_example = exporter_status_iff natural strtoul true host net events arguments

main_binds_example : All BindsInRange (main natural strtoul true host net events arguments).sockets
main_binds_example = main_binds natural strtoul true host net events arguments
