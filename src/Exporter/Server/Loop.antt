-- ===== src/Exporter/Server/Loop.antt =====
-- The counters over the whole accept loop of tools/metrics_exporter.cpp.
use market_data_ingress.Base.{
  ℕ, ◌+◌, ◌^◌, ◌≤◌, ◌<◌, ◌≡◌, List, [], ◌∷◌, Bytes, Option, length, Bool-cases, inl, inr, arith,
  Double, if◌then◌else◌,
}
use market_data_ingress.Exporter.Render.{ExporterState}
use market_data_ingress.Exporter.Scrape.{Host}
use market_data_ingress.Exporter.Scrape.Counters.{load_for_scrape_counts}
use market_data_ingress.Exporter.Http.{handle_connection}
use market_data_ingress.Exporter.Http.States.{is_scrape, handle_connection-state}
use market_data_ingress.Exporter.Server.{
  Event, connection, interrupted, stop_signal, accept_error, accept_loop,
}

module _ {D : Type 0} (d : Double D) (metrics_path : Bytes) where
  -- 1 for a scrape, and 0 for any other request.
  abbrev scrape_count : Option Bytes → ℕ
  scrape_count received = if is_scrape received then 1 else 0

  scrape_count-le : (received : Option Bytes) → scrape_count received ≤ 1
  scrape_count-le received = ground arith

  -- The scrapes among the events that the loop serves.
  abbrev pub scrapes_served : List (Event D) → ℕ
  scrapes_served [] = 0
  scrapes_served (connection host received ∷ events) = scrape_count received + scrapes_served events
  scrapes_served (interrupted ∷ events) = scrapes_served events
  scrapes_served (stop_signal ∷ events) = 0
  scrapes_served (accept_error ∷ events) = 0

  -- One connection counts a scrape if it is one, and at most one failure for it.
  handle_connection_counts :
      (host : Host D) (received : Option Bytes) (state : ExporterState D)
      → let after = (handle_connection d host metrics_path received state).1 in
        state.failures ≤ state.scrapes
        → state.scrapes + 1 < 2 ^ 64
        → (after.scrapes ≡ state.scrapes + scrape_count received)
          × (state.failures ≤ after.failures)
          × (after.failures ≤ state.failures + scrape_count received)
  handle_connection_counts host received state ordered room =
      let counts = load_for_scrape_counts d host metrics_path state in
      rw (handle_connection-state d host metrics_path state received)
        (elim (Bool-cases (is_scrape received)) [
          | inl scraped ↦ rw scraped (grind (arith, counts))
          | inr other ↦ rw other (omega arith)
        ])

  -- From a state whose failures do not exceed its scrapes, and as long as the counter of scrapes has
  -- room, the loop counts just the scrapes that it serves before it stops, and the failures do
  -- not decrease and still do not exceed the scrapes.
  pub accept_loop_counts :
      (events : List (Event D)) (state : ExporterState D)
      → state.failures ≤ state.scrapes
      → state.scrapes + length events < 2 ^ 64
      → let last = (accept_loop d metrics_path state events).1 in
        (last.scrapes ≡ state.scrapes + scrapes_served events)
        × (state.failures ≤ last.failures)
        × (last.failures ≤ last.scrapes)
  unfolding accept_loop
  accept_loop_counts [] state ordered room = (omega arith, omega arith, ordered)
  accept_loop_counts (interrupted ∷ events) state ordered room =
      accept_loop_counts events state ordered (omega arith)
  accept_loop_counts (stop_signal ∷ events) state ordered room = (omega arith, omega arith, ordered)
  accept_loop_counts (accept_error ∷ events) state ordered room =
      (omega arith, omega arith, ordered)
  accept_loop_counts (connection host received ∷ events) state ordered room =
      let after = (handle_connection d host metrics_path received state).1 in
      let one = handle_connection_counts host received state ordered (omega arith) in
      let (scrapes, grown, bounded) =
        accept_loop_counts events after (omega arith) (omega (arith, scrape_count-le received)) in
      (omega arith, omega arith, bounded)
