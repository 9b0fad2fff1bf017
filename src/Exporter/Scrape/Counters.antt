-- ===== src/Exporter/Scrape/Counters.antt =====
-- What a scrape of tools/metrics_exporter.cpp does to the counters, on every path.
use market_data_ingress.Base.{◌≡◌, refl, Bytes, ok, Result-cases, inl, inr, ◌⊎◌, ◌↔◌, Double}
use market_data_ingress.Exporter.Render.{ExporterState}
use market_data_ingress.Exporter.Scrape.{
  Host, load_snapshot, load_for_scrape, file_timestamp, scrape_failed, snapshot_is_ready, increment,
}
use market_data_ingress.Exporter.Snapshots.{Snapshot}

module _ {D : Type 0} (d : Double D) where
  -- A scrape counts one attempt, and one failure or none.
  pub load_for_scrape_counts :
      (host : Host D) (path : Bytes) (state : ExporterState D)
      → let after = (load_for_scrape d host path state).1 in
        (after.scrapes ≡ increment state.scrapes)
        × ((after.failures ≡ state.failures) ⊎ (after.failures ≡ increment state.failures))
  unfolding load_for_scrape scrape_failed
  load_for_scrape_counts host path state = elim (Result-cases (load_snapshot d host path)) [
    | inr (e, failed) ↦ rw (failed, load_for_scrape) (refl, inr refl)
    | inl (snapshot, loaded) ↦ elim (Result-cases (file_timestamp d host path)) [
      | inr (e, failed) ↦ rw (loaded, load_for_scrape) (rw failed (refl, inr refl))
      | inl (timestamp, modified) ↦ rw (loaded, load_for_scrape) (rw modified (refl, inl refl))
    ]
  ]

  -- The readiness test passes exactly when the snapshot loads.
  pub snapshot_is_ready_iff :
      (host : Host D) (path : Bytes)
      → (snapshot_is_ready d host path ≡ ok tt)
        ↔ ((snapshot : Snapshot D) × (load_snapshot d host path ≡ ok snapshot))
  unfolding snapshot_is_ready
  snapshot_is_ready_iff host path = elim (Result-cases (load_snapshot d host path)) [
    | inl (snapshot, loaded) ↦ (λ _. (snapshot, loaded), λ _. rw (loaded, snapshot_is_ready))
    | inr (e, failed) ↦
        (λ ready. cc (rw (failed, snapshot_is_ready) at ready), λ (snapshot, loaded). cc loaded)
  ]
