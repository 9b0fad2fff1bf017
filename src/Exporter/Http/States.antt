-- ===== src/Exporter/Http/States.antt =====
-- Which requests change the exporter's state, and what `/readyz` answers.
use market_data_ingress.Base.{
  ℕ, Bool, false, ◌&&◌, ◌≡◌, refl, ◌↔◌, Option, none, some, [], ◌∷◌, Bytes, codes, equal, equal_iff,
  Bool-cases, Option-cases, Result-cases, inl, inr, if◌then◌else◌, ok, Double, arith,
}
use market_data_ingress.Exporter.Render.{ExporterState}
use market_data_ingress.Exporter.Scrape.{Host, load_snapshot, load_for_scrape, snapshot_is_ready}
use market_data_ingress.Exporter.Scrape.Counters.{snapshot_is_ready_iff}
use market_data_ingress.Exporter.Snapshots.{Snapshot}
use market_data_ingress.Exporter.Http.{Response, parse_request, route, readiness, handle_connection}

-- A request that parses as `GET /metrics`.
abbrev is_scrape_of : Option (Bytes × Bytes) → Bool
is_scrape_of none = false
is_scrape_of (some (method, path)) = equal method (codes "GET") && equal path (codes "/metrics")

abbrev pub is_scrape : Option Bytes → Bool
is_scrape none = false
is_scrape (some []) = false
is_scrape (some (c ∷ request)) = is_scrape_of (parse_request (c ∷ request))

module _ {D : Type 0} (d : Double D) (host : Host D) (metrics_path : Bytes)
    (state : ExporterState D) where
  route-state :
      (path : Bytes)
      → (route d host metrics_path path state).1 ≡ (
          if equal path (codes "/metrics")
          then (load_for_scrape d host metrics_path state).1
          else state)
  unfolding route
  route-state path = elim (Bool-cases (equal path (codes "/metrics"))) [
    | inl scraped ↦
        let e = (equal_iff path (codes "/metrics")).0 scraped in rw e (unfold route equal in refl)
    | inr other ↦ rw other (elim (Bool-cases (equal path (codes "/healthz"))) [
      | inl health ↦ rw (health, route)
      | inr sick ↦ elim (Bool-cases (equal path (codes "/readyz"))) [
        | inl ready ↦ rw (sick, ready, route)
        | inr unknown ↦ rw (sick, unknown, route)
      ]
    ])
  ]

  -- After a connection the state is that of one scrape if the request is `GET /metrics`, and is as
  -- before otherwise.
  pub handle_connection-state :
      (received : Option Bytes)
      → (handle_connection d host metrics_path received state).1
        ≡ (if is_scrape received then (load_for_scrape d host metrics_path state).1 else state)
  unfolding handle_connection
  handle_connection-state none = refl
  handle_connection-state (some []) = refl
  handle_connection-state (some (c ∷ request)) = elim (Option-cases (parse_request (c ∷ request))) [
    | inl malformed ↦ rw (malformed, handle_connection)
    | inr ((method, path), parsed) ↦
        rw (parsed, handle_connection)
          (elim (Bool-cases (equal method (codes "GET"))) [
            | inl get ↦ rw get (route-state path)
            | inr other ↦ rw other
          ])
  ]

  -- A request that parses as `GET /readyz` is answered, with 200 exactly when the snapshot loads, and
  -- leaves the state alone.
  pub handle_connection_ready :
      (c : ℕ) (request : Bytes)
      → parse_request (c ∷ request) ≡ some (codes "GET", codes "/readyz")
      → (response : Response) × (handle_connection d host metrics_path (some (c ∷ request)) state
          ≡ (some response, state))
        × ((response.status ≡ 200)
            ↔ ((snapshot : Snapshot D) × (load_snapshot d host metrics_path ≡ ok snapshot)))
  unfolding handle_connection readiness
  handle_connection_ready c request parsed = (
    readiness d host metrics_path,
    rw (parsed, handle_connection) (unfold route equal in refl),
    elim (Result-cases (snapshot_is_ready d host metrics_path)) [
      | inl (u, ready) ↦
          (λ _. (snapshot_is_ready_iff d host metrics_path).0 ready, λ _. rw (ready, readiness))
      | inr (e, failed) ↦ (
        λ status. absurd (omega (arith, rw (failed, readiness) at status)),
        λ loaded. cc ((snapshot_is_ready_iff d host metrics_path).1 loaded),
      )
    ],
  )
