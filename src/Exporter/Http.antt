-- ===== src/Exporter/Http.antt =====
-- tools/metrics_exporter.cpp: one HTTP connection.
pub mod Requests
pub mod States
use market_data_ingress.Base.{
  ℕ, ◌+◌, ◌-◌, not, Option, none, some, [], ◌∷◌, ◌++◌, Bytes, if◌then◌else◌, equal, codes, decimal,
  length, take, ok, err, Double,
}
use market_data_ingress.Exporter.Scan.{find, substr}
use market_data_ingress.Exporter.Render.{ExporterState}
use market_data_ingress.Exporter.Scrape.{Host, load_for_scrape, snapshot_is_ready}

pub record Response : Type 0 where
  pub status : ℕ
  pub reason : Bytes
  pub content_type : Bytes
  pub body : Bytes

abbrev pub plain_text : Bytes
plain_text = codes "text/plain; charset=utf-8"

abbrev pub exposition : Bytes
exposition = codes "text/plain; version=0.0.4; charset=utf-8"

abbrev respond : ℕ → Bytes → Bytes → Bytes → Response
respond status reason content_type body = record {
  status = status;
  reason = reason;
  content_type = content_type;
  body = body;
}

-- What `send_response` hands to `send_all`.
unfoldable pub response_text : Response → Bytes
response_text response =
    codes "HTTP/1.1 "
    ++ (decimal response.status
        ++ (codes " "
            ++ (response.reason
                ++ (codes "\r\nContent-Type: "
                    ++ (response.content_type
                        ++ (codes "\r\nContent-Length: "
                            ++ (decimal (length response.body)
                                ++ (codes "\r\nCache-Control: no-store\r\nConnection: close\r\n\r\n"
                                    ++ response.body))))))))

-- The part of a text before the first place where the needle stands, or all of it.
unfoldable pub before : Bytes → Bytes → Bytes
before text needle = elim (find text needle 0) [ none ↦ text | some end ↦ take end text ]

-- The method and the target of a request line, which two spaces mark off.
unfoldable pub request_target : Bytes → Option (Bytes × Bytes)
unfolding substr
request_target line = elim (find line (b' ' ∷ []) 0) [
  | none ↦ none
  | some first_space ↦ elim (find line (b' ' ∷ []) (first_space + 1)) [
    | none ↦ none
    | some second_space ↦
        some (take first_space line, substr line (first_space + 1) (second_space - first_space - 1))
  ]
]

-- The request that stands in the buffer, of 8191 bytes at most: its method, and its path without
-- the query.
unfoldable pub parse_request : Bytes → Option (Bytes × Bytes)
parse_request received =
    let line = before (take 8191 received) (b'\r' ∷ b'\n' ∷ []) in
    elim (request_target line) [
      | none ↦ none
      | some (method, target) ↦ some (method, before target (b'?' ∷ []))
    ]

module _ {D : Type 0} (d : Double D) where
  -- The answer to `/readyz`.
  unfoldable pub readiness : Host D → Bytes → Response
  readiness host metrics_path = elim (snapshot_is_ready d host metrics_path) [
    | ok _ ↦ respond 200 (codes "OK") plain_text (codes "ready\n")
    | err error ↦
        respond 503 (codes "Service Unavailable") plain_text
          (codes "not ready: " ++ (error ++ codes "\n"))
  ]

  unfoldable pub route : Host D → Bytes → Bytes → ExporterState D → Response × ExporterState D
  route host metrics_path path state =
      let (scraped, after) = load_for_scrape d host metrics_path state in
      if equal path (codes "/healthz")
      then (respond 200 (codes "OK") plain_text (codes "ok\n"), state)
      else if equal path (codes "/readyz")
      then (readiness host metrics_path, state)
      else if equal path (codes "/metrics")
      then (respond 200 (codes "OK") exposition scraped, after)
      else (respond 404 (codes "Not Found") plain_text (codes "not found\n"), state)

  -- The answer, if any, and the state after the connection. `received` is what `recv` gave: none
  -- for an error.
  unfoldable pub handle_connection :
      Host D → Bytes → Option Bytes → ExporterState D → Option Response × ExporterState D
  handle_connection host metrics_path none state = (none, state)
  handle_connection host metrics_path (some []) state = (none, state)
  handle_connection host metrics_path (some (c ∷ request)) state =
      elim (parse_request (c ∷ request)) [
        | none ↦
            (some (respond 400 (codes "Bad Request") plain_text (codes "bad request\n")), state)
        | some (method, path) ↦
            let (response, after) = route host metrics_path path state in
            if not (equal method (codes "GET"))
            then (
              some (
                  respond 405 (codes "Method Not Allowed") plain_text
                    (codes "method not allowed\n")),
              state,
            )
            else (some response, after)
      ]
