-- ===== src/Exporter/Scrape.antt =====
-- tools/metrics_exporter.cpp: reading the metrics file, a scrape, and the readiness test.
pub mod Counters
use market_data_ingress.Base.{
  ℕ, ◌+◌, ◌%◌, ◌^◌, true, false, ◌++◌, Bytes, codes, Result, ok, err, ◌>>=◌, Option, Double,
  or_throw,
}
use market_data_ingress.Exporter.Scan.{
  Error, missing_field, expected_string, unterminated_string, incomplete_escape, incomplete_unicode,
  invalid_escape, expected_object, unterminated_object, expected_number, expected_boolean,
  expected_unsigned, unsupported_schema, cannot_open, cannot_read, no_timestamp,
}
use market_data_ingress.Exporter.Snapshots.{Snapshot, parse_snapshot}
use market_data_ingress.Exporter.Render.{ExporterState, render_exporter_state, render_snapshot}

-- What opening and reading a file gives.
pub data FileRead : Type 0 where
  absent broken : FileRead
  contents : Bytes → FileRead

-- What the operating system answers while one request is served: files, their modification times
-- (none where the query throws), and the clock.
pub record Host (D : Type 0) : Type 0 where
  pub file : Bytes → FileRead
  pub modified : Bytes → Option D
  pub now : D

-- The text of an exception. That of the file system's own is not the program's.
unfoldable pub what : Error → Bytes
what (missing_field key) = codes "missing JSON field: " ++ key
what expected_string = codes "expected a JSON string"
what unterminated_string = codes "unterminated JSON string"
what incomplete_escape = codes "incomplete JSON escape sequence"
what incomplete_unicode = codes "incomplete JSON unicode escape"
what invalid_escape = codes "invalid JSON escape sequence"
what expected_object = codes "expected a JSON object"
what unterminated_object = codes "unterminated JSON object"
what expected_number = codes "expected a finite JSON number"
what expected_boolean = codes "expected a JSON boolean"
what (expected_unsigned key) = codes "field must be an unsigned integer: " ++ key
what unsupported_schema = codes "unsupported metrics schema version"
what (cannot_open path) = codes "cannot open metrics file: " ++ path
what (cannot_read path) = codes "cannot read metrics file: " ++ path
what (no_timestamp text) = text

-- `++counter` of a `uint64_t`
abbrev pub increment : ℕ → ℕ
increment n = (n + 1) % 2 ^ 64

module _ {D : Type 0} (d : Double D) where
  unfoldable pub read_file : Host D → Bytes → Result Error Bytes
  read_file host path = elim (host.file path) [
    | absent ↦ err (cannot_open path)
    | broken ↦ err (cannot_read path)
    | contents text ↦ ok text
  ]

  unfoldable pub file_timestamp : Host D → Bytes → Result Error D
  file_timestamp host path = or_throw (host.modified path) (no_timestamp path)

  -- `parse_snapshot(read_file(path))`
  unfoldable pub load_snapshot : Host D → Bytes → Result Error (Snapshot D)
  load_snapshot host path = do text ← read_file host path; parse_snapshot d text

  -- The `catch` of `load_for_scrape`.
  unfoldable pub scrape_failed : ExporterState D → Bytes × ExporterState D
  scrape_failed state =
      let failed = record state { failures = increment state.failures } in
      (render_exporter_state d failed false, failed)

  -- The body that a scrape answers, and the state after it. The time of the last success is set as
  -- soon as the snapshot is parsed, before the file's own time is asked for.
  unfoldable pub load_for_scrape : Host D → Bytes → ExporterState D → Bytes × ExporterState D
  unfolding scrape_failed
  load_for_scrape host path state =
      let counted = record state { scrapes = increment state.scrapes } in
      elim (load_snapshot host path) [
        | err e ↦ scrape_failed counted
        | ok snapshot ↦
            let loaded = record counted { last_success_timestamp = host.now } in
            elim (file_timestamp host path) [
              | err e ↦ scrape_failed loaded
              | ok timestamp ↦ (
                render_exporter_state d loaded true ++ render_snapshot d snapshot timestamp,
                loaded,
              )
            ]
      ]

  -- The error text, or success.
  unfoldable pub snapshot_is_ready : Host D → Bytes → Result Bytes (Unit {0})
  snapshot_is_ready host path = elim (load_snapshot host path) [
    | err e ↦ err (what e)
    | ok snapshot ↦ ok tt
  ]
