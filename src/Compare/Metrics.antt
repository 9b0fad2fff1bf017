-- ===== src/Compare/Metrics.antt =====
-- tools/metrics_compare.cpp: `RunMetrics`, its parser, and the comparison of two contexts.
pub mod Contexts
use market_data_ingress.Base.{
  ℕ, ◌-◌, ◌^◌, Bool, true, false, not, ◌||◌, List, [], ◌∷◌, ◌++◌, Bytes, ◌==◌, if◌then◌else◌, equal,
  codes, Result, ok, ◌>>=◌, ◌>>◌, throw_if, Double,
}
use market_data_ingress.Compare.Reader.{
  Error, null_scope, expected_unsigned, root_object, object_at, required, is_null, string_at,
  bool_at, number_at,
}

pub record RunMetrics (D : Type 0) : Type 0 where
  pub latency_us : D
  pub backend : Bytes
  pub device : Bytes
  pub input_size : ℕ
  pub batch_size : ℕ
  pub cuda_graph : Bool

-- `==` of two `bool`s.
unfoldable pub same_flag : Bool → Bool → Bool
same_flag true b = b
same_flag false b = not b

-- `emplace_back` under an `if`.
unfoldable pub note_if : Bool → Bytes → List Bytes → List Bytes
note_if differs field rest = if differs then field ∷ rest else rest

unfoldable pub context_differences : {D : Type 0} → RunMetrics D → RunMetrics D → List Bytes
unfolding note_if same_flag
context_differences baseline candidate =
    note_if (not (equal baseline.backend candidate.backend)) (codes "backend") (
      note_if (not (equal baseline.device candidate.device)) (codes "device") (
        note_if (not (baseline.input_size == candidate.input_size)) (codes "input_size") (
          note_if (not (baseline.batch_size == candidate.batch_size)) (codes "batch_size") (
            note_if (not (same_flag baseline.cuda_graph candidate.cuda_graph)) (codes "cuda_graph")
              []))))

-- The values with commas between them.
unfoldable pub join : List Bytes → Bytes
join [] = []
join (value ∷ []) = value
join (value ∷ next ∷ rest) = value ++ (b',' ∷ join (next ∷ rest))

abbrev pub scope_key : Bytes → Bytes
scope_key scope = if equal scope (codes "e2e") then codes "end_to_end" else codes "device_compute"

module _ {D : Type 0} (d : Double D) where
  unfoldable pub exact_unsigned : Bytes → ℕ → Bytes → Result Error ℕ
  exact_unsigned text position field = do
    value ← number_at d text position
    throw_if
        (d.lt value (d.literal 0 0)
          || d.lt (d.of_ℕ (2 ^ 64 - 1)) value
          || not (d.eq (d.floor value) value))
        (expected_unsigned field)
    ok (d.to_ℕ value)

  unfoldable pub parse_metrics : Bytes → Bytes → Bytes → Result Error (RunMetrics D)
  parse_metrics document scope metric = do
    root ← root_object document
    latency_value ← required document root (codes "latency_us")
    latency ← object_at document latency_value
    scope_value ← required document latency (scope_key scope)
    throw_if (is_null document scope_value) (null_scope (scope_key scope))
    distribution ← object_at document scope_value
    environment_value ← required document root (codes "environment")
    environment ← object_at document environment_value
    metric_value ← required document distribution metric
    latency_us ← number_at d document metric_value
    backend_value ← required document root (codes "backend")
    backend ← string_at document backend_value
    device_value ← required document environment (codes "device")
    device ← string_at document device_value
    input_value ← required document root (codes "input_size")
    input_size ← exact_unsigned document input_value (codes "input_size")
    batch_value ← required document root (codes "batch_size")
    batch_size ← exact_unsigned document batch_value (codes "batch_size")
    graph_value ← required document root (codes "cuda_graph")
    cuda_graph ← bool_at document graph_value
    ok (record {
      latency_us = latency_us;
      backend = backend;
      device = device;
      input_size = input_size;
      batch_size = batch_size;
      cuda_graph = cuda_graph;
    })
