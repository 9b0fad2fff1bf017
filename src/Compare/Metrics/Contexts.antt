-- ===== src/Compare/Metrics/Contexts.antt =====
-- When two runs of tools/metrics_compare.cpp are comparable.
use market_data_ingress.Base.{Bool, true, ◌≡◌, ◌↔◌, [], equal_iff, arith}
use market_data_ingress.Compare.Metrics.{RunMetrics, same_flag, context_differences}

same_flag_iff : (a b : Bool) → (same_flag a b ≡ true) ↔ (a ≡ b)
unfolding same_flag
same_flag_iff a b = ground arith

-- Two runs have one context: backend, device, shape and graph mode.
pub record SameContext {D : Type 0} (a b : RunMetrics D) : Type 0 where
  pub same_backend : a.backend ≡ b.backend
  pub same_device : a.device ≡ b.device
  pub same_input : a.input_size ≡ b.input_size
  pub same_batch : a.batch_size ≡ b.batch_size
  pub same_graph : a.cuda_graph ≡ b.cuda_graph

-- No difference is listed exactly when the two contexts are the same.
pub context_differences_iff :
    {D : Type 0} (a b : RunMetrics D) → (context_differences a b ≡ []) ↔ SameContext a b
unfolding context_differences
context_differences_iff a b = (
  ground (
    arith,
    equal_iff a.backend b.backend,
    equal_iff a.device b.device,
    same_flag_iff a.cuda_graph b.cuda_graph,
  ),
  λ s. ground (
    arith,
    equal_iff a.backend b.backend,
    equal_iff a.device b.device,
    same_flag_iff a.cuda_graph b.cuda_graph,
  ),
)
