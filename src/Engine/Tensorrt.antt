-- ===== src/Engine/Tensorrt.antt =====
-- src/engine_tensorrt.cpp and include/marketdata_infer/tensorrt_engine.h.
pub mod Volume
pub mod Calls
pub mod Session
pub mod Loading
pub mod Inference
pub mod Lifetime
pub mod Progress
