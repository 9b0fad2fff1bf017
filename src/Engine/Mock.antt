-- ===== src/Engine/Mock.antt =====
-- src/engine_mock.cpp and include/marketdata_infer/mock_engine.h: the deterministic backend.
use market_data_ingress.Base.{
  ℕ, zero, suc, Bool, true, false, ◌||◌, Option, none, some, List, [], ◌∷◌, Bytes, ◌==◌, ltb,
  if◌then◌else◌, codes, Float,
}
use market_data_ingress.Engine.{Engine, Inference, RuntimeMetadata, no_metadata}

-- `input_elements_`
pub record MockState : Type 0 where
  pub input_elements : ℕ

abbrev pub initial : MockState
initial = record { input_elements = 512 }

unfoldable pub load : Bytes → MockState → MockState × Bool
load model_path state = (record { input_elements = 0 }, true)

unfoldable pub runtime_metadata : RuntimeMetadata
runtime_metadata = record no_metadata {
  backend_version = codes "deterministic-v1";
  device_name = codes "host-cpu";
}

abbrev is_null : {A : Type 0} → Option A → Bool
is_null none = true
is_null (some a) = false

abbrev pub buffer : {F : Type 0} → Option (List F) → List F
buffer none = []
buffer (some elements) = elements

module _ {F D : Type 0} (f : Float F D) where
  unfoldable pub transform : F → F
  transform x = f.add (f.mul x (f.literal 25 2)) (f.literal 333 3)

  -- The loop over the first elements of the input, into the front of the output.
  unfoldable pub fill : ℕ → List F → List F → List F
  fill zero input output = output
  fill (suc n) [] output = output
  fill (suc n) (x ∷ input) [] = []
  fill (suc n) (x ∷ input) (y ∷ output) = transform x ∷ fill n input output

  unfoldable pub infer_into :
      Option (List F) → ℕ → Option (List F) → ℕ → MockState → MockState × Inference F
  unfolding fill
  infer_into input input_elements output output_capacity state =
      if is_null input
        || is_null output
        || input_elements == 0
        || ltb output_capacity input_elements
      then (state, record { output = buffer output; output_elements = 0; succeeded = false })
      else (
        state,
        record {
          output = fill input_elements (buffer input) (buffer output);
          output_elements = input_elements;
          succeeded = true;
        },
      )

  -- The class, with the defaults of the interface for what it does not override.
  abbrev pub mock_engine : Engine F D
  mock_engine = record {
    State = MockState;
    load = load;
    infer_into = infer_into;
    input_elements_per_batch = λ state. state.input_elements;
    output_elements_per_batch = λ state. 0;
    backend_name = λ state. codes "mock-cpp-cpu";
    last_device_latency_us = λ state. none;
    enable_cuda_graph = λ state. (state, false);
    cuda_graph_enabled = λ state. false;
    runtime_metadata = λ state. runtime_metadata;
  }
