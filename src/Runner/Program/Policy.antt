-- ===== src/Runner/Program/Policy.antt =====
-- Which engine src/main.cpp runs.
use market_data_ingress.Base.{
  true, false, not, Option, none, some, Option-cases, Bool-cases, ◌≡◌, ◌≢◌, ◌↔◌, ◌⊎◌, inl, inr,
  Bytes, sym, ap, ◌∙◌, ◌||◌, arith, Double, Float,
}
use market_data_ingress.Engine.{BackendHint, auto, tensorrt, mock, RunOptions, Engine}
use market_data_ingress.Engine.Factory.{Build, Backend, mock_backend, make_engine, is_mock}
use market_data_ingress.Runner.Options.{backend_name}
use market_data_ingress.Runner.Program.{
  resolve_backend, load_engine, use_mock_fallback, choose_engine, Chosen, engine_of, new_engine,
}

-- Without a forced mock the factory makes a mock exactly for the hint `Mock`.
make_engine_mock :
    (build : Build) (hint : BackendHint) (backend : Backend)
    → build.force_mock_backend ≡ false
    → make_engine build hint false ≡ some backend
    → (backend ≡ mock_backend) ↔ (hint ≡ mock)
unfolding make_engine
make_engine_mock build auto backend unforced made = (ground arith, ground arith)
make_engine_mock build tensorrt backend unforced made = (ground arith, ground arith)
make_engine_mock build mock backend unforced made = (ground arith, ground arith)

make_mock :
    (build : Build)
    → build.force_mock_backend ≡ false
    → make_engine build mock false ≡ some mock_backend
unfolding make_engine
make_mock build unforced = ground arith

is_mock-ne : (hint : BackendHint) → is_mock hint ≡ false → hint ≢ mock
is_mock-ne hint h = ground arith

module _ {F D : Type 0} (d : Double D) (f : Float F D) (tensorrt_engine : Engine F D)
    (new_tensorrt : tensorrt_engine.State) where
  abbrev backend_or : Backend → Option (Chosen d f tensorrt_engine new_tensorrt) → Backend
  backend_or backend none = backend
  backend_or backend (some chosen) = chosen.backend

  load_engine-backend :
      (model_path : Bytes) (backend : Backend) (chosen : Chosen d f tensorrt_engine new_tensorrt)
      → load_engine d f tensorrt_engine new_tensorrt model_path backend ≡ some chosen
      → chosen.backend ≡ backend
  unfolding load_engine
  load_engine-backend model_path backend chosen e =
      let load =
        (engine_of d f tensorrt_engine new_tensorrt backend).load model_path
          (new_engine d f tensorrt_engine new_tensorrt backend) in
      elim (Bool-cases load.1) [
        | inl succeeded ↦ sym (ap (backend_or backend) (rw (succeeded, load_engine) at e))
        | inr failed ↦ cc (rw (failed, load_engine) at e)
      ]

  use_mock_fallback_lem :
      (build : Build) (resolved : BackendHint) (given options : RunOptions D)
      (chosen : Chosen d f tensorrt_engine new_tensorrt)
      → build.force_mock_backend ≡ false
      → use_mock_fallback d f tensorrt_engine new_tensorrt build resolved given
        ≡ (options, some chosen)
      → (options.fallback_used ≡ true)
        × (given.allow_mock_fallback ≡ true)
        × (resolved ≢ mock)
        × (chosen.backend ≡ mock_backend)
  unfolding use_mock_fallback
  use_mock_fallback_lem build resolved given options chosen unforced e =
      elim (Bool-cases (not given.allow_mock_fallback || is_mock resolved)) [
        | inl refused ↦ cc (ap (λ r. r.1) (rw (refused, use_mock_fallback) at e))
        | inr allowed ↦
            let both = rw (allowed, make_mock build unforced, use_mock_fallback) at e in
            (
              ap (λ r. r.0.fallback_used) (sym both),
              ground arith,
              is_mock-ne resolved (ground arith),
              load_engine-backend given.model_path mock_backend chosen (ap (λ r. r.1) both),
            )
      ]

  -- The engine is the one asked for, or a mock that the user allowed in its place.
  abbrev pub AsRequested : RunOptions D → RunOptions D → Backend → Type 0
  AsRequested given options backend =
      ((options.fallback_used ≡ false)
        × ((backend ≡ mock_backend) ↔ (resolve_backend d given ≡ mock)))
      ⊎ ((options.fallback_used ≡ true)
          × (given.allow_mock_fallback ≡ true)
          × (resolve_backend d given ≢ mock)
          × (backend ≡ mock_backend))

  -- In a build that does not force the mock, and from options that record no fallback, the engine
  -- that is chosen is a mock exactly when a mock was asked for, or else the fallback is recorded,
  -- the user allowed it, and the backend asked for was not the mock.
  pub choose_engine_policy :
      (build : Build) (given options : RunOptions D)
      (chosen : Chosen d f tensorrt_engine new_tensorrt)
      → build.force_mock_backend ≡ false
      → given.fallback_used ≡ false
      → choose_engine d f tensorrt_engine new_tensorrt build given ≡ (options, some chosen)
      → AsRequested given options chosen.backend
  unfolding choose_engine
  choose_engine_policy build given options chosen unforced unused e =
      let resolved = resolve_backend d given in
      let renamed = record given { requested_backend = backend_name resolved } in
      elim (Option-cases (make_engine build resolved false)) [
        | inl unbuilt ↦ inr (
            use_mock_fallback_lem build resolved renamed options chosen unforced
              (rw (unbuilt, choose_engine) at e))
        | inr (backend, made) ↦
            elim (Option-cases
              (load_engine d f tensorrt_engine new_tensorrt given.model_path backend)) [
                | inl unloaded ↦ inr (
                    use_mock_fallback_lem build resolved renamed options chosen unforced
                      (rw (made, unloaded, choose_engine) at e))
                | inr (c, loaded) ↦
                    let both = rw (made, loaded, choose_engine) at e in
                    let same = load_engine-backend given.model_path backend c loaded in
                    let is = ap (λ r. backend_or backend r.1) both in
                    inl (
                      ap (λ r. r.0.fallback_used) (sym both) ∙ unused,
                      rw (← is, same) (make_engine_mock build resolved backend unforced made),
                    )
              ]
      ]
