-- ===== src/Engine/Tensorrt/Loading/Sources.antt =====
-- The account of resources over `load`.
use market_data_ingress.Base.{
  ℕ, ◌+◌, ◌*◌, ◌≡◌, refl, Option, some, List, ◌∷◌, Bytes, Bool-cases, inl, inr, arith,
}
use market_data_ingress.Base.Attempts.{◌>>=◌, ◌>>◌, present, modify}
use market_data_ingress.Engine.Tensorrt.Calls
use market_data_ingress.Engine.Tensorrt.Session.{
  Member, Pointers, destruction_order, S, call, issue, acquire, scoped, destroy_resources,
}
use market_data_ingress.Engine.Tensorrt.Session.Balance.{
  Weight, closed_by, Owes, Empty, destroy_resources-Owes, destroy_resources-Empty,
}
use market_data_ingress.Engine.Tensorrt.Session.Steps.{
  Ends, Ends-bind, Ends-early, Ends-returned, present-Ends, Ready, call-Ready, acquire-Ready,
  scoped-Owes,
}
use market_data_ingress.Engine.Tensorrt.Loading.{
  is_empty, initialize_execution, load_serialized_engine, build_network, load_bytes, load_built,
  load_onnx, load, ends_with_onnx,
}
use market_data_ingress.Engine.Tensorrt.Loading.Ownership.{from_context, initialize_execution-Owes}

-- The members that `load` sets, in its order.
abbrev from_engine : List Member
from_engine = Member.engine ∷ from_context

abbrev pub from_runtime : List Member
from_runtime = Member.runtime ∷ from_engine

in_order : (p : Pointers) → Empty destruction_order p → Empty from_runtime p
in_order p
      (
        start,
        (
          stop,
          (
            graph,
            (
              stream,
              (
                input_host,
                (output_host, (input_device, (output_device, (context, (engine, (runtime, _)))))),
              ),
            ),
          ),
        ),
      ) =
    (
      runtime,
      (
        engine,
        (
          context,
          (
            stream,
            (start, (stop, (input_device, (output_device, (input_host, (output_host, tt)))))),
          ),
        ),
      ),
    )

module _ {F D : Type 0} (platform : Calls.Platform F D) (w : Weight) where
  abbrev Kept : ℕ → S platform × Option (Unit {0}) → Type 0
  Kept extra = Ends (Owes platform w extra) (λ _. Owes platform w extra)

  initialized-Owes :
      (extra : ℕ) (c : Calls.Call) (s : S platform)
      → Calls.yields c ≡ some Calls.Kind.engine
      → closed_by w c ≡ 0
      → Ready platform w extra from_engine s
      → Kept extra ((acquire platform Member.engine c >> initialize_execution platform) s)
  initialized-Owes extra c s yields closes ready =
      Ends-bind (Owes platform w extra) (λ _. Ready platform w extra from_context)
        (λ _. Owes platform w extra) (acquire platform Member.engine c s)
        (λ _. initialize_execution platform)
        (acquire-Ready platform w Member.engine c extra from_context s yields closes refl ready)
        (λ _. initialize_execution-Owes platform w extra)

  -- A runtime, and an engine that it makes.
  started-Owes :
      (extra : ℕ) (c : ℕ → Calls.Call) (s : S platform)
      → ((runtime : ℕ) → Calls.yields (c runtime) ≡ some Calls.Kind.engine)
      → ((runtime : ℕ) → closed_by w (c runtime) ≡ 0)
      → Ready platform w extra from_runtime s
      → Kept extra (
          (acquire platform Member.runtime Calls.create_runtime >>= λ runtime.
          acquire platform Member.engine (c runtime) >> initialize_execution platform)
            s)
  unfolding Calls.yields
  started-Owes extra c s yields closes ready =
      Ends-bind (Owes platform w extra) (λ _. Ready platform w extra from_engine)
        (λ _. Owes platform w extra) (acquire platform Member.runtime Calls.create_runtime s)
        (λ runtime. acquire platform Member.engine (c runtime) >> initialize_execution platform)
        (acquire-Ready platform w Member.runtime Calls.create_runtime extra from_engine s refl refl
          refl ready)
        (λ runtime t. initialized-Owes extra (c runtime) t (yields runtime) (closes runtime))

  load_built-Owes :
      (extra serialized : ℕ) (s : S platform)
      → Ready platform w extra from_runtime s
      → Kept extra (load_built platform serialized s)
  unfolding load_built Calls.yields
  load_built-Owes extra serialized s =
      started-Owes extra (λ runtime. Calls.deserialize_memory runtime serialized) s (λ _. refl)
        (λ _. refl)

  load_bytes-Owes :
      (extra : ℕ) (model : Bytes) (s : S platform)
      → Ready platform w extra from_runtime s
      → Kept extra (load_bytes platform model s)
  unfolding load_bytes Calls.yields
  load_bytes-Owes extra model s ready = elim (Bool-cases (is_empty model)) [
    | inl nothing ↦ rw (load_bytes, nothing) ready.0
    | inr something ↦
        rw (load_bytes, something)
          (started-Owes extra (λ runtime. Calls.deserialize runtime model) s (λ _. refl) (λ _. refl)
            ready)
  ]

  load_serialized_engine-Owes :
      (extra : ℕ) (path : Bytes) (s : S platform)
      → Ready platform w extra from_runtime s
      → Kept extra (load_serialized_engine platform path s)
  unfolding load_serialized_engine
  load_serialized_engine-Owes extra path s ready =
      Ends-bind (Owes platform w extra) (λ _. Ready platform w extra from_runtime)
        (λ _. Owes platform w extra) (present (platform.file path s.world) s) (load_bytes platform)
        (Ends-early (Ready platform w extra from_runtime) (Owes platform w extra)
          (λ _. Ready platform w extra from_runtime) (present (platform.file path s.world) s)
          (present-Ends (Ready platform w extra from_runtime) (platform.file path s.world) s ready)
          (λ t p. p.0))
        (λ model t. load_bytes-Owes extra model t)

  limited :
      (extra config bytes : ℕ) (s : S platform)
      → Ready platform w extra from_runtime s
      → Ready platform w extra from_runtime (issue platform (Calls.set_workspace config bytes) s)
  unfolding Calls.yields issue call
  limited extra config bytes s ((owes, sound), empty) = ((omega arith, (omega arith, sound)), empty)

  -- The workspace limit, and the build.
  built-Owes :
      (extra builder network config : ℕ) (s : S platform)
      → Ready platform w extra from_runtime s
      → Kept extra (
          (modify (issue platform (Calls.set_workspace config (256 * 1024 * 1024)))
              >> scoped platform Calls.Kind.serialized
                  (Calls.build builder network config)
                  (load_built platform))
            s)
  unfolding Calls.yields issue call
  built-Owes extra builder network config s ready =
      scoped-Owes platform w Calls.Kind.serialized (Calls.build builder network config)
        (load_built platform) extra from_runtime
        (issue platform (Calls.set_workspace config (256 * 1024 * 1024)) s) refl refl
        (λ serialized t. load_built-Owes (extra + w Calls.Kind.serialized serialized) serialized t)
        (limited extra config (256 * 1024 * 1024) s ready)

  build_network-Owes :
      (extra builder network : ℕ) (s : S platform)
      → Ready platform w extra from_runtime s
      → Kept extra (build_network platform builder network s)
  unfolding build_network Calls.yields
  build_network-Owes extra builder network s =
      scoped-Owes platform w Calls.Kind.config (Calls.create_config builder) _ extra from_runtime s
        refl refl
        (λ config t. built-Owes (extra + w Calls.Kind.config config) builder network config t)

  parsed-Owes :
      (extra builder network parser : ℕ) (path : Bytes) (s : S platform)
      → Ready platform w extra from_runtime s
      → Kept extra (
          (call platform (Calls.parse_file parser path) >> build_network platform builder network)
            s)
  unfolding Calls.yields
  parsed-Owes extra builder network parser path s ready =
      Ends-bind (Owes platform w extra) (λ _. Ready platform w extra from_runtime)
        (λ _. Owes platform w extra) (call platform (Calls.parse_file parser path) s)
        (λ _. build_network platform builder network)
        (Ends-early (Ready platform w extra from_runtime) (Owes platform w extra)
          (λ _. Ready platform w extra from_runtime)
          (call platform (Calls.parse_file parser path) s)
          (call-Ready platform w (Calls.parse_file parser path) extra from_runtime s refl refl
            ready)
          (λ t p. p.0))
        (λ _ t. build_network-Owes extra builder network t)

  load_onnx-Owes :
      (extra : ℕ) (path : Bytes) (s : S platform)
      → Ready platform w extra from_runtime s
      → Kept extra (load_onnx platform path s)
  unfolding load_onnx Calls.yields
  load_onnx-Owes extra path s =
      scoped-Owes platform w Calls.Kind.builder Calls.create_builder _ extra from_runtime s refl
        refl
        λ builder t.
          scoped-Owes platform w Calls.Kind.network (Calls.create_network builder) _ _ from_runtime
            t refl refl
            λ network u.
              scoped-Owes platform w Calls.Kind.parser (Calls.create_parser network) _ _
                from_runtime u refl refl λ parser v. parsed-Owes _ builder network parser path v

  pub load-Owes :
      (extra : ℕ) (path : Bytes) (s : S platform)
      → Owes platform w extra s
      → Owes platform w extra (load platform path s).0
  unfolding load
  load-Owes extra path s owes =
      let cleared = destroy_resources platform s in
      let empty = destroy_resources-Empty platform w s in
      let ready : Ready platform w extra from_runtime cleared =
        (destroy_resources-Owes platform w extra s owes, in_order cleared.pointers empty) in
      elim (Bool-cases (ends_with_onnx path)) [
        | inl onnx ↦
            rw (load, onnx)
              (Ends-returned (Owes platform w extra) (load_onnx platform path cleared)
                (load_onnx-Owes extra path cleared ready))
        | inr engine ↦
            rw (load, engine)
              (Ends-returned (Owes platform w extra) (load_serialized_engine platform path cleared)
                (load_serialized_engine-Owes extra path cleared ready))
      ]
