-- ===== src/Engine/Tensorrt/Progress.antt =====
-- The TensorRT engine where no call fails.
pub mod Inference
use market_data_ingress.Base.{
  ℕ, ◌+◌, ◌*◌, ◌/◌, ◌%◌, ◌^◌, ◌≤◌, ◌<◌, ◌≡◌, refl, Bool, true, false, not, ◌&&◌, ◌||◌, Bool-cases,
  Option, none, some, Option-cases, List, [], ◌∷◌, Bytes, ◌==◌, ltb, take, if◌then◌else◌, arith,
  inl, inr, ◌⊎◌,
}
use market_data_ingress.Base.Attempts.{
  Attempt, continue_with, ◌>>=◌, ◌>>◌, done, require, present, inspect, modify, returned, is_some,
}
use market_data_ingress.Engine.Tensorrt.Volume.{checked_volume, bytes_of}
use market_data_ingress.Engine.Tensorrt.Calls
use market_data_ingress.Engine.Tensorrt.Session.{
  Member, Session, assign, S, call, calls, issue, acquire, scoped, destroy_resources,
}
use market_data_ingress.Engine.Tensorrt.Loading.{
  is_empty, describe, name_tensor, name_tensors, inspect_tensors, acquire_resources,
  initialize_with, initialize_execution, load_bytes, load_serialized_engine, load_built,
  build_network, load_onnx, load, ends_with_onnx,
}

-- A platform on which every call answers.
abbrev pub Answering : {F D : Type 0} → Calls.Platform F D → Type 0
Answering platform =
    (c : Calls.Call) (world : platform.World) → (a : ℕ) × ((platform.perform c world).1 ≡ some a)

-- Every engine has two tensors, an input and an output of these names and sizes.
abbrev pub Serves : {F D : Type 0} → Calls.Platform F D → Bytes → Bytes → ℕ → ℕ → Type 0
Serves platform input output input_elements output_elements =
    (engine : ℕ)
    → (platform.io_names engine ≡ some input ∷ some output ∷ [])
      × (platform.io_mode engine input ≡ Calls.input)
      × (platform.io_mode engine output ≡ Calls.output)
      × (platform.is_float engine input ≡ true)
      × (platform.is_float engine output ≡ true)
      × (checked_volume (platform.shape engine input) ≡ some input_elements)
      × (checked_volume (platform.shape engine output) ≡ some output_elements)

module _ {F D : Type 0} (platform : Calls.Platform F D) where
  -- The file of the model can be read and is not empty.
  abbrev pub HasModel : Bytes → Type 0
  HasModel path =
      (world : platform.World)
      → (model : Bytes) × (platform.file path world ≡ some model) × (is_empty model ≡ false)

module _ {F D : Type 0} (platform : Calls.Platform F D) (input_elements output_elements : ℕ) where
  -- An engine whose members are all set but for the graph, with the sizes of its tensors.
  abbrev pub AllSet : S platform → Type 0
  AllSet s =
      ((context : ℕ) × (stream : ℕ) × (input_device : ℕ) × (output_device : ℕ) × (input_host : ℕ)
        × (output_host : ℕ) × (s.pointers Member.context ≡ some context)
        × (s.pointers Member.stream ≡ some stream)
        × (s.pointers Member.input_device ≡ some input_device)
        × (s.pointers Member.output_device ≡ some output_device)
        × (s.pointers Member.input_host ≡ some input_host)
        × (s.pointers Member.output_host ≡ some output_host))
      × (s.input_bytes ≡ bytes_of input_elements)
      × (s.output_bytes ≡ bytes_of output_elements)

module _ {F D : Type 0} (platform : Calls.Platform F D) (answering : Answering platform) where
  pub call-answers :
      (c : Calls.Call) (s : S platform)
      → (a : ℕ) × (world : platform.World) × (call platform c s
          ≡ (record s { world = world; log = (c, some a) ∷ s.log }, some a))
  unfolding call
  call-answers c s =
      let (a, answered) = answering c s.world in
      (a, (platform.perform c s.world).0, rw (call, answered) refl)

  -- The state once that member is set.
  abbrev holding : Member → Calls.Call → ℕ → platform.World → S platform → S platform
  holding m c a world s = record s {
    world = world;
    log = (c, some a) ∷ s.log;
    pointers = assign s.pointers m (some a);
  }

  acquire-answers :
      (m : Member) (c : Calls.Call) (s : S platform)
      → (a : ℕ) × (world : platform.World) × (acquire platform m c s
          ≡ (holding m c a world s, some a))
  unfolding acquire
  acquire-answers m c s = let (a, world, e) = call-answers c s in (a, world, rw (acquire, e) refl)

module _ {F D : Type 0} (platform : Calls.Platform F D) (answering : Answering platform)
    (input output : Bytes) (input_elements output_elements : ℕ)
    (serves : Serves platform input output input_elements output_elements)
    (named : is_empty input ≡ false) (output_named : is_empty output ≡ false) where
  abbrev Loaded : S platform → Type 0
  Loaded = AllSet platform input_elements output_elements

  abbrev Unnamed : S platform → Type 0
  Unnamed s = (s.input_name ≡ []) × (s.output_name ≡ [])

  -- The state once the tensors are found.
  abbrev inspected : S platform → S platform
  inspected s = record s {
    input_name = input;
    output_name = output;
    input_bytes = bytes_of input_elements;
    output_bytes = bytes_of output_elements;
  }

  name_tensor-input :
      (engine : ℕ) (s : S platform)
      → s.input_name ≡ []
      → name_tensor platform engine input s ≡ (record s { input_name = input }, some tt)
  unfolding name_tensor
  name_tensor-input engine s unnamed =
      let (_, mode, _, _, _, _, _) = serves engine in rw (name_tensor, mode, unnamed) refl

  name_tensor-output :
      (engine : ℕ) (s : S platform)
      → s.output_name ≡ []
      → name_tensor platform engine output s ≡ (record s { output_name = output }, some tt)
  unfolding name_tensor
  name_tensor-output engine s unnamed =
      let (_, _, mode, _, _, _, _) = serves engine in rw (name_tensor, mode, unnamed) refl

  inspect_tensors-serves :
      (engine : ℕ) (s : S platform)
      → Unnamed s
      → inspect_tensors platform engine s ≡ (inspected s, some tt)
  unfolding inspect_tensors name_tensors
  inspect_tensors-serves engine s (no_input, no_output) =
      let (names, _, _, input_float, output_float, volume, output_volume) = serves engine in
      let first = name_tensor-input engine s no_input in
      let second = name_tensor-output engine (record s { input_name = input }) no_output in
      let both : not (is_empty input || is_empty output) ≡ true = rw (named, output_named) refl in
      let floats : (platform.is_float engine input && platform.is_float engine output) ≡ true =
        rw (input_float, output_float) refl in
      rw (inspect_tensors, names)
        (rw first (rw second (rw both (rw floats (rw (volume, output_volume) (rw both refl))))))

  acquire_resources-answers :
      (engine : ℕ) (s : S platform)
      → s.input_bytes ≡ bytes_of input_elements
      → s.output_bytes ≡ bytes_of output_elements
      → (handles : ℕ × ℕ × ℕ) × (t : S platform) × (acquire_resources platform engine s
          ≡ (t, some handles))
        × Loaded t
  unfolding acquire_resources
  acquire_resources-answers engine s size output_size =
      let get = acquire-answers platform answering in
      let c0 = Calls.create_context engine in
      let c4 = Calls.allocate_device s.input_bytes in
      let c5 = Calls.allocate_device s.output_bytes in
      let c6 = Calls.allocate_host s.input_bytes in
      let c7 = Calls.allocate_host s.output_bytes in
      let (a0, w0, e0) = get Member.context c0 s in
      let s0 = holding platform answering Member.context c0 a0 w0 s in
      let (a1, w1, e1) = get Member.stream Calls.create_stream s0 in
      let s1 = holding platform answering Member.stream Calls.create_stream a1 w1 s0 in
      let (a2, w2, e2) = get Member.device_start Calls.create_event s1 in
      let s2 = holding platform answering Member.device_start Calls.create_event a2 w2 s1 in
      let (a3, w3, e3) = get Member.device_stop Calls.create_event s2 in
      let s3 = holding platform answering Member.device_stop Calls.create_event a3 w3 s2 in
      let (a4, w4, e4) = get Member.input_device c4 s3 in
      let s4 = holding platform answering Member.input_device c4 a4 w4 s3 in
      let (a5, w5, e5) = get Member.output_device c5 s4 in
      let s5 = holding platform answering Member.output_device c5 a5 w5 s4 in
      let (a6, w6, e6) = get Member.input_host c6 s5 in
      let s6 = holding platform answering Member.input_host c6 a6 w6 s5 in
      let (a7, w7, e7) = get Member.output_host c7 s6 in
      (
        (a0, a4, a5),
        holding platform answering Member.output_host c7 a7 w7 s6,
        rw (acquire_resources, e0) (rw e1 (rw e2 (rw e3 (rw e4 (rw e5 (rw e6 (rw e7 refl))))))),
        ((a0, a1, a4, a5, a6, a7, refl, refl, refl, refl, refl, refl), size, output_size),
      )

  -- The part behind the resources.
  bound-answers :
      (context from to : ℕ) (s : S platform)
      → Loaded s
      → (t : S platform) × ((do
        input_name ← inspect (λ (s : S platform). s.input_name)
        output_name ← inspect (λ (s : S platform). s.output_name)
        call platform (Calls.bind context input_name (some from))
        call platform (Calls.bind context output_name (some to))
        modify (λ (s : S platform). record s { metadata = describe platform s.world s.metadata }))
            s
          ≡ (t, some tt))
        × Loaded t
  bound-answers context from to s loaded =
      let (a1, w1, e1) =
        call-answers platform answering (Calls.bind context s.input_name (some from)) s in
      let t1 : S platform = record s {
        world = w1;
        log = (Calls.bind context s.input_name (some from), some a1) ∷ s.log;
      } in
      let (a2, w2, e2) =
        call-answers platform answering (Calls.bind context s.output_name (some to)) t1 in
      let t2 : S platform = record t1 {
        world = w2;
        log = (Calls.bind context s.output_name (some to), some a2) ∷ t1.log;
      } in
      (record t2 { metadata = describe platform w2 s.metadata }, rw e1 (rw e2 refl), loaded)

  initialize_execution-answers :
      (engine : ℕ) (s : S platform)
      → s.pointers Member.engine ≡ some engine
      → Unnamed s
      → (t : S platform) × (initialize_execution platform s ≡ (t, some tt)) × Loaded t
  unfolding initialize_execution initialize_with
  initialize_execution-answers engine s there unnamed =
      let found = inspect_tensors-serves engine s unnamed in
      let ((context, from, to), t, e, loaded) =
        acquire_resources-answers engine (inspected s) refl refl in
      let (u, e2, still) = bound-answers context from to t loaded in
      (
        u,
        rw (initialize_execution, ◌>>=◌, inspect, present, there)
            (rw (initialize_with, found) (rw e e2)),
        still,
      )

  -- A runtime, and an engine that it makes.
  started-answers :
      (c : ℕ → Calls.Call) (s : S platform)
      → Unnamed s
      → (t : S platform) × ((acquire platform Member.runtime Calls.create_runtime >>= λ runtime.
              acquire platform Member.engine (c runtime) >> initialize_execution platform)
            s
          ≡ (t, some tt))
        × Loaded t
  started-answers c s unnamed =
      let (a0, w0, e0) = acquire-answers platform answering Member.runtime Calls.create_runtime s in
      let s0 = holding platform answering Member.runtime Calls.create_runtime a0 w0 s in
      let (a1, w1, e1) = acquire-answers platform answering Member.engine (c a0) s0 in
      let s1 = holding platform answering Member.engine (c a0) a1 w1 s0 in
      let (t, e, loaded) = initialize_execution-answers a1 s1 refl unnamed in
      (t, rw e0 (rw e1 e), loaded)

  load_serialized_engine-answers :
      (path model : Bytes) (s : S platform)
      → Unnamed s
      → platform.file path s.world ≡ some model
      → is_empty model ≡ false
      → (t : S platform) × (load_serialized_engine platform path s ≡ (t, some tt)) × Loaded t
  unfolding load_serialized_engine load_bytes
  load_serialized_engine-answers path model s unnamed there something =
      let (t, e, loaded) = started-answers (λ runtime. Calls.deserialize runtime model) s unnamed in
      (
        t,
        rw (load_serialized_engine, ◌>>=◌, inspect, present, there) (rw (load_bytes, something) e),
        loaded,
      )

  -- What a scope gives when its resource is there and its body succeeds.
  scoped-answers :
      (kind : Calls.Kind) (c : Calls.Call) (body : ℕ → Attempt (S platform) (Unit {0}))
      (s : S platform)
      → Unnamed s
      → ((handle : ℕ) (t : S platform)
          → Unnamed t
          → (u : S platform) × (body handle t ≡ (u, some tt)) × Loaded u)
      → (t : S platform) × (scoped platform kind c body s ≡ (t, some tt)) × Loaded t
  unfolding scoped issue call
  scoped-answers kind c body s unnamed succeeds =
      let (a, w, e) = call-answers platform answering c s in
      let s0 : S platform = record s { world = w; log = (c, some a) ∷ s.log } in
      let (u, e1, loaded) = succeeds a s0 unnamed in
      (
        issue platform (Calls.destroy (record { kind = kind; handle = a })) u,
        rw (scoped, e) (rw e1 refl),
        loaded,
      )

  load_onnx-answers :
      (path : Bytes) (s : S platform)
      → Unnamed s
      → (t : S platform) × (load_onnx platform path s ≡ (t, some tt)) × Loaded t
  unfolding load_onnx build_network load_built issue call
  load_onnx-answers path s unnamed =
      scoped-answers Calls.Kind.builder Calls.create_builder _ s unnamed λ builder s0 n0.
        scoped-answers Calls.Kind.network (Calls.create_network builder) _ s0 n0 λ network s1 n1.
          scoped-answers Calls.Kind.parser (Calls.create_parser network) _ s1 n1 λ parser s2 n2.
            let (a, w, e) = call-answers platform answering (Calls.parse_file parser path) s2 in
            let s3 : S platform = record s2 {
              world = w;
              log = (Calls.parse_file parser path, some a) ∷ s2.log;
            } in
            let (t, built, loaded) =
              scoped-answers Calls.Kind.config (Calls.create_config builder) _ s3 n2 λ config s4 n4.
                scoped-answers Calls.Kind.serialized (Calls.build builder network config)
                  (load_built platform)
                  (issue platform (Calls.set_workspace config (256 * 1024 * 1024)) s4) n4
                  λ serialized s5 n5.
                    started-answers (λ runtime. Calls.deserialize_memory runtime serialized) s5
                      n5 in
            (t, rw e built, loaded)

  load_onnx_succeeds :
      (path : Bytes) (s : S platform)
      → ends_with_onnx path ≡ true
      → ((load platform path s).1 ≡ true) × Loaded (load platform path s).0
  unfolding load destroy_resources
  load_onnx_succeeds path s onnx =
      let (t, e, loaded) = load_onnx-answers path (destroy_resources platform s) (refl, refl) in
      (rw (load, onnx) (rw e refl), rw (load, onnx) (rw e loaded))

  pub load_succeeds :
      (path : Bytes) (s : S platform)
      → HasModel platform path
      → ((load platform path s).1 ≡ true) × Loaded (load platform path s).0
  unfolding load destroy_resources
  load_succeeds path s there = elim (Bool-cases (ends_with_onnx path)) [
    | inl onnx ↦ load_onnx_succeeds path s onnx
    | inr engine ↦
        let (model, file, something) = there (destroy_resources platform s).world in
        let (t, e, loaded) =
          load_serialized_engine-answers path model (destroy_resources platform s) (refl, refl) file
            something in
        (rw (load, engine) (rw e refl), rw (load, engine) (rw e loaded))
  ]
