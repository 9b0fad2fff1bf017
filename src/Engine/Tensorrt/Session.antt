-- ===== src/Engine/Tensorrt/Session.antt =====
-- The members of `TensorRTInferenceEngine`, the calls it makes, and `destroyResources`.
pub mod Balance
pub mod Steps
use market_data_ingress.Base.{ℕ, ◌==◌, if◌then◌else◌, Option, none, some, List, [], ◌∷◌, Bytes}
use market_data_ingress.Base.Attempts.{Attempt, continue_with, ◌>>=◌, ◌>>◌, done, present, modify}
use market_data_ingress.Engine.{RuntimeMetadata, no_metadata}
use market_data_ingress.Engine.Tensorrt.Calls

-- The members that are pointers or handles.
pub data Member : Type 0 where
  runtime engine context stream device_start device_stop : Member
  input_device output_device input_host output_host graph_execution : Member

abbrev pub index : Member → ℕ
index runtime = 0
index engine = 1
index context = 2
index stream = 3
index device_start = 4
index device_stop = 5
index input_device = 6
index output_device = 7
index input_host = 8
index output_host = 9
index graph_execution = 10

abbrev pub kind_of : Member → Calls.Kind
kind_of runtime = Calls.Kind.runtime
kind_of engine = Calls.Kind.engine
kind_of context = Calls.Kind.context
kind_of stream = Calls.Kind.stream
kind_of device_start = Calls.Kind.event
kind_of device_stop = Calls.Kind.event
kind_of input_device = Calls.Kind.device_memory
kind_of output_device = Calls.Kind.device_memory
kind_of input_host = Calls.Kind.host_memory
kind_of output_host = Calls.Kind.host_memory
kind_of graph_execution = Calls.Kind.graph_exec

-- The values of those members; none for a null pointer.
abbrev pub Pointers : Type 0
Pointers = Member → Option ℕ

abbrev pub assign : Pointers → Member → Option ℕ → Pointers
assign pointers m value n = if index m == index n then value else pointers n

abbrev pub no_pointers : Pointers
no_pointers m = none

pub record Session (D World : Type 0) : Type 0 where
  pub pointers : Pointers
  pub input_bytes : ℕ
  pub output_bytes : ℕ
  pub input_name : Bytes
  pub output_name : Bytes
  pub last_device_latency_us : Option D
  pub metadata : RuntimeMetadata
  pub world : World
  -- The calls made so far, the latest first, and what each one answered.
  pub log : List (Calls.Call × Option ℕ)

-- A new object.
abbrev pub created : {D World : Type 0} → World → Session D World
created world = record {
  pointers = no_pointers;
  input_bytes = 0;
  output_bytes = 0;
  input_name = [];
  output_name = [];
  last_device_latency_us = none;
  metadata = no_metadata;
  world = world;
  log = [];
}

-- The order in which `destroyResources` gives the members back.
abbrev pub destruction_order : List Member
destruction_order =
    device_start ∷ device_stop ∷ graph_execution ∷ stream ∷ input_host ∷ output_host ∷ input_device
    ∷ output_device ∷ context ∷ engine ∷ runtime ∷ []

module _ {F D : Type 0} (platform : Calls.Platform F D) where
  open platform use {World, perform}

  abbrev pub S : Type 0
  S = Session D World

  -- A call that may fail: the method goes on only if it answers.
  unfoldable pub call : Calls.Call → Attempt S ℕ
  call c s =
      let (world, answer) = perform c s.world in
      (record s { world = world; log = (c, answer) ∷ s.log }, answer)

  -- Calls that are made in turn, as long as each one succeeds.
  unfoldable pub calls : List Calls.Call → Attempt S (Unit {0})
  unfolding call
  calls [] = done tt
  calls (c ∷ cs) = call c >> calls cs

  -- A call whose answer is not looked at.
  unfoldable pub issue : Calls.Call → S → S
  unfolding call
  issue c s = (call c s).0

  -- `member = f(…)`, and an early return if that is null.
  unfoldable pub acquire : Member → Calls.Call → Attempt S ℕ
  acquire m c = do
    pointer ← call c
    modify (λ (s : S). record s { pointers = assign s.pointers m (some pointer) })
    done pointer

  -- `if (member) { destroy(member); member = nullptr; }`
  unfoldable pub release : Member → S → S
  release m s = elim (s.pointers m) [
    | none ↦ s
    | some handle ↦
        issue (Calls.destroy (record { kind = kind_of m; handle = handle }))
          (record s { pointers = assign s.pointers m none })
  ]

  unfoldable pub release_all : List Member → S → S
  unfolding release
  release_all [] s = s
  release_all (m ∷ members) s = release_all members (release m s)

  -- A `unique_ptr` in a scope: destroyed on every way out of it.
  abbrev pub closing : {A : Type 0} → Calls.Resource → S × Option A → S × Option A
  closing resource (s, result) = (issue (Calls.destroy resource) s, result)

  unfoldable pub scoped : {A : Type 0} → Calls.Kind → Calls.Call → (ℕ → Attempt S A) → Attempt S A
  scoped kind c body = do
    handle ← call c
    λ s. closing (record { kind = kind; handle = handle }) (body handle s)

  -- `if (stream_) cudaStreamSynchronize(stream_)`
  unfoldable pub drain : S → S
  drain s = elim (s.pointers stream) [
    | none ↦ s
    | some handle ↦ issue (Calls.synchronize (some handle)) s
  ]

  unfoldable pub destroy_resources : S → S
  unfolding drain release_all
  destroy_resources s = record (release_all destruction_order (drain s)) {
    input_bytes = 0;
    output_bytes = 0;
    input_name = [];
    output_name = [];
    last_device_latency_us = none;
    metadata = no_metadata;
  }
