-- ===== src/Engine/Tensorrt/Inference/Results.antt =====
-- What `infer_into` answers.
use market_data_ingress.Base.{
  ℕ, ◌≤◌, ◌≡◌, refl, true, false, Option, none, some, List, [], ◌∷◌, Option-cases, Bool-cases, not,
  inl, inr, ◌⊎◌, arith, ◌==◌, ==_iff, ltb, ◌/◌, take,
}
use mathlib.Core.Path.{subst}
use market_data_ingress.Base.Attempts.{modify}
use market_data_ingress.Engine.{Inference}
use market_data_ingress.Engine.Tensorrt.Volume.{bytes_of}
use market_data_ingress.Engine.Tensorrt.Calls
use market_data_ingress.Engine.Tensorrt.Session.{Member, S, call, calls}
use market_data_ingress.Engine.Tensorrt.Session.Steps.{
  Ends, Ends-bind, present-then, outcome, Ends-weaken,
}
use market_data_ingress.Engine.Tensorrt.Inference.{
  inference_calls, keep_latency, latency_of, member, execute, run_inference, infer_into, buffer,
  copied, inference_of,
}

module _ {F D : Type 0} (platform : Calls.Platform F D) where
  abbrev Untimed : S platform → Type 0
  Untimed s = s.last_device_latency_us ≡ none

  -- From one world and log to another by these calls in this order, each of which answered.
  abbrev pub Ran :
      List Calls.Call
      → platform.World
      → List (Calls.Call × Option ℕ)
      → platform.World
      → List (Calls.Call × Option ℕ)
      → Type 0
  Ran [] from before to after = (to ≡ from) × (after ≡ before)
  Ran (c ∷ cs) from before to after =
      (answer : ℕ) × ((platform.perform c from).1 ≡ some answer)
      × Ran cs (platform.perform c from).0 ((c, some answer) ∷ before) to after

  abbrev RanFrom : List Calls.Call → S platform → S platform → Type 0
  RanFrom cs s t = Ran cs s.world s.log t.world t.log

  call-Untimed :
      (c : Calls.Call) (s : S platform)
      → Untimed s
      → Ends Untimed (λ _. Untimed) (call platform c s)
  unfolding call
  call-Untimed c s untimed = elim (Option-cases (platform.perform c s.world).1) [
    | inl failed ↦ rw (call, failed) untimed
    | inr (answer, answered) ↦ rw (call, answered) untimed
  ]

  calls-Untimed :
      (cs : List Calls.Call) (s : S platform)
      → Untimed s
      → Ends Untimed (λ _ t. Untimed t × RanFrom cs s t) (calls platform cs s)
  unfolding calls
  calls-Untimed [] s untimed = (untimed, (refl, refl))
  calls-Untimed (c ∷ cs) s untimed =
      unfold call in
      elim (Option-cases (platform.perform c s.world).1) [
        | inl failed ↦ rw (failed) untimed
        | inr (answer, answered) ↦ rw (answered) (
            let t : S platform = record s {
              world = (platform.perform c s.world).0;
              log = (c, some answer) ∷ s.log;
            } in
            Ends-weaken Untimed (λ u. Untimed u × RanFrom cs t u)
              (λ u.
                Untimed u
                × ((x : ℕ) × (some answer ≡ some x)
                    × Ran cs t.world ((c, some x) ∷ s.log) u.world u.log))
              (calls platform cs t) (calls-Untimed cs t untimed)
              (λ u (still, ran). (still, (answer, refl, ran))))
      ]

  -- How the network is run: by the graph, if there is one.
  abbrev network_run : (context stream : ℕ) → Option ℕ → Calls.Call
  network_run context stream none = Calls.enqueue context stream
  network_run context stream (some execution) = Calls.launch_graph execution stream

  -- One run on the device: the input goes there, the network runs between the two events, the output
  -- comes back, and behind all of them the time between the events is asked for.
  abbrev pub device_run :
      (context stream input_device output_device input_host output_host : ℕ)
      → S platform
      → List Calls.Call
  device_run context stream input_device output_device input_host output_host s =
      Calls.copy_to_device input_device input_host s.input_bytes stream
      ∷ Calls.record_event (s.pointers Member.device_start) stream
      ∷ network_run context stream (s.pointers Member.graph_execution)
      ∷ Calls.record_event (s.pointers Member.device_stop) stream
      ∷ Calls.copy_to_host output_host output_device s.output_bytes stream
      ∷ Calls.synchronize (some stream)
      ∷ Calls.elapsed (s.pointers Member.device_start) (s.pointers Member.device_stop)
      ∷ []

  inference_calls-eq :
      (context stream input_device output_device input_host output_host : ℕ) (s : S platform)
      → inference_calls platform context stream input_device output_device input_host output_host s
        ≡ device_run context stream input_device output_device input_host output_host s
  inference_calls-eq context stream input_device output_device input_host output_host s =
      elim (Option-cases (s.pointers Member.graph_execution)) [
        | inl direct ↦ rw (direct) refl
        | inr (execution, captured) ↦ rw (captured) refl
      ]

  abbrev Timed : S platform → Type 0
  Timed s = s.last_device_latency_us ≡ some (latency_of platform s.world)

  execute_times :
      (context stream input_device output_device input_host output_host : ℕ) (s : S platform)
      → Untimed s
      → Ends Untimed
          (λ _ t.
            Timed t
            × Ran
                (device_run context stream input_device output_device input_host output_host s)
                s.world
                s.log
                t.world
                t.log)
          (execute platform context stream input_device output_device input_host output_host s)
  unfolding execute
  execute_times context stream input_device output_device input_host output_host s untimed =
      let cs =
        inference_calls platform context stream input_device output_device input_host output_host
          s in
      Ends-bind Untimed (λ _ t. Untimed t × RanFrom cs s t)
        (λ _ t.
          Timed t
          × RanFrom (device_run context stream input_device output_device input_host output_host s)
              s t)
        (calls platform cs s) (λ _. modify (keep_latency platform)) (calls-Untimed cs s untimed)
        (λ _ t (_, same). (
          refl,
          subst (λ ran. RanFrom ran s t)
              (inference_calls-eq context stream input_device output_device input_host output_host
                s)
              same,
        ))

  -- What a success means for an engine that was in state `s`.
  abbrev pub Answers :
      Option (List F) → ℕ → Option (List F) → ℕ → S platform → Inference F → S platform → Type 0
  Answers input input_elements output capacity s r after =
      (from to : List F) × (context stream input_device output_device input_host output_host : ℕ)
      × (input ≡ some from)
      × (output ≡ some to)
      × (s.pointers Member.context ≡ some context)
      × (s.pointers Member.stream ≡ some stream)
      × (s.pointers Member.input_device ≡ some input_device)
      × (s.pointers Member.output_device ≡ some output_device)
      × (s.pointers Member.input_host ≡ some input_host)
      × (s.pointers Member.output_host ≡ some output_host)
      × Ran (device_run context stream input_device output_device input_host output_host s)
          (platform.write_host input_host (take (s.input_bytes / 4) from) s.world) s.log after.world
          after.log
      × (bytes_of input_elements ≡ s.input_bytes)
      × (s.output_bytes / 4 ≤ capacity)
      × (r.output
          ≡ copied (s.output_bytes / 4)
              (platform.read_host output_host (s.output_bytes / 4) after.world) to)
      × (r.output_elements ≡ s.output_bytes / 4)
      × (r.succeeded ≡ true)
      × Timed after

  abbrev Returns :
      Option (List F) → ℕ → Option (List F) → ℕ → S platform → List F × ℕ → S platform → Type 0
  Returns input input_elements output capacity s result =
      Answers input input_elements output capacity s (inference_of platform output (some result))

  run_inference_answers :
      (input : Option (List F)) (input_elements : ℕ) (output : Option (List F)) (capacity : ℕ)
      (s : S platform)
      → Untimed s
      → Ends Untimed
          (Returns input input_elements output capacity s)
          (run_inference platform input input_elements output capacity s)
  unfolding run_inference member
  run_inference_answers input input_elements output capacity s untimed =
      let returns = Returns input input_elements output capacity s in
      present-then Untimed returns (s.pointers Member.context) s _ untimed λ context is_context.
        present-then Untimed returns (s.pointers Member.stream) s _ untimed λ stream is_stream.
          present-then Untimed returns (s.pointers Member.input_device) s _ untimed
            λ input_device is_input_device.
              present-then Untimed returns (s.pointers Member.output_device) s _ untimed
                λ output_device is_output_device.
                  present-then Untimed returns (s.pointers Member.input_host) s _ untimed
                    λ input_host is_input_host.
                      present-then Untimed returns (s.pointers Member.output_host) s _ untimed
                        λ output_host there.
                          present-then Untimed returns input s _ untimed λ from is_input.
                            present-then Untimed returns output s _ untimed λ to is_output.
                              elim (Bool-cases (not (input_elements == 0))) [
                                | inr empty ↦ rw empty untimed
                                | inl some_input ↦
                                    rw some_input
                                      (elim (Bool-cases
                                        (bytes_of input_elements == s.input_bytes)) [
                                          | inr other_size ↦ rw other_size untimed
                                          | inl exact ↦
                                              rw exact
                                                (elim (Bool-cases
                                                  (not (ltb capacity (s.output_bytes / 4)))) [
                                                    | inr short ↦ rw short untimed
                                                    | inl enough ↦ rw enough (
                                                        let written : S platform = record s {
                                                          world =
                                                            platform.write_host input_host
                                                            (take (s.input_bytes / 4) from) s.world;
                                                        } in
                                                        elim (outcome Untimed
                                                          (λ _ t.
                                                            Timed t
                                                            × RanFrom
                                                            (device_run context stream input_device
                                                            output_device input_host output_host
                                                            written)
                                                            written t)
                                                          (execute platform context stream
                                                            input_device output_device input_host
                                                            output_host written)
                                                          (execute_times context stream input_device
                                                            output_device input_host output_host
                                                            written untimed)) [
                                                              | inl (t, e, later) ↦ rw e later
                                                              | inr (_, t, e, later) ↦ rw e (
                                                              from,
                                                              to,
                                                              context,
                                                              stream,
                                                              input_device,
                                                              output_device,
                                                              input_host,
                                                              output_host,
                                                              is_input,
                                                              is_output,
                                                              is_context,
                                                              is_stream,
                                                              is_input_device,
                                                              is_output_device,
                                                              is_input_host,
                                                              there,
                                                              later.1,
                                                              (==_iff (bytes_of input_elements)
                                                              s.input_bytes).0
                                                              exact,
                                                              ground arith,
                                                              refl,
                                                              refl,
                                                              refl,
                                                              later.0,
                                                              )
                                                            ])
                                                  ])
                                        ])
                              ]

  -- An inference that fails leaves the output as it was, counts no element and keeps no latency. One
  -- that succeeds was given an input of the engine's size and room enough, and made just the calls of
  -- one run, each of which answered: the input staged on the host goes to the device, the network runs
  -- between the two events, by the graph if there is one, the output comes back, the stream is waited
  -- for, and the time between the events is asked for. It writes what came back to the front of the
  -- buffer, counts its elements, and keeps that time.
  pub infer_into_lem :
      (input : Option (List F)) (input_elements : ℕ) (output : Option (List F)) (capacity : ℕ)
      (s : S platform)
      → let called = infer_into platform input input_elements output capacity s in
        ((called.1
            ≡ record { output = buffer platform output; output_elements = 0; succeeded = false })
          × Untimed called.0)
        ⊎ Answers input input_elements output capacity s called.1 called.0
  unfolding infer_into
  infer_into_lem input input_elements output capacity s =
      let reset = record s { last_device_latency_us = none } in
      elim (outcome Untimed (Returns input input_elements output capacity reset)
        (run_inference platform input input_elements output capacity reset)
        (run_inference_answers input input_elements output capacity reset refl)) [
          | inl (t, e, untimed) ↦ inl (rw (infer_into, e) refl, rw (infer_into, e) untimed)
          | inr (result, t, e, answers) ↦ inr (rw (infer_into, e) answers)
        ]
