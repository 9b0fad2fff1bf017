-- ===== src/Engine/Tensorrt/Inference/Account.antt =====
-- The account of resources over `infer_into`.
use market_data_ingress.Base.{
  ℕ, ◌≡◌, refl, Option, none, List, [], All, Bool-cases, Option-cases, not, inl, inr, ◌==◌, ltb,
  ◌/◌, take,
}
use market_data_ingress.Base.Attempts.{modify}
use market_data_ingress.Engine.Tensorrt.Volume.{bytes_of}
use market_data_ingress.Engine.Tensorrt.Calls
use market_data_ingress.Engine.Tensorrt.Session.{Member, S, calls}
use market_data_ingress.Engine.Tensorrt.Session.Balance.{Weight, closed_by, Owes}
use market_data_ingress.Engine.Tensorrt.Session.Steps.{
  Ends, Ends-bind, Ends-mono, Ends_state, present-then, Ready, calls-Ready, outcome,
}
use market_data_ingress.Engine.Tensorrt.Inference.{
  inference_calls, keep_latency, member, execute, run_inference, infer_into,
}

module _ {F D : Type 0} (platform : Calls.Platform F D) (w : Weight) (extra : ℕ) where
  abbrev Owing : S platform → Type 0
  Owing = Owes platform w extra

  abbrev Kept : {A : Type 0} → S platform × Option A → Type 0
  Kept = Ends Owing (λ _. Owing)

  inference_calls-neutral :
      (context stream input_device output_device input_host output_host : ℕ) (s : S platform)
      → All
          (λ c. (Calls.yields c ≡ none) × (closed_by w c ≡ 0))
          (inference_calls platform context stream input_device output_device input_host output_host
            s)
  unfolding Calls.yields
  inference_calls-neutral context stream input_device output_device input_host output_host s =
      elim (Option-cases (s.pointers Member.graph_execution)) [
        | inl plain ↦ rw plain (
          (refl, refl),
          (
            (refl, refl),
            ((refl, refl), ((refl, refl), ((refl, refl), ((refl, refl), ((refl, refl), tt))))),
          ),
        )
        | inr (graph, there) ↦ rw there (
          (refl, refl),
          (
            (refl, refl),
            ((refl, refl), ((refl, refl), ((refl, refl), ((refl, refl), ((refl, refl), tt))))),
          ),
        )
      ]

  execute-Owes :
      (context stream input_device output_device input_host output_host : ℕ) (s : S platform)
      → Owing s
      → Kept (execute platform context stream input_device output_device input_host output_host s)
  unfolding execute
  execute-Owes context stream input_device output_device input_host output_host s owes =
      let cs =
        inference_calls platform context stream input_device output_device input_host output_host
          s in
      Ends-bind Owing (λ _. Owing) (λ _. Owing) (calls platform cs s)
        (λ _. modify (keep_latency platform))
        (Ends-mono (Ready platform w extra []) Owing (calls platform cs s)
          (calls-Ready platform w cs extra [] s
            (inference_calls-neutral context stream input_device output_device input_host
              output_host s)
            (owes, tt))
          (λ t p. p.0))
        (λ _ t later. later)

  run_inference-Owes :
      (input : Option (List F)) (input_elements : ℕ) (output : Option (List F)) (capacity : ℕ)
      (s : S platform)
      → Owing s
      → Kept (run_inference platform input input_elements output capacity s)
  unfolding run_inference member
  run_inference-Owes input input_elements output capacity s owes =
      present-then Owing (λ _. Owing) (s.pointers Member.context) s _ owes
        λ context _.
          present-then Owing (λ _. Owing) (s.pointers Member.stream) s _ owes
            λ stream _.
              present-then Owing (λ _. Owing) (s.pointers Member.input_device) s _ owes
                λ input_device _.
                  present-then Owing (λ _. Owing) (s.pointers Member.output_device) s _ owes
                    λ output_device _.
                      present-then Owing (λ _. Owing) (s.pointers Member.input_host) s _ owes
                        λ input_host _.
                          present-then Owing (λ _. Owing) (s.pointers Member.output_host) s _ owes
                            λ output_host _.
                              present-then Owing (λ _. Owing) input s _ owes
                                λ from _.
                                  present-then Owing (λ _. Owing) output s _ owes
                                    λ to _. elim (Bool-cases (not (input_elements == 0))) [
                                      | inr empty ↦ rw empty owes
                                      | inl some_input ↦
                                          rw some_input
                                            (elim (Bool-cases
                                              (bytes_of input_elements == s.input_bytes)) [
                                                | inr other_size ↦ rw other_size owes
                                                | inl exact ↦
                                                    rw exact
                                                      (elim (Bool-cases
                                                        (not (ltb capacity (s.output_bytes / 4)))) [
                                                          | inr short ↦ rw short owes
                                                          | inl enough ↦ rw enough (
                                                            let written : S platform = record s {
                                                            world =
                                                            platform.write_host input_host
                                                            (take (s.input_bytes / 4) from) s.world;
                                                            } in
                                                            elim (outcome Owing (λ _. Owing)
                                                            (execute platform context stream
                                                            input_device output_device input_host
                                                            output_host written)
                                                            (execute-Owes context stream
                                                            input_device output_device input_host
                                                            output_host written owes)) [
                                                              | inl (t, e, later) ↦ rw e later
                                                              | inr (_, t, e, later) ↦ rw e later
                                                            ])
                                                        ])
                                              ])
                                    ]

  pub infer_into-Owes :
      (input : Option (List F)) (input_elements : ℕ) (output : Option (List F)) (capacity : ℕ)
      (s : S platform)
      → Owing s
      → Owing (infer_into platform input input_elements output capacity s).0
  unfolding infer_into
  infer_into-Owes input input_elements output capacity s owes =
      Ends_state Owing
        (run_inference platform input input_elements output capacity
          (record s { last_device_latency_us = none }))
        (run_inference-Owes input input_elements output capacity
          (record s { last_device_latency_us = none }) owes)
