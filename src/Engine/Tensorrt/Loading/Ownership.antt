-- ===== src/Engine/Tensorrt/Loading/Ownership.antt =====
-- The account of resources over `initializeExecution`.
use market_data_ingress.Base.{
  ℕ, ◌≡◌, refl, true, Option, none, some, List, [], ◌∷◌, Bytes, inl, inr, ◌⊎◌,
}
use market_data_ingress.Base.Attempts.{present}
use market_data_ingress.Engine.Tensorrt.Calls
use market_data_ingress.Engine.Tensorrt.Session.{Member, kind_of, S, call, acquire}
use market_data_ingress.Engine.Tensorrt.Session.Balance.{Weight, closed_by, Owes}
use market_data_ingress.Engine.Tensorrt.Session.Steps.{
  Ends, Ends-bind, Ends-early, Ends-mono, present-Ends, Ready, call-Ready, acquire-Ready, lacks,
  outcome,
}
use market_data_ingress.Engine.Tensorrt.Loading.{
  inspect_tensors, acquire_resources, initialize_with, initialize_execution,
}
use market_data_ingress.Engine.Tensorrt.Loading.Tensors.{inspect_tensors-Ready}

-- The members that `initializeExecution` sets, in its order: those from each one on.
abbrev from_output_host : List Member
from_output_host = Member.output_host ∷ []

abbrev from_input_host : List Member
from_input_host = Member.input_host ∷ from_output_host

abbrev from_output_device : List Member
from_output_device = Member.output_device ∷ from_input_host

abbrev from_input_device : List Member
from_input_device = Member.input_device ∷ from_output_device

abbrev from_device_stop : List Member
from_device_stop = Member.device_stop ∷ from_input_device

abbrev from_device_start : List Member
from_device_start = Member.device_start ∷ from_device_stop

abbrev from_stream : List Member
from_stream = Member.stream ∷ from_device_start

abbrev pub from_context : List Member
from_context = Member.context ∷ from_stream

module _ {F D : Type 0} (platform : Calls.Platform F D) (w : Weight) (extra : ℕ) where
  abbrev Owing : S platform → Type 0
  Owing = Owes platform w extra

  abbrev Prepared : List Member → S platform → Type 0
  Prepared members = Ready platform w extra members

  acquired :
      (m : Member) (c : Calls.Call) (members : List Member) (s : S platform)
      → Calls.yields c ≡ some (kind_of m)
      → closed_by w c ≡ 0
      → lacks m members ≡ true
      → Prepared (m ∷ members) s
      → ((t : S platform) × (acquire platform m c s ≡ (t, none)) × Owing t)
        ⊎ ((a : ℕ) × (t : S platform) × (acquire platform m c s ≡ (t, some a)) × Prepared members t)
  acquired m c members s yields closes apart prepared =
      outcome Owing (λ _. Prepared members) (acquire platform m c s)
        (acquire-Ready platform w m c extra members s yields closes apart prepared)

  acquire_resources-Owes :
      (engine : ℕ) (s : S platform)
      → Prepared from_context s
      → Ends Owing (λ _. Owing) (acquire_resources platform engine s)
  unfolding acquire_resources Calls.yields
  acquire_resources-Owes engine s prepared =
      elim (acquired Member.context (Calls.create_context engine) from_stream s refl refl refl
        prepared) [
          | inl (t, e, owes) ↦ rw e owes
          | inr (a0, t0, e0, p0) ↦
              rw e0
                (elim (acquired Member.stream Calls.create_stream from_device_start t0 refl refl
                  refl p0) [
                    | inl (t, e, owes) ↦ rw e owes
                    | inr (a1, t1, e1, p1) ↦
                        rw e1
                          (elim (acquired Member.device_start Calls.create_event from_device_stop t1
                            refl refl refl p1) [
                              | inl (t, e, owes) ↦ rw e owes
                              | inr (a2, t2, e2, p2) ↦
                                  rw e2
                                    (elim (acquired Member.device_stop Calls.create_event
                                      from_input_device t2 refl refl refl p2) [
                                        | inl (t, e, owes) ↦ rw e owes
                                        | inr (a3, t3, e3, p3) ↦
                                            rw e3
                                              (elim (acquired Member.input_device
                                                (Calls.allocate_device s.input_bytes)
                                                from_output_device t3 refl refl refl p3) [
                                                  | inl (t, e, owes) ↦ rw e owes
                                                  | inr (a4, t4, e4, p4) ↦
                                                      rw e4
                                                        (elim (acquired Member.output_device
                                                          (Calls.allocate_device s.output_bytes)
                                                          from_input_host t4 refl refl refl p4) [
                                                            | inl (t, e, owes) ↦ rw e owes
                                                            | inr (a5, t5, e5, p5) ↦
                                                              rw e5
                                                              (elim (acquired Member.input_host
                                                              (Calls.allocate_host s.input_bytes)
                                                              from_output_host t5 refl refl refl
                                                              p5) [
                                                                | inl (t, e, owes) ↦ rw e owes
                                                                | inr (a6, t6, e6, p6) ↦
                                                                  rw e6
                                                                  (elim (acquired Member.output_host
                                                                  (Calls.allocate_host
                                                                  s.output_bytes)
                                                                  [] t6 refl refl refl p6) [
                                                                    | inl (t, e, owes) ↦ rw e owes
                                                                    | inr (a7, t7, e7, p7) ↦
                                                                      rw e7 p7.0
                                                                  ])
                                                              ])
                                                          ])
                                                ])
                                      ])
                            ])
                  ])
        ]

  bound-Owes :
      (context : ℕ) (name : Bytes) (buffer : Option ℕ) (s : S platform)
      → Owing s
      → Ends Owing (λ _. Owing) (call platform (Calls.bind context name buffer) s)
  unfolding Calls.yields
  bound-Owes context name buffer s owes =
      Ends-mono (Prepared []) Owing (call platform (Calls.bind context name buffer) s)
        (call-Ready platform w (Calls.bind context name buffer) extra [] s refl refl (owes, tt))
        (λ t p. p.0)

  initialize_from :
      (engine : ℕ) (s : S platform)
      → Prepared from_context s
      → Ends Owing (λ _. Owing) (initialize_with platform engine s)
  unfolding initialize_with
  initialize_from engine s prepared =
      elim (outcome (Prepared from_context) (λ _. Prepared from_context)
        (inspect_tensors platform engine s)
        (inspect_tensors-Ready platform w extra engine from_context s prepared)) [
          | inl (t, e, p) ↦ rw e p.0
          | inr (_, t, e, p) ↦
              rw e
                (elim (outcome Owing (λ _. Owing) (acquire_resources platform engine t)
                  (acquire_resources-Owes engine t p)) [
                    | inl (u, e2, owes) ↦ rw e2 owes
                    | inr ((context, input, output), u, e2, owes) ↦
                        rw e2
                          (elim (outcome Owing (λ _. Owing)
                            (call platform (Calls.bind context u.input_name (some input)) u)
                            (bound-Owes context u.input_name (some input) u owes)) [
                              | inl (v, e3, owes3) ↦ rw e3 owes3
                              | inr (_, v, e3, owes3) ↦
                                  rw e3
                                    (elim (outcome Owing (λ _. Owing)
                                      (call platform
                                        (Calls.bind context u.output_name (some output)) v)
                                      (bound-Owes context u.output_name (some output) v owes3)) [
                                        | inl (x, e4, owes4) ↦ rw e4 owes4
                                        | inr (_, x, e4, owes4) ↦ rw e4 owes4
                                      ])
                            ])
                  ])
        ]

  pub initialize_execution-Owes :
      (s : S platform)
      → Prepared from_context s
      → Ends Owing (λ _. Owing) (initialize_execution platform s)
  unfolding initialize_execution
  initialize_execution-Owes s prepared =
      Ends-bind Owing (λ _. Prepared from_context) (λ _. Owing)
        (present (s.pointers Member.engine) s) (initialize_with platform)
        (Ends-early (Prepared from_context) Owing (λ _. Prepared from_context)
          (present (s.pointers Member.engine) s)
          (present-Ends (Prepared from_context) (s.pointers Member.engine) s prepared) (λ t p. p.0))
        (λ engine t p. initialize_from engine t p)
