-- ===== src/Engine/Tensorrt/Loading/Tensors.antt =====
-- The account of resources over the look at an engine's tensors: it makes no call.
use market_data_ingress.Base.{
  ℕ, Option, none, some, List, [], ◌∷◌, Bytes, Bool-cases, Option-cases, not, ◌&&◌, ◌||◌, inl, inr,
}
use market_data_ingress.Engine.Tensorrt.Volume.{checked_volume}
use market_data_ingress.Engine.Tensorrt.Calls
use market_data_ingress.Engine.Tensorrt.Session.{Member, S}
use market_data_ingress.Engine.Tensorrt.Session.Balance.{Weight}
use market_data_ingress.Engine.Tensorrt.Session.Steps.{Ends, Ends-bind, Ready, outcome}
use market_data_ingress.Engine.Tensorrt.Loading.{
  is_empty, name_tensor, name_tensors, inspect_tensors,
}

module _ {F D : Type 0} (platform : Calls.Platform F D) (w : Weight) (extra : ℕ) where
  abbrev Prepared : List Member → S platform → Type 0
  Prepared members = Ready platform w extra members

  name_tensor-Ready :
      (engine : ℕ) (name : Bytes) (members : List Member) (s : S platform)
      → Prepared members s
      → Ends (Prepared members) (λ _. Prepared members) (name_tensor platform engine name s)
  unfolding name_tensor
  name_tensor-Ready engine name members s prepared =
      elim (Calls.IoMode-cases (platform.io_mode engine name)) [
        | inl is_input ↦
            rw (name_tensor, is_input)
              (elim (Bool-cases (is_empty s.input_name)) [
                | inl first ↦ rw first prepared
                | inr second ↦ rw second prepared
              ])
        | inr (inl is_output) ↦
            rw (name_tensor, is_output)
              (elim (Bool-cases (is_empty s.output_name)) [
                | inl first ↦ rw first prepared
                | inr second ↦ rw second prepared
              ])
        | inr (inr other) ↦ rw (name_tensor, other) prepared
      ]

  name_tensors-Ready :
      (engine : ℕ) (names : List (Option Bytes)) (members : List Member) (s : S platform)
      → Prepared members s
      → Ends (Prepared members) (λ _. Prepared members) (name_tensors platform engine names s)
  unfolding name_tensors
  name_tensors-Ready engine [] members s prepared = prepared
  name_tensors-Ready engine (none ∷ names) members s prepared =
      name_tensors-Ready engine names members s prepared
  name_tensors-Ready engine (some name ∷ names) members s prepared =
      Ends-bind (Prepared members) (λ _. Prepared members) (λ _. Prepared members)
        (name_tensor platform engine name s) (λ _. name_tensors platform engine names)
        (name_tensor-Ready engine name members s prepared)
        (λ _ t. name_tensors-Ready engine names members t)

  pub inspect_tensors-Ready :
      (engine : ℕ) (members : List Member) (s : S platform)
      → Prepared members s
      → Ends (Prepared members) (λ _. Prepared members) (inspect_tensors platform engine s)
  unfolding inspect_tensors
  inspect_tensors-Ready engine members s prepared =
      elim (outcome (Prepared members) (λ _. Prepared members)
        (name_tensors platform engine (platform.io_names engine) s)
        (name_tensors-Ready engine (platform.io_names engine) members s prepared)) [
          | inl (t, e, p) ↦ rw e p
          | inr (_, t, e, p) ↦
              rw e (elim (Bool-cases (not (is_empty t.input_name || is_empty t.output_name))) [
                | inr unnamed ↦ rw unnamed p
                | inl named ↦
                    rw named
                      (elim (Bool-cases (
                        platform.is_float engine t.input_name
                        && platform.is_float engine t.output_name)) [
                          | inr other ↦ rw other p
                          | inl floats ↦
                              rw floats
                                (elim (Option-cases
                                  (checked_volume (platform.shape engine t.input_name))) [
                                    | inl invalid ↦ rw invalid p
                                    | inr (input, valid) ↦
                                        rw valid
                                          (elim (Option-cases (
                                            checked_volume (platform.shape engine t.output_name))) [
                                              | inl invalid ↦ rw invalid p
                                              | inr (output, good) ↦ rw good p
                                            ])
                                  ])
                        ])
              ])
        ]
