-- ===== src/Engine/Tensorrt/Inference/Graph.antt =====
-- The account of resources over `enable_cuda_graph`.
use market_data_ingress.Base.{
  ℕ, ◌≡◌, refl, Bool, true, false, Option, none, some, List, [], ◌∷◌, Bool-cases, Option-cases,
  ◌&&◌, inl, inr, ◌⊎◌,
}
use market_data_ingress.Engine.Tensorrt.Calls
use market_data_ingress.Engine.Tensorrt.Session.{Member, S, call, acquire}
use market_data_ingress.Engine.Tensorrt.Session.Balance.{Weight, closed_by, Owes}
use market_data_ingress.Engine.Tensorrt.Session.Steps.{
  Ends, Ends-returned, present-then, Ready, call-Ready, acquire-Ready, scoped-Owes, outcome,
}
use market_data_ingress.Engine.Tensorrt.Inference.{
  member, try_call, end_capture, capture, create_graph, enable_cuda_graph,
}

abbrev graph_only : List Member
graph_only = Member.graph_execution ∷ []

module _ {F D : Type 0} (platform : Calls.Platform F D) (w : Weight) where
  -- The account, where there is no graph yet.
  abbrev Free : ℕ → S platform → Type 0
  Free extra = Ready platform w extra graph_only

  abbrev Kept : {A : Type 0} → ℕ → S platform × Option A → Type 0
  Kept extra = Ends (Owes platform w extra) (λ _. Owes platform w extra)

  called :
      (extra : ℕ) (c : Calls.Call) (s : S platform)
      → Calls.yields c ≡ none
      → closed_by w c ≡ 0
      → Free extra s
      → ((t : S platform) × (call platform c s ≡ (t, none)) × Free extra t)
        ⊎ ((a : ℕ) × (t : S platform) × (call platform c s ≡ (t, some a)) × Free extra t)
  called extra c s yields closes free =
      outcome (Free extra) (λ _. Free extra) (call platform c s)
        (call-Ready platform w c extra graph_only s yields closes free)

  try_call-Free :
      (extra : ℕ) (c : Calls.Call) (s : S platform)
      → Calls.yields c ≡ none
      → closed_by w c ≡ 0
      → Free extra s
      → (b : Bool) × (t : S platform) × (try_call platform c s ≡ (t, some b)) × Free extra t
  unfolding try_call
  try_call-Free extra c s yields closes free = elim (called extra c s yields closes free) [
    | inl (t, e, p) ↦ (false, t, rw (try_call, e) refl, p)
    | inr (a, t, e, p) ↦ (true, t, rw (try_call, e) refl, p)
  ]

  instantiated-Owes :
      (extra graph : ℕ) (s : S platform)
      → Free extra s
      → Kept extra (acquire platform Member.graph_execution (Calls.instantiate graph) s)
  unfolding Calls.yields
  instantiated-Owes extra graph s free =
      elim (outcome (Owes platform w extra) (λ _. Ready platform w extra [])
        (acquire platform Member.graph_execution (Calls.instantiate graph) s)
        (acquire-Ready platform w Member.graph_execution (Calls.instantiate graph) extra [] s refl
          refl refl free)) [ inl (t, e, owes) ↦ rw e owes | inr (_, t, e, p) ↦ rw e p.0 ]

  end_capture-Owes :
      (extra stream : ℕ) (enqueue_succeeded : Bool) (s : S platform)
      → Free extra s
      → Kept extra (end_capture platform stream enqueue_succeeded s)
  unfolding end_capture Calls.yields
  end_capture-Owes extra stream enqueue_succeeded s =
      scoped-Owes platform w Calls.Kind.graph (Calls.end_capture stream) _ extra graph_only s refl
        refl
        λ graph t free.
          elim (Bool-cases (enqueue_succeeded && platform.capture_succeeded t.world)) [
            | inr failed ↦ rw failed free.0
            | inl captured ↦ rw captured (instantiated-Owes _ graph t free)
          ]

  capture-Owes :
      (extra context stream : ℕ) (s : S platform)
      → Free extra s
      → Kept extra (capture platform context stream s)
  unfolding capture Calls.yields
  capture-Owes extra context stream s free =
      elim (called extra (Calls.begin_capture stream) s refl refl free) [
        | inl (t, e, p) ↦ rw e p.0
        | inr (_, t, e, p) ↦
            let (enqueued, u, e2, p2) =
              try_call-Free extra (Calls.enqueue context stream) t refl refl p in
            rw (e, e2) (end_capture-Owes extra stream enqueued u p2)
      ]

  create_graph-Owes :
      (extra : ℕ) (s : S platform) → Free extra s → Kept extra (create_graph platform s)
  unfolding create_graph member Calls.yields
  create_graph-Owes extra s free =
      present-then (Owes platform w extra) (λ _. Owes platform w extra) (s.pointers Member.context)
        s _ free.0
        λ context _.
          present-then (Owes platform w extra) (λ _. Owes platform w extra)
            (s.pointers Member.stream) s _ free.0
            λ stream _. elim (called extra (Calls.enqueue context stream) s refl refl free) [
              | inl (t, e, p) ↦ rw e p.0
              | inr (_, t, e, p) ↦
                  rw e (elim (called extra (Calls.synchronize (some stream)) t refl refl p) [
                    | inl (u, e2, p2) ↦ rw e2 p2.0
                    | inr (_, u, e2, p2) ↦ rw e2 (capture-Owes extra context stream u p2)
                  ])
            ]

  pub enable_cuda_graph-Owes :
      (extra : ℕ) (s : S platform)
      → Owes platform w extra s
      → Owes platform w extra (enable_cuda_graph platform s).0
  unfolding enable_cuda_graph
  enable_cuda_graph-Owes extra s owes = elim (Option-cases (s.pointers Member.graph_execution)) [
    | inl missing ↦
        rw (enable_cuda_graph, missing)
          (Ends-returned (Owes platform w extra) (create_graph platform s)
            (create_graph-Owes extra s (owes, (missing, tt))))
    | inr (execution, there) ↦ rw (enable_cuda_graph, there) owes
  ]
