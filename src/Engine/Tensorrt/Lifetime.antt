-- ===== src/Engine/Tensorrt/Lifetime.antt =====
-- src/engine_tensorrt.cpp: the life of an engine, from its constructor to its destructor, and what
-- becomes of the resources that it acquires.
use market_data_ingress.Base.{ℕ, ◌+◌, ◌≡◌, refl, Option, none, List, Bytes, arith}
use market_data_ingress.Engine.Tensorrt.Calls
use market_data_ingress.Engine.Tensorrt.Session.{Member, S, created, destroy_resources}
use market_data_ingress.Engine.Tensorrt.Session.Balance.{
  Weight, opened, closed, held, Owes, destroy_resources-Owes, destroy_resources-none, held-none,
  Sound,
}
use market_data_ingress.Engine.Tensorrt.Loading.{load}
use market_data_ingress.Engine.Tensorrt.Loading.Sources.{load-Owes}
use market_data_ingress.Engine.Tensorrt.Inference.{infer_into, enable_cuda_graph}
use market_data_ingress.Engine.Tensorrt.Inference.Account.{infer_into-Owes}
use market_data_ingress.Engine.Tensorrt.Inference.Graph.{enable_cuda_graph-Owes}

module _ {F D : Type 0} (platform : Calls.Platform F D) where
  -- The states of an engine that is used through its methods, in any order and with any arguments,
  -- while the world moves on between the calls.
  pub data Reachable : S platform → Type 0 where
    constructed : (world : platform.World) → Reachable (created world)
    meanwhile :
        (world : platform.World) (s : S platform)
        → Reachable s
        → Reachable (record s { world = world })
    loaded : (path : Bytes) (s : S platform) → Reachable s → Reachable (load platform path s).0
    inferred :
        (input : Option (List F)) (input_elements : ℕ) (output : Option (List F)) (capacity : ℕ)
        (s : S platform)
        → Reachable s
        → Reachable (infer_into platform input input_elements output capacity s).0
    graph_enabled : (s : S platform) → Reachable s → Reachable (enable_cuda_graph platform s).0

  account : (w : Weight) (s : S platform) → Reachable s → Owes platform w 0 s
  account w s (constructed world) = (refl, tt)
  account w s (meanwhile world t before) = account w t before
  account w s (loaded path t before) = load-Owes platform w 0 path t (account w t before)
  account w s (inferred input input_elements output capacity t before) =
      infer_into-Owes platform w 0 input input_elements output capacity t (account w t before)
  account w s (graph_enabled t before) = enable_cuda_graph-Owes platform w 0 t (account w t before)

  -- However an engine has been used, for any measure of resources, what its calls opened is what its
  -- calls closed and what its members hold, and after no call had more been closed than opened.
  pub reachable_account :
      (w : Weight) (s : S platform)
      → Reachable s
      → (opened w s.log ≡ closed w s.log + held w s.pointers) × Sound w s.log
  reachable_account w s reachable =
      let (owes, sound) = account w s reachable in (omega arith, sound)

  -- However an engine has been used, once its destructor has run every resource that its calls
  -- opened has been closed as often as it was opened, and none of its members is set.
  pub destructor_account :
      (w : Weight) (s : S platform)
      → Reachable s
      → (opened w (destroy_resources platform s).log ≡ closed w (destroy_resources platform s).log)
        × ((m : Member) → (destroy_resources platform s).pointers m ≡ none)
  destructor_account w s reachable =
      let unset = destroy_resources-none platform w s in
      let (owes, sound) = destroy_resources-Owes platform w 0 s (account w s reachable) in
      let empty = held-none w (destroy_resources platform s).pointers unset in (omega arith, unset)
