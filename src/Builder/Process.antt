-- ===== src/Builder/Process.antt =====
-- src/build_tiny_engine.cpp: the state of the process, the calls of TensorRT, and `unique_ptr`.
pub mod Account
use market_data_ingress.Base.{
  ℕ, Bool, true, false, Option, none, some, List, [], ◌∷◌, Bytes, if◌then◌else◌,
}
use market_data_ingress.Base.Attempts.{Attempt, continue_with, ◌>>=◌}
use market_data_ingress.Engine.Tensorrt.Calls

pub record Process (World : Type 0) : Type 0 where
  pub world : World
  -- The calls made so far, the latest first, and what each one answered.
  pub log : List (Calls.Call × Option ℕ)
  -- The files that were written whole, the latest first.
  pub written : List (Bytes × Bytes)

-- What the program does with files. Each operation answers whether it went well.
pub record Files (World : Type 0) : Type 0 where
  pub parent_path : Bytes → Option Bytes
  pub create_directories : Bytes → World → World × Bool
  pub open_file : Bytes → World → World × Bool
  pub write_file : Bytes → Bytes → World → World × Bool

module _ {F D : Type 0} (platform : Calls.Platform F D) where
  open platform use {World, perform}

  abbrev pub P : Type 0
  P = Process World

  -- A call; the program throws if it does not answer.
  unfoldable pub ask : Calls.Call → Attempt P ℕ
  ask c s =
      let (world, answer) = perform c s.world in
      (record s { world = world; log = (c, answer) ∷ s.log }, answer)

  -- A call whose answer is not looked at.
  unfoldable pub tell : Calls.Call → P → P
  unfolding ask
  tell c s = (ask c s).0

  -- A `unique_ptr` in a scope: destroyed on every way out of it.
  abbrev pub leaving : {A : Type 0} → Calls.Resource → P × Option A → P × Option A
  leaving resource (s, result) = (tell (Calls.destroy resource) s, result)

  unfoldable pub owning : {A : Type 0} → Calls.Kind → Calls.Call → (ℕ → Attempt P A) → Attempt P A
  owning kind c body = do
    handle ← ask c
    λ s. leaving (record { kind = kind; handle = handle }) (body handle s)

  -- A file operation; the program throws if it fails.
  unfoldable pub on_files : (World → World × Bool) → Attempt P (Unit {0})
  on_files operation s =
      let (world, good) = operation s.world in
      (record s { world = world }, if good then some tt else none)
