-- ===== src/Builder/Program/Saving.antt =====
-- What the engine builder has written at a time, and how its calls leave that.
use market_data_ingress.Base.{
  ℕ, ◌≡◌, refl, Bool, true, Option, none, some, Option-cases, Bool-cases, List, [], ◌∷◌, Bytes,
  length, inl, inr, ◌⊎◌,
}
use market_data_ingress.Base.Attempts.{Attempt}
use market_data_ingress.Engine.Tensorrt.Calls
use market_data_ingress.Engine.Tensorrt.Session.Steps.{Ends, Ends-bind}
use market_data_ingress.Builder.Options.{Options}
use market_data_ingress.Builder.Process.{Files, P, ask, tell, leaving, owning, on_files}

-- Among the calls is this one with this answer.
abbrev pub Logged : Calls.Call × Option ℕ → List (Calls.Call × Option ℕ) → Type 0
Logged entry [] = ⊥
Logged entry (latest ∷ log) = (latest ≡ entry) ⊎ Logged entry log

module _ {F D : Type 0} (platform : Calls.Platform F D) (files : Files platform.World)
    (contents : ℕ → platform.World → Bytes) (before : List (Bytes × Bytes)) where
  -- No file has been written whole yet.
  abbrev pub Unwritten : P platform → Type 0
  Unwritten s = s.written ≡ before

  -- The engine file has been written whole, and nothing else: to the path of the options, once that
  -- was opened, with the bytes of a network that TensorRT has serialized.
  abbrev pub Saved : Options → ℕ → P platform → Type 0
  Saved options size s =
      (builder network config serialized : ℕ) × (closed opened : platform.World) × Logged
        (Calls.build builder network config, some serialized) s.log
      × ((files.open_file options.output_path closed).0 ≡ opened)
      × ((files.open_file options.output_path closed).1 ≡ true)
      × ((files.write_file options.output_path (contents serialized opened) opened).1 ≡ true)
      × (s.written ≡ (options.output_path, contents serialized opened) ∷ before)
      × (size ≡ length (contents serialized opened))

  abbrev pub Saves : Options → P platform × Option ℕ → Type 0
  Saves options = Ends Unwritten (Saved options)

  pub ask-Unwritten :
      (c : Calls.Call) (s : P platform)
      → Unwritten s
      → Ends Unwritten (λ answer t. Unwritten t × Logged (c, some answer) t.log) (ask platform c s)
  unfolding ask
  ask-Unwritten c s unwritten = elim (Option-cases (platform.perform c s.world).1) [
    | inl failed ↦ rw (ask, failed) unwritten
    | inr (answer, answered) ↦ rw (ask, answered) (unwritten, inl refl)
  ]

  pub on_files-Unwritten :
      (operation : platform.World → platform.World × Bool) (entry : Calls.Call × Option ℕ)
      (s : P platform)
      → Unwritten s
      → Logged entry s.log
      → Ends Unwritten
          (λ _ t.
            Unwritten t
            × Logged entry t.log
            × ((operation s.world).0 ≡ t.world)
            × ((operation s.world).1 ≡ true))
          (on_files platform operation s)
  unfolding on_files
  on_files-Unwritten operation entry s unwritten logged = elim (Bool-cases (operation s.world).1) [
    | inl good ↦ rw (on_files, good) (unwritten, logged, refl, refl)
    | inr bad ↦ rw (on_files, bad) unwritten
  ]

  leaving-Saves :
      (options : Options) (resource : Calls.Resource) (r : P platform × Option ℕ)
      → Saves options r
      → Saves options (leaving platform resource r)
  unfolding tell ask
  leaving-Saves options resource (s, none) unwritten = unwritten
  leaving-Saves options resource (s, some size)
        (
          builder, network, config, serialized, closed, opened, logged, start, good, whole, written,
          counted,
        ) =
      (
        builder,
        network,
        config,
        serialized,
        closed,
        opened,
        inr logged,
        start,
        good,
        whole,
        written,
        counted,
      )

  pub owning-Saves :
      (options : Options) (kind : Calls.Kind) (c : Calls.Call) (body : ℕ → Attempt (P platform) ℕ)
      (s : P platform)
      → ((handle : ℕ) (t : P platform)
          → Unwritten t
          → Logged (c, some handle) t.log
          → Saves options (body handle t))
      → Unwritten s
      → Saves options (owning platform kind c body s)
  unfolding owning
  owning-Saves options kind c body s saves unwritten =
      Ends-bind Unwritten (λ answer t. Unwritten t × Logged (c, some answer) t.log) (Saved options)
        (ask platform c s)
        (λ handle t. leaving platform (record { kind = kind; handle = handle }) (body handle t))
        (ask-Unwritten c s unwritten)
        (λ handle t (holds, logged).
          leaving-Saves options (record { kind = kind; handle = handle }) (body handle t)
            (saves handle t holds logged))
