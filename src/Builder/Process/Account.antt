-- ===== src/Builder/Process/Account.antt =====
-- The account of resources of the engine builder.
use market_data_ingress.Base.{
  ℕ, ◌+◌, ◌≡◌, refl, Bool, Option, none, some, Option-cases, Bool-cases, ◌∷◌, arith, inl, inr,
}
use market_data_ingress.Base.Attempts.{Attempt}
use market_data_ingress.Engine.Tensorrt.Calls
use market_data_ingress.Engine.Tensorrt.Session.Balance.{Weight, opened, closed, closed_by, Sound}
use market_data_ingress.Engine.Tensorrt.Session.Steps.{Ends}
use market_data_ingress.Builder.Process.{P, ask, tell, leaving, owning, on_files}

module _ {F D : Type 0} (platform : Calls.Platform F D) (w : Weight) where
  -- Everything that was opened is closed or part of `extra`, and nothing was closed that was not open.
  abbrev pub Due : ℕ → P platform → Type 0
  Due extra s = (opened w s.log ≡ closed w s.log + extra) × Sound w s.log

  abbrev pub Settled : {A : Type 0} → ℕ → P platform × Option A → Type 0
  Settled extra = Ends (Due extra) (λ _. Due extra)

  pub tell-Due :
      (c : Calls.Call) (extra : ℕ) (s : P platform)
      → Calls.yields c ≡ none
      → Due (extra + closed_by w c) s
      → Due extra (tell platform c s)
  unfolding tell
  tell-Due c extra s yields (due, sound) = rw yields (omega arith, (omega arith, sound))

  pub told :
      (c : Calls.Call) (extra : ℕ) (s : P platform)
      → Calls.yields c ≡ none
      → closed_by w c ≡ 0
      → Due extra s
      → Due extra (tell platform c s)
  told c extra s yields closes (due, sound) = tell-Due c extra s yields (omega arith, sound)

  pub ask-Due :
      (c : Calls.Call) (extra : ℕ) (s : P platform)
      → Calls.yields c ≡ none
      → closed_by w c ≡ 0
      → Due extra s
      → Settled extra (ask platform c s)
  unfolding ask
  ask-Due c extra s yields closes (due, sound) =
      elim (Option-cases (platform.perform c s.world).1) [
        | inl failed ↦ rw (ask, failed, yields) (omega arith, (omega arith, sound))
        | inr (answer, answered) ↦ rw (ask, answered, yields) (omega arith, (omega arith, sound))
      ]

  pub on_files-Due :
      (operation : platform.World → platform.World × Bool) (extra : ℕ) (s : P platform)
      → Due extra s
      → Settled extra (on_files platform operation s)
  unfolding on_files
  on_files-Due operation extra s due = elim (Bool-cases (operation s.world).1) [
    | inl good ↦ rw (on_files, good) due
    | inr bad ↦ rw (on_files, bad) due
  ]

  leaving-Due :
      {A : Type 0} (resource : Calls.Resource) (extra : ℕ) (r : P platform × Option A)
      → Settled (extra + w resource.kind resource.handle) r
      → Settled extra (leaving platform resource r)
  leaving-Due resource extra (s, none) due =
      tell-Due (Calls.destroy resource) extra s (unfold Calls.yields in refl) due
  leaving-Due resource extra (s, some a) due =
      tell-Due (Calls.destroy resource) extra s (unfold Calls.yields in refl) due

  -- A resource that a scope owns is given back at its end.
  pub owning-Due :
      {A : Type 0} (kind : Calls.Kind) (c : Calls.Call) (body : ℕ → Attempt (P platform) A)
      (extra : ℕ) (s : P platform)
      → Calls.yields c ≡ some kind
      → closed_by w c ≡ 0
      → ((handle : ℕ) (t : P platform)
          → Due (extra + w kind handle) t
          → Settled (extra + w kind handle) (body handle t))
      → Due extra s
      → Settled extra (owning platform kind c body s)
  unfolding owning ask
  owning-Due kind c body extra s yields closes keeps (due, sound) =
      elim (Option-cases (platform.perform c s.world).1) [
        | inl failed ↦ rw (owning, ask, failed, yields) (omega arith, (omega arith, sound))
        | inr (answer, answered) ↦
            let opened_one = record s {
              world = (platform.perform c s.world).0;
              log = (c, some answer) ∷ s.log;
            } in
            let now : Due (extra + w kind answer) opened_one =
              rw yields (omega arith, (omega arith, sound)) in
            rw (owning, ask, answered)
              (leaving-Due (record { kind = kind; handle = answer }) extra (body answer opened_one)
                (keeps answer opened_one now))
      ]
