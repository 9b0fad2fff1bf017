-- ===== src/Engine/Tensorrt/Session/Balance.antt =====
-- The account of resources: what the calls opened against what they closed and what is held.

use mathlib.Core.Path.{fun_ext}
use market_data_ingress.Base.{
  ℕ, ◌+◌, ◌≤◌, ◌≡◌, refl, ap, Option, none, some, Option-cases, List, [], ◌∷◌, All, ◌==◌, ==_iff,
  arith, inl, inr, Bool-cases,
}
use market_data_ingress.Engine.Tensorrt.Calls
use market_data_ingress.Engine.Tensorrt.Session.{
  index, Member, kind_of, Pointers, assign, S, issue, release, release_all, drain,
  destruction_order, destroy_resources,
}

-- A measure of resources. The accounts hold for each one, and so for each resource by itself.
abbrev pub Weight : Type 0
Weight = Calls.Kind → ℕ → ℕ

module _ (w : Weight) where
  abbrev pub weigh : Option Calls.Kind → Option ℕ → ℕ
  weigh none answer = 0
  weigh (some kind) none = 0
  weigh (some kind) (some handle) = w kind handle

  -- What the calls of a log opened, and what they closed.
  abbrev pub opened : List (Calls.Call × Option ℕ) → ℕ
  opened [] = 0
  opened ((c, answer) ∷ log) = weigh (Calls.yields c) answer + opened log

  abbrev pub closed_by : Calls.Call → ℕ
  closed_by (Calls.destroy resource) = w resource.kind resource.handle
  closed_by _ = 0

  abbrev pub closed : List (Calls.Call × Option ℕ) → ℕ
  closed [] = 0
  closed ((c, answer) ∷ log) = closed_by c + closed log

  -- At no time had more been closed than opened.
  abbrev pub Sound : List (Calls.Call × Option ℕ) → Type 0
  Sound [] = Unit {0}
  Sound ((c, answer) ∷ log) = (closed ((c, answer) ∷ log) ≤ opened ((c, answer) ∷ log)) × Sound log

  abbrev pub slot : Member → Option ℕ → ℕ
  slot m pointer = weigh (some (kind_of m)) pointer

  -- What the members hold.
  abbrev pub held : Pointers → ℕ
  held p =
      slot Member.runtime (p Member.runtime)
      + slot Member.engine (p Member.engine)
      + slot Member.context (p Member.context)
      + slot Member.stream (p Member.stream)
      + slot Member.device_start (p Member.device_start)
      + slot Member.device_stop (p Member.device_stop)
      + slot Member.input_device (p Member.input_device)
      + slot Member.output_device (p Member.output_device)
      + slot Member.input_host (p Member.input_host)
      + slot Member.output_host (p Member.output_host)
      + slot Member.graph_execution (p Member.graph_execution)

  pub held-assign :
      (p : Pointers) (m : Member) (value : Option ℕ)
      → held (assign p m value) + slot m (p m) ≡ held p + slot m value
  held-assign p Member.runtime value = omega arith
  held-assign p Member.engine value = omega arith
  held-assign p Member.context value = omega arith
  held-assign p Member.stream value = omega arith
  held-assign p Member.device_start value = omega arith
  held-assign p Member.device_stop value = omega arith
  held-assign p Member.input_device value = omega arith
  held-assign p Member.output_device value = omega arith
  held-assign p Member.input_host value = omega arith
  held-assign p Member.output_host value = omega arith
  held-assign p Member.graph_execution value = omega arith

  pub held-none : (p : Pointers) → ((m : Member) → p m ≡ none) → held p ≡ 0
  held-none p h = ap held (fun_ext h)

assign_self : (p : Pointers) (m : Member) (value : Option ℕ) → assign p m value m ≡ value
assign_self p m value = rw ((==_iff (index m) (index m)).1 refl) refl

assign-none : (p : Pointers) (m n : Member) → p n ≡ none → assign p m none n ≡ none
assign-none p m n empty = elim (Bool-cases (index m == index n)) [
  | inl same ↦ rw same refl
  | inr other ↦ rw other empty
]

abbrev pub Empty : List Member → Pointers → Type 0
Empty members p = All (λ m. p m ≡ none) members

module _ {F D : Type 0} (platform : Calls.Platform F D) (w : Weight) where
  -- Everything that was opened is closed, or held by a member, or part of `extra`, and nothing was
  -- closed that was not open.
  abbrev pub Owes : ℕ → S platform → Type 0
  Owes extra s = (opened w s.log ≡ closed w s.log + held w s.pointers + extra) × Sound w s.log

  pub issue-Owes :
      (c : Calls.Call) (extra : ℕ) (s : S platform)
      → Calls.yields c ≡ none
      → Owes (extra + closed_by w c) s
      → Owes extra (issue platform c s)
  unfolding issue
  issue-Owes c extra s yields (owes, sound) = rw (yields) (omega arith, (omega arith, sound))

  release-Owes :
      (m : Member) (extra : ℕ) (s : S platform) → Owes extra s → Owes extra (release platform m s)
  unfolding release
  release-Owes m extra s (owes, sound) = elim (Option-cases (s.pointers m)) [
    | inl empty ↦ rw (release, empty) (owes, sound)
    | inr (handle, there) ↦
        let cleared = held-assign w s.pointers m none in
        let here : slot w m (s.pointers m) ≡ w (kind_of m) handle = rw there refl in
        rw (release, there)
          (issue-Owes (Calls.destroy (record { kind = kind_of m; handle = handle })) extra
            (record s { pointers = assign s.pointers m none }) (unfold Calls.yields in refl)
            (omega arith, sound))
  ]

  release-pointer : (m : Member) (s : S platform) → (release platform m s).pointers m ≡ none
  unfolding release issue
  release-pointer m s = elim (Option-cases (s.pointers m)) [
    | inl empty ↦ rw (release, empty) empty
    | inr (handle, there) ↦ rw (release, there) (assign_self s.pointers m none)
  ]

  release-kept :
      (m n : Member) (s : S platform)
      → s.pointers n ≡ none
      → (release platform m s).pointers n ≡ none
  unfolding release issue
  release-kept m n s empty = elim (Option-cases (s.pointers m)) [
    | inl nothing ↦ rw (release, nothing) empty
    | inr (handle, there) ↦ rw (release, there) (assign-none s.pointers m n empty)
  ]

  release_all-Owes :
      (members : List Member) (extra : ℕ) (s : S platform)
      → Owes extra s
      → Owes extra (release_all platform members s)
  unfolding release_all
  release_all-Owes [] extra s owes = owes
  release_all-Owes (m ∷ members) extra s owes =
      release_all-Owes members extra (release platform m s) (release-Owes m extra s owes)

  release_all-kept :
      (members : List Member) (n : Member) (s : S platform)
      → s.pointers n ≡ none
      → (release_all platform members s).pointers n ≡ none
  unfolding release_all
  release_all-kept [] n s empty = empty
  release_all-kept (m ∷ members) n s empty =
      release_all-kept members n (release platform m s) (release-kept m n s empty)

  release_all-Empty :
      (members : List Member) (s : S platform)
      → Empty members (release_all platform members s).pointers
  unfolding release_all
  release_all-Empty [] s = tt
  release_all-Empty (m ∷ members) s = (
    release_all-kept members m (release platform m s) (release-pointer m s),
    release_all-Empty members (release platform m s),
  )

  drain-Owes : (extra : ℕ) (s : S platform) → Owes extra s → Owes extra (drain platform s)
  unfolding drain
  drain-Owes extra s (owes, sound) = elim (Option-cases (s.pointers Member.stream)) [
    | inl nothing ↦ rw (drain, nothing) (owes, sound)
    | inr (handle, there) ↦
        rw (drain, there)
          (issue-Owes (Calls.synchronize (some handle)) extra s (unfold Calls.yields in refl)
            (omega arith, sound))
  ]

  pub destroy_resources-Owes :
      (extra : ℕ) (s : S platform) → Owes extra s → Owes extra (destroy_resources platform s)
  unfolding destroy_resources
  destroy_resources-Owes extra s owes =
      release_all-Owes destruction_order extra (drain platform s) (drain-Owes extra s owes)

  -- `destroyResources` leaves no member set.
  pub destroy_resources-Empty :
      (s : S platform) → Empty destruction_order (destroy_resources platform s).pointers
  unfolding destroy_resources
  destroy_resources-Empty s = release_all-Empty destruction_order (drain platform s)

  pub destroy_resources-none :
      (s : S platform) (m : Member) → (destroy_resources platform s).pointers m ≡ none
  destroy_resources-none s m =
      let (
        start,
        (
          stop,
          (
            graph,
            (
              stream,
              (
                input_host,
                (output_host, (input_device, (output_device, (context, (engine, (runtime, _)))))),
              ),
            ),
          ),
        ),
      ) =
        destroy_resources-Empty s in
      elim m as (λ m. (destroy_resources platform s).pointers m ≡ none) [
        | Member.runtime ↦ runtime
        | Member.engine ↦ engine
        | Member.context ↦ context
        | Member.stream ↦ stream
        | Member.device_start ↦ start
        | Member.device_stop ↦ stop
        | Member.input_device ↦ input_device
        | Member.output_device ↦ output_device
        | Member.input_host ↦ input_host
        | Member.output_host ↦ output_host
        | Member.graph_execution ↦ graph
      ]
