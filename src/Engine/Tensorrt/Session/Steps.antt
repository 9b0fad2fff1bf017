-- ===== src/Engine/Tensorrt/Session/Steps.antt =====
-- How the steps of a method move the account of resources.
use market_data_ingress.Base.{
  ℕ, ◌+◌, ◌≡◌, refl, Bool, true, false, not, ◌&&◌, Option, none, some, Option-cases, List, [], ◌∷◌,
  All, ◌==◌, arith, inl, inr, ◌⊎◌,
}
use market_data_ingress.Base.Attempts.{Attempt, continue_with, present, require, returned}
use market_data_ingress.Engine.Tensorrt.Calls
use market_data_ingress.Engine.Tensorrt.Session.{
  index, Member, kind_of, Pointers, assign, S, call, calls, acquire, scoped, closing,
}
use market_data_ingress.Engine.Tensorrt.Session.Balance.{
  Weight, closed_by, Owes, Empty, held-assign, slot, issue-Owes,
}

-- Where a method ends: early, with `E`, or with a result and `Q`.
abbrev pub Ends : {T A : Type 0} → (T → Type 0) → (A → T → Type 0) → T × Option A → Type 0
Ends E Q (s, none) = E s
Ends E Q (s, some a) = Q a s

-- To split on how a step ended.
pub outcome :
    {T A : Type 0} (E : T → Type 0) (Q : A → T → Type 0) (r : T × Option A)
    → Ends E Q r
    → ((s : T) × (r ≡ (s, none)) × E s) ⊎ ((a : A) × (s : T) × (r ≡ (s, some a)) × Q a s)
outcome E Q (s, none) h = inl (s, refl, h)
outcome E Q (s, some a) h = inr (a, s, refl, h)

pub Ends-bind :
    {T A B : Type 0} (E : T → Type 0) (Q : A → T → Type 0) (R : B → T → Type 0) (r : T × Option A)
    (f : A → Attempt T B)
    → Ends E Q r
    → ((a : A) (s : T) → Q a s → Ends E R (f a s))
    → Ends E R (continue_with f r)
Ends-bind E Q R (s, none) f first next = first
Ends-bind E Q R (s, some a) f first next = next a s first

pub Ends-early :
    {T A : Type 0} (E G : T → Type 0) (Q : A → T → Type 0) (r : T × Option A)
    → Ends E Q r
    → ((s : T) → E s → G s)
    → Ends G Q r
Ends-early E G Q (s, none) h weaker = weaker s h
Ends-early E G Q (s, some a) h weaker = h

-- A pointer that is looked at.
pub present-then :
    {T A B : Type 0} (E : T → Type 0) (Q : B → T → Type 0) (pointer : Option A) (s : T)
    (k : A → T × Option B)
    → E s
    → ((a : A) → pointer ≡ some a → Ends E Q (k a))
    → Ends E Q (elim pointer as (λ _. T × Option B) [ none ↦ (s, none) | some a ↦ k a ])
present-then E Q none s k p next = p
present-then E Q (some a) s k p next = next a refl

-- Where nothing has to be told apart.
pub Ends-mono :
    {T A : Type 0} (P G : T → Type 0) (r : T × Option A)
    → Ends P (λ _. P) r
    → ((s : T) → P s → G s)
    → Ends G (λ _. G) r
Ends-mono P G (s, none) h weaker = weaker s h
Ends-mono P G (s, some a) h weaker = weaker s h

-- What a result comes with follows.
pub Ends-weaken :
    {T A : Type 0} (E : T → Type 0) (Q R : T → Type 0) (r : T × Option A)
    → Ends E (λ _. Q) r
    → ((s : T) → Q s → R s)
    → Ends E (λ _. R) r
Ends-weaken E Q R (s, none) h weaker = h
Ends-weaken E Q R (s, some a) h weaker = weaker s h

-- However it ends.
pub Ends_state : {T A : Type 0} (P : T → Type 0) (r : T × Option A) → Ends P (λ _. P) r → P r.0
Ends_state P (s, none) h = h
Ends_state P (s, some a) h = h

pub Ends-returned :
    {T A : Type 0} (P : T → Type 0) (r : T × Option A) → Ends P (λ _. P) r → P (returned r).0
Ends-returned P (s, none) h = h
Ends-returned P (s, some a) h = h

pub require-Ends :
    {T : Type 0} (P : T → Type 0) (b : Bool) (s : T) → P s → Ends P (λ _. P) (require b s)
require-Ends P true s p = p
require-Ends P false s p = p

pub present-Ends :
    {T A : Type 0} (P : T → Type 0) (a : Option A) (s : T) → P s → Ends P (λ _. P) (present a s)
present-Ends P none s p = p
present-Ends P (some a) s p = p

abbrev pub lacks : Member → List Member → Bool
lacks m [] = true
lacks m (n ∷ members) = not (index m == index n) && lacks m members

Empty-assign :
    (p : Pointers) (m : Member) (value : Option ℕ) (members : List Member)
    → lacks m members ≡ true
    → Empty members p
    → Empty members (assign p m value)
Empty-assign p m value [] apart empty = tt
Empty-assign p m value (n ∷ members) apart empty =
    let other : (index m == index n) ≡ false = ground arith in
    (rw other empty.0, Empty-assign p m value members (ground arith) empty.1)

module _ {F D : Type 0} (platform : Calls.Platform F D) (w : Weight) where
  -- The account, while these members are still to be set.
  abbrev pub Ready : ℕ → List Member → S platform → Type 0
  Ready extra members s = Owes platform w extra s × Empty members s.pointers

  -- A call that neither yields nor closes a resource.
  pub call-Ready :
      (c : Calls.Call) (extra : ℕ) (members : List Member) (s : S platform)
      → Calls.yields c ≡ none
      → closed_by w c ≡ 0
      → Ready extra members s
      → Ends (Ready extra members) (λ _. Ready extra members) (call platform c s)
  unfolding call
  call-Ready c extra members s yields closes ((owes, sound), empty) =
      elim (Option-cases (platform.perform c s.world).1) [
        | inl failed ↦ rw (call, failed, yields) ((omega arith, (omega arith, sound)), empty)
        | inr (answer, answered) ↦
            rw (call, answered, yields) ((omega arith, (omega arith, sound)), empty)
      ]

  pub calls-Ready :
      (cs : List Calls.Call) (extra : ℕ) (members : List Member) (s : S platform)
      → All (λ c. (Calls.yields c ≡ none) × (closed_by w c ≡ 0)) cs
      → Ready extra members s
      → Ends (Ready extra members) (λ _. Ready extra members) (calls platform cs s)
  unfolding calls
  calls-Ready [] extra members s neutral ready = ready
  calls-Ready (c ∷ cs) extra members s ((yields, closes), neutral) ready =
      Ends-bind (Ready extra members) (λ _. Ready extra members) (λ _. Ready extra members)
        (call platform c s) (λ _. calls platform cs)
        (call-Ready c extra members s yields closes ready)
        (λ _ t. calls-Ready cs extra members t neutral)

  pub acquire-Ready :
      (m : Member) (c : Calls.Call) (extra : ℕ) (members : List Member) (s : S platform)
      → Calls.yields c ≡ some (kind_of m)
      → closed_by w c ≡ 0
      → lacks m members ≡ true
      → Ready extra (m ∷ members) s
      → Ends (Owes platform w extra) (λ _. Ready extra members) (acquire platform m c s)
  unfolding acquire call
  acquire-Ready m c extra members s yields closes apart ((owes, sound), (empty, rest)) =
      elim (Option-cases (platform.perform c s.world).1) [
        | inl failed ↦ rw (acquire, call, failed, yields) (omega arith, (omega arith, sound))
        | inr (answer, answered) ↦
            let grown = held-assign w s.pointers m (some answer) in
            let free : slot w m (s.pointers m) ≡ 0 = rw empty refl in
            rw (acquire, call, answered, yields)
              (
                (omega arith, (omega arith, sound)),
                Empty-assign s.pointers m (some answer) members apart rest,
              )
      ]

  closing-Owes :
      {A : Type 0} (resource : Calls.Resource) (extra : ℕ) (r : S platform × Option A)
      → Ends
          (Owes platform w (extra + w resource.kind resource.handle))
          (λ _. Owes platform w (extra + w resource.kind resource.handle))
          r
      → Ends (Owes platform w extra) (λ _. Owes platform w extra) (closing platform resource r)
  closing-Owes resource extra (s, none) owes =
      issue-Owes platform w (Calls.destroy resource) extra s (unfold Calls.yields in refl) owes
  closing-Owes resource extra (s, some a) owes =
      issue-Owes platform w (Calls.destroy resource) extra s (unfold Calls.yields in refl) owes

  pub scoped-Owes :
      {A : Type 0} (kind : Calls.Kind) (c : Calls.Call) (body : ℕ → Attempt (S platform) A)
      (extra : ℕ) (members : List Member) (s : S platform)
      → Calls.yields c ≡ some kind
      → closed_by w c ≡ 0
      → ((handle : ℕ) (t : S platform)
          → Ready (extra + w kind handle) members t
          → Ends
              (Owes platform w (extra + w kind handle))
              (λ _. Owes platform w (extra + w kind handle))
              (body handle t))
      → Ready extra members s
      → Ends (Owes platform w extra) (λ _. Owes platform w extra) (scoped platform kind c body s)
  unfolding scoped call
  scoped-Owes kind c body extra members s yields closes keeps ((owes, sound), empty) =
      elim (Option-cases (platform.perform c s.world).1) [
        | inl failed ↦ rw (scoped, call, failed, yields) (omega arith, (omega arith, sound))
        | inr (answer, answered) ↦
            let opened_one = (record s {
              world = (platform.perform c s.world).0;
              log = (c, some answer) ∷ s.log;
            }) in
            let now : Owes platform w (extra + w kind answer) opened_one =
              rw yields (omega arith, (omega arith, sound)) in
            rw (scoped, call, answered)
              (closing-Owes (record { kind = kind; handle = answer }) extra (body answer opened_one)
                (keeps answer opened_one (now, empty)))
      ]
