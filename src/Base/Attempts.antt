-- ===== src/Base/Attempts.antt =====
-- A method over a state of type `S` that may return early with `false`: the state is kept either way.
use mathlib.Core.Path.{◌≡◌}
use mathlib.Core.Bool.{Bool, true, false}
use mathlib.Core.Option.{Option, none, some}

abbrev pub Attempt : Type 0 → Type 0 → Type 0
Attempt S A = S → S × Option A

-- What follows a step, by its result.
abbrev pub continue_with : {S A B : Type 0} → (A → Attempt S B) → S × Option A → S × Option B
continue_with f (s, none) = (s, none)
continue_with f (s, some a) = f a s

infixl 5 ◌>>=◌ ◌>>◌
abbrev pub ◌>>=◌ : {S A B : Type 0} → Attempt S A → (A → Attempt S B) → Attempt S B
◌>>=◌ m f s = continue_with f (m s)

abbrev pub ◌>>◌ : {S A B : Type 0} → Attempt S A → Attempt S B → Attempt S B
m >> k = m >>= λ _. k

abbrev pub done : {S A : Type 0} → A → Attempt S A
done a s = (s, some a)

-- `if (!b) { return false; }`
abbrev pub require : {S : Type 0} → Bool → Attempt S (Unit {0})
require true s = (s, some tt)
require false s = (s, none)

-- A pointer that must not be null.
abbrev pub present : {S A : Type 0} → Option A → Attempt S A
present pointer s = (s, pointer)

-- A value that is read off the state.
abbrev pub inspect : {S A : Type 0} → (S → A) → Attempt S A
inspect f s = (s, some (f s))

abbrev pub modify : {S : Type 0} → (S → S) → Attempt S (Unit {0})
modify f s = (f s, some tt)

abbrev pub is_some : {A : Type 0} → Option A → Bool
is_some none = false
is_some (some a) = true

-- The method's result, as a `bool`.
abbrev pub returned : {S A : Type 0} → S × Option A → S × Bool
returned (s, result) = (s, is_some result)

-- A method that does not return early, whatever state it starts in.
abbrev pub Runs : {S A : Type 0} → Attempt S A → Type 0
Runs {S = S} {A = A} m = (s : S) → (a : A) × (t : S) × (m s ≡ (t, some a))
