-- ===== src/Cli/Keeps.antt =====
-- What the loop over `argv` keeps of its options.
use market_data_ingress.Base.{
  ◌≡◌, refl, sym, Option, none, some, List, [], ◌∷◌, Bytes, Result, Result-cases, ok, err, inl, inr,
}
use market_data_ingress.Cli.{Action, stop, flag, value, unknown, parse_from, parse_arguments}

-- An action that keeps a property of the options.
abbrev pub Keeps : {E O X : Type 0} → (O → Type 0) → Action E O X → Type 0
Keeps {O = O} P (stop x) = Unit {0}
Keeps {O = O} P (flag set) = (options : O) → P options → P (set options)
Keeps {O = O} P (value assign) =
    (text : Bytes) (options assigned : O)
    → P options
    → assign text options ≡ ok assigned
    → P assigned
Keeps {O = O} P unknown = Unit {0}

clash_err : {E A : Type 0} {e : E} {a : A} → err e ≡ ok a → ⊥
clash_err h = cc

module _ {E O X : Type 0} (classify : Bytes → Action E O X) (no_value unknown_option : Bytes → E)
    (P : O → Type 0) (keeps : (argument : Bytes) → Keeps P (classify argument)) where
  -- The option that waits for its value keeps the property too.
  abbrev Awaits : Option (Bytes × (Bytes → O → Result E O)) → Type 0
  Awaits none = Unit {0}
  Awaits (some (argument, assign)) =
      (text : Bytes) (options assigned : O)
      → P options
      → assign text options ≡ ok assigned
      → P assigned

  parse_from_keeps :
      (waiting : Option (Bytes × (Bytes → O → Result E O))) (arguments : List Bytes)
      (options last : O)
      → Awaits waiting
      → P options
      → parse_from classify no_value unknown_option waiting options arguments ≡ ok (inr last)
      → P last
  unfolding parse_from
  parse_from_keeps none [] options last awaits holds h =
      let same : options ≡ last = cc in rw (sym same) holds
  parse_from_keeps (some (argument, assign)) [] options last awaits holds h = absurd cc
  parse_from_keeps (some (argument, assign)) (text ∷ rest) options last awaits holds h =
      elim (Result-cases (assign text options)) [
        | inl (assigned, done) ↦
            parse_from_keeps none rest assigned last tt (awaits text options assigned holds done)
              (rw (done, parse_from) at h)
        | inr (thrown, failed) ↦ absurd (clash_err (rw (failed, parse_from) at h))
      ]
  parse_from_keeps none (argument ∷ rest) options last awaits holds h =
      (elim (classify argument)
          as (λ action. classify argument ≡ action → Keeps P action → P last) [
            | stop x ↦ λ is kept. absurd (cc (rw (is, parse_from) at h))
            | flag set ↦ λ is kept.
                parse_from_keeps none rest (set options) last tt (kept options holds)
                  (rw (is, parse_from) at h)
            | value assign ↦ λ is kept.
                parse_from_keeps (some (argument, assign)) rest options last kept holds
                  (rw (is, parse_from) at h)
            | unknown ↦ λ is kept. absurd (clash_err (rw (is, parse_from) at h))
          ])
        refl (keeps argument)

  -- A property that the options start with, and that every action keeps, holds of the options at the
  -- end.
  pub parse_arguments_keeps :
      (arguments : List Bytes) (options last : O)
      → P options
      → parse_arguments classify no_value unknown_option options arguments ≡ ok (inr last)
      → P last
  unfolding parse_arguments
  parse_arguments_keeps arguments options last holds h =
      parse_from_keeps none arguments options last tt holds h
