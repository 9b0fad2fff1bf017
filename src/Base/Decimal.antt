-- ===== src/Base/Decimal.antt =====
-- `out << n` for an unsigned integer: decimal digits, the highest first.
use Prim.Native.Nat.{ℕ, zero, suc, ◌+◌, ◌/◌, ◌%◌}
use mathlib.Core.List.{List, [], ◌∷◌}
use mathlib.Core.Path.{◌≡◌, refl}
use market_data_ingress.Base.Tests.{ltb, if◌then◌else◌}

-- `digits` already stand behind those of `n`; the fuel exceeds the digits of `n`.
digits_onto : ℕ → ℕ → List ℕ → List ℕ
digits_onto zero n digits = digits
digits_onto (suc fuel) n digits =
    let rest = digits_onto fuel (n / 10) ((b'0' + n % 10) ∷ digits) in
    if ltb n 10 then (b'0' + n) ∷ digits else rest

unfoldable pub decimal : ℕ → List ℕ
unfolding digits_onto
decimal n = digits_onto (suc n) n []

decimal_example : decimal 9108 ≡ b'9' ∷ b'1' ∷ b'0' ∷ b'8' ∷ []
unfolding decimal
decimal_example = refl
