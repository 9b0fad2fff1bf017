-- ===== src/Engine/Tensorrt/Volume/Exact.antt =====
-- `checked_volume` against the product of the dimensions.
use native.Mathlib.Nat.{le-div_iff_mul-le}
use market_data_ingress.Base.{
  ℕ, zero, suc, ◌+◌, ◌*◌, ◌/◌, ◌%◌, ◌^◌, ◌≤◌, ◌≡◌, ◌≢◌, refl, ap, sym, ◌∙◌, List, [], ◌∷◌, some,
  ltb, size_max, ℤ, pos, negsuc, All, arith, ◌↔◌, Bool-cases, inl, inr,
}
use market_data_ingress.Engine.Tensorrt.Volume.{volume_from, checked_volume}

abbrev pub IsPositive : ℤ → Type 0
IsPositive (pos n) = 1 ≤ n
IsPositive (negsuc n) = ⊥

abbrev pub magnitude : ℤ → ℕ
magnitude (pos n) = n
magnitude (negsuc n) = 0

abbrev pub product : List ℤ → ℕ
product [] = 1
product (dim ∷ dims) = magnitude dim * product dims

product_positive : (dims : List ℤ) → All IsPositive dims → 1 ≤ product dims
product_positive [] h = omega arith
product_positive (pos n ∷ dims) h = grind (arith, product_positive dims h.1)
product_positive (negsuc n ∷ dims) h = absurd h.0

bounded_front :
    (result n rest volume : ℕ)
    → 1 ≤ rest
    → result * (suc n * rest) ≡ volume
    → volume ≤ size_max
    → result * suc n ≤ size_max
bounded_front result n (suc rest) volume h same bound =
    let split : result * (suc n * suc rest) ≡ result * suc n + result * suc n * rest =
      grind arith in
    omega arith
bounded_front result n zero volume h same bound = absurd (omega arith)

volume_from_iff :
    (result : ℕ) (dims : List ℤ) (volume : ℕ)
    → 1 ≤ result
    → result ≤ size_max
    → (volume_from result dims ≡ some volume)
      ↔ (All IsPositive dims × (result * product dims ≡ volume) × (volume ≤ size_max))
unfolding volume_from
volume_from_iff result [] volume positive fits =
    (λ h. (tt, ground arith, ground arith), λ (_, same, bound). ap some (omega arith))
volume_from_iff result (negsuc n ∷ dims) volume positive fits = (λ h. cc, λ h. absurd h.0.0)
volume_from_iff result (pos zero ∷ dims) volume positive fits =
    (λ h. cc, λ h. absurd (omega (arith, h.0.0)))
volume_from_iff result (pos (suc n) ∷ dims) volume positive fits =
    elim (Bool-cases (ltb (size_max / suc n) result)) [
      | inl over ↦
          rw (volume_from, over)
            (
              λ h. cc,
              λ ((_, dims_positive), same, bound). absurd (
                  let positive_rest = product_positive dims dims_positive in
                  let room : result * suc n ≤ size_max =
                    bounded_front result n (product dims) volume positive_rest same bound in
                  let below = (le-div_iff_mul-le (omega arith)).1 room in ground arith),
            )
      | inr within ↦
          let room : result * suc n ≤ size_max =
            (le-div_iff_mul-le (omega arith)).0 (ground arith) in
          let kept : result * suc n % 2 ^ 64 ≡ result * suc n = omega arith in
          let grown : 1 ≤ result * suc n = grind arith in
          let rest = volume_from_iff (result * suc n) dims volume grown room in
          let regroup : result * suc n * product dims ≡ result * (suc n * product dims) =
            grind arith in
          rw (volume_from, within, kept)
            (
              λ h. let (p, same, bound) = rest.0 h in ((omega arith, p), sym regroup ∙ same, bound),
              λ ((_, p), same, bound). rest.1 (p, regroup ∙ same, bound),
            )
    ]

clash : (dim : ℤ) (dims : List ℤ) → (dim ∷ dims) ≢ []
clash dim dims e = cc e

-- A shape has a volume exactly when it has dimensions, all of them are positive, and their product
-- fits in 64 bits; the volume is that product.
pub checked_volume_iff :
    (dims : List ℤ) (volume : ℕ)
    → (checked_volume dims ≡ some volume)
      ↔ ((dims ≢ []) × All IsPositive dims × (product dims ≡ volume) × (volume ≤ size_max))
unfolding checked_volume
checked_volume_iff [] volume = (λ h. cc, λ h. absurd (h.0 refl))
checked_volume_iff (dim ∷ dims) volume =
    let from_one = volume_from_iff 1 (dim ∷ dims) volume (omega arith) (omega arith) in
    let one : 1 * product (dim ∷ dims) ≡ product (dim ∷ dims) = omega arith in
    (
      λ h. let (p, same, bound) = from_one.0 h in (λ e. clash dim dims e, p, sym one ∙ same, bound),
      λ (_, p, same, bound). from_one.1 (p, one ∙ same, bound),
    )
