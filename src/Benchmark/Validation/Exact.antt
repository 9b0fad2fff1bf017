-- ===== src/Benchmark/Validation/Exact.antt =====
-- What the identity check of src/benchmark.cpp decides.
use Prim.Native.Nat.{min}
use market_data_ingress.Base.{
  ℕ, zero, suc, ◌+◌, ◌-◌, ◌≤◌, ◌≡◌, refl, sym, Bool, true, false, List, [], ◌∷◌, ◌==◌, ==_iff, ltb,
  if◌then◌else◌, ◌≢◌, ◌↔◌, length, arith, Double, Float, Bool-cases, inl, inr,
}
use market_data_ingress.Benchmark.Validation.{element_error, larger, compare_from, validate}

module _ {F D : Type 0} (d : Double D) (f : Float F D) (tolerance : D) where
  -- No error of the outputs exceeds the tolerance, in the sense of the comparison that the code makes.
  abbrev pub NoneExceeds : List F → List F → Type 0
  NoneExceeds [] input = Unit
  NoneExceeds (o ∷ output) [] = Unit
  NoneExceeds (o ∷ output) (i ∷ input) =
      (d.lt tolerance (element_error d f o i) ≡ false) × NoneExceeds output input

  compare_from_grows :
      (n : ℕ) (output input : List F) (worst : D) (mismatches : ℕ)
      → mismatches ≤ (compare_from d f n tolerance output input worst mismatches).1
  unfolding compare_from
  compare_from_grows zero output input worst mismatches = omega arith
  compare_from_grows (suc n) [] input worst mismatches = omega arith
  compare_from_grows (suc n) (o ∷ output) [] worst mismatches = omega arith
  compare_from_grows (suc n) (o ∷ output) (i ∷ input) worst mismatches =
      elim (Bool-cases (d.lt tolerance (element_error d f o i))) [
        | inl e ↦
            let step =
              compare_from_grows n output input (larger d f worst (element_error d f o i))
                (mismatches + 1) in
            rw (compare_from, e) (omega arith)
        | inr e ↦
            rw (compare_from, e)
              (compare_from_grows n output input (larger d f worst (element_error d f o i))
                mismatches)
      ]

  compare_from_iff :
      (n : ℕ) (output input : List F) (worst : D) (mismatches : ℕ)
      → length input ≡ n
      → length output ≡ n
      → ((compare_from d f n tolerance output input worst mismatches).1 ≡ 0)
        ↔ ((mismatches ≡ 0) × NoneExceeds output input)
  unfolding compare_from
  compare_from_iff zero [] [] worst mismatches i o = (λ none. (none, tt), λ (none, _). none)
  compare_from_iff zero output (x ∷ input) worst mismatches i o = cc
  compare_from_iff zero (x ∷ output) input worst mismatches i o = cc
  compare_from_iff (suc n) [] input worst mismatches i o = cc
  compare_from_iff (suc n) (x ∷ output) [] worst mismatches i o = cc
  compare_from_iff (suc n) (o ∷ output) (i ∷ input) worst mismatches length_i length_o =
      let next = larger d f worst (element_error d f o i) in
      elim (Bool-cases (d.lt tolerance (element_error d f o i))) [
        | inl e ↦
            let grows = compare_from_grows n output input next (mismatches + 1) in
            rw (compare_from, e)
              (
                λ none. absurd (
                    let none_left : (compare_from d f n tolerance output input next
                          (mismatches + 1)).1
                        ≡ 0 =
                      none in
                    omega arith),
                λ (none, exceeds). cc exceeds.0,
              )
        | inr e ↦
            let rest =
              compare_from_iff n output input next mismatches (omega arith) (omega arith) in
            rw (compare_from, e)
              (
                λ none. ((rest.0 none).0, (refl, (rest.0 none).1)),
                λ (none, exceeds). rest.1 (none, exceeds.1),
              )
      ]

  clash : {b : Bool} → b ≡ true → b ≡ false → ⊥
  clash t f = ground arith

  gap : (a b : ℕ) → a ≡ b → (if ltb b a then a - b else b - a) ≡ 0
  gap a b e = ground arith

  gap_positive : (a b : ℕ) → a ≢ b → 1 ≤ (if ltb b a then a - b else b - a)
  gap_positive a b e = ground arith

  -- For a buffer as long as the count of its elements, the check passes exactly when there are as
  -- many outputs as inputs and the tolerance is below no error.
  pub validate_iff :
      (input output : List F)
      → ((validate d f tolerance input output (length output)).passed ≡ true)
        ↔ ((length output ≡ length input) × NoneExceeds output input)
  unfolding validate
  validate_iff input output = elim (Bool-cases (length output == length input)) [
    | inl same ↦
        let lengths = (==_iff (length output) (length input)).0 same in
        let exact =
          compare_from_iff (length output) output input (d.literal 0 0) 0 (sym lengths) refl in
        let no_gap = gap (length input) (length output) (sym lengths) in
        let shorter : min (length input) (length output) ≡ length output = omega arith in
        let counted =
          ==_iff (compare_from d f (length output) tolerance output input (d.literal 0 0) 0).1 0 in
        rw (validate, shorter, no_gap)
          (
            λ passes. (lengths, (exact.0 (counted.0 passes)).1),
            λ (same, none). counted.1 (exact.1 (refl, none)),
          )
    | inr differ ↦
        let grows =
          compare_from_grows (min (length input) (length output)) output input (d.literal 0 0) (
            if ltb (length output) (length input)
            then length input - length output
            else length output - length input) in
        let far =
          gap_positive (length input) (length output)
            (λ e. absurd (clash ((==_iff (length output) (length input)).1 (sym e)) differ)) in
        (
          λ passes. absurd (
              let none =
                (==_iff (validate d f tolerance input output (length output)).mismatches 0).0
                  passes in
              omega arith),
          λ (same, none). absurd (clash ((==_iff (length output) (length input)).1 same) differ),
        )
  ]
