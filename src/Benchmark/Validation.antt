-- ===== src/Benchmark/Validation.antt =====
-- src/benchmark.cpp, the identity check of `run_benchmark`.
pub mod Exact
use Prim.Native.Nat.{min}
use market_data_ingress.Base.{
  ℕ, zero, suc, ◌+◌, ◌-◌, Bool, List, [], ◌∷◌, ◌==◌, ltb, if◌then◌else◌, length, Double, Float,
}
use market_data_ingress.Engine.{OutputValidation}

module _ {F D : Type 0} (d : Double D) (f : Float F D) where
  unfoldable pub element_error : F → F → D
  element_error actual expected = d.abs (d.sub (f.widen actual) (f.widen expected))

  -- `std::max`
  unfoldable pub larger : D → D → D
  larger a b = if d.lt a b then b else a

  -- The loop over the compared elements: the largest error and the mismatches so far.
  unfoldable pub compare_from : ℕ → D → List F → List F → D → ℕ → D × ℕ
  unfolding element_error larger
  compare_from zero tolerance output input max_abs_error mismatches = (max_abs_error, mismatches)
  compare_from (suc n) tolerance [] input max_abs_error mismatches = (max_abs_error, mismatches)
  compare_from (suc n) tolerance (o ∷ output) [] max_abs_error mismatches =
      (max_abs_error, mismatches)
  compare_from (suc n) tolerance (o ∷ output) (i ∷ input) max_abs_error mismatches =
      let error = element_error o i in
      compare_from n tolerance output input (larger max_abs_error error)
        (if d.lt tolerance error then mismatches + 1 else mismatches)

  unfoldable pub validate : D → List F → List F → ℕ → OutputValidation D
  unfolding compare_from
  validate tolerance input output output_elements =
      let compared = min (length input) output_elements in
      let missing =
        if ltb output_elements (length input)
        then length input - output_elements
        else output_elements - length input in
      let (max_abs_error, mismatches) =
        compare_from compared tolerance output input (d.literal 0 0) missing in
      record {
        passed = mismatches == 0;
        compared_elements = compared;
        mismatches = mismatches;
        max_abs_error = max_abs_error;
      }
