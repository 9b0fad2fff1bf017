-- ===== src/Engine/Tensorrt/Volume.antt =====
-- src/engine_tensorrt.cpp, `checked_volume`.
pub mod Exact
use market_data_ingress.Base.{
  ℕ, zero, suc, ◌*◌, ◌/◌, ◌%◌, ◌^◌, List, [], ◌∷◌, Option, none, some, ltb, if◌then◌else◌, size_max,
  ℤ, pos, negsuc,
}

-- The loop over the dimensions.
unfoldable pub volume_from : ℕ → List ℤ → Option ℕ
volume_from result [] = some result
volume_from result (negsuc n ∷ dims) = none
volume_from result (pos zero ∷ dims) = none
volume_from result (pos (suc n) ∷ dims) =
    let rest = volume_from (result * suc n % 2 ^ 64) dims in
    if ltb (size_max / suc n) result then none else rest

unfoldable pub checked_volume : List ℤ → Option ℕ
unfolding volume_from
checked_volume [] = none
checked_volume (dim ∷ dims) = volume_from 1 (dim ∷ dims)

-- `sizeof(float)` times a number of elements, as a `size_t`
unfoldable pub bytes_of : ℕ → ℕ
bytes_of elements = elements * 4 % 2 ^ 64
