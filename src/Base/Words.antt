-- ===== src/Base/Words.antt =====
-- Machine words: the largest `size_t`, and signed numbers.
use Prim.Native.Nat.{ℕ, ◌-◌, ◌^◌}

abbrev pub size_max : ℕ
size_max = 2 ^ 64 - 1

-- A signed integer; `negsuc n` is -(n + 1).
pub data ℤ : Type 0 where
  pos : ℕ → ℤ
  negsuc : ℕ → ℤ
