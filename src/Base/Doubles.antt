-- ===== src/Base/Doubles.antt =====
-- What the programs use of `double`: arithmetic, comparisons, casts, `strtod` and the stream formats.
-- Floating point is the hardware's and the C++ library's, so it is an interface that the models take.
use Prim.Native.Nat.{ℕ}
use mathlib.Core.Bool.{Bool}
use mathlib.Core.List.{List}

-- What `strtod` reports: the value, how many characters it read, and whether `errno` is `ERANGE`.
pub record Strtod (D : Type 0) : Type 0 where
  pub value : D
  pub parsed : ℕ
  pub out_of_range : Bool

pub record Double (D : Type 0) : Type 0 where
  -- `static_cast<double>` of an unsigned integer
  pub of_ℕ : ℕ → D
  -- the literal that stands for the first number divided by 10 to the power of the second
  pub literal : ℕ → ℕ → D
  pub add : D → D → D
  pub sub : D → D → D
  pub mul : D → D → D
  pub div : D → D → D
  pub abs : D → D
  pub sqrt : D → D
  pub floor : D → D
  pub ceil : D → D
  -- `static_cast` to an unsigned 64-bit integer
  pub to_ℕ : D → ℕ
  pub lt : D → D → Bool
  pub le : D → D → Bool
  pub eq : D → D → Bool
  pub is_finite : D → Bool
  pub strtod : List ℕ → Strtod D
  -- `out << x` at a `setprecision` in the default format, and under `std::fixed`
  pub show_general : ℕ → D → List ℕ
  pub show_fixed : ℕ → D → List ℕ

-- What they use of `float`, and its conversion to `double`.
pub record Float (F D : Type 0) : Type 0 where
  pub of_ℕ : ℕ → F
  pub literal : ℕ → ℕ → F
  pub add : F → F → F
  pub mul : F → F → F
  pub div : F → F → F
  pub widen : F → D
