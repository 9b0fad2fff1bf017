-- ===== src/Tests/Numbers.antt =====
-- Numbers for the examples: thousandths, in place of `double` and `float`.
use market_data_ingress.Base.{
  ℕ, ◌+◌, ◌-◌, ◌*◌, ◌/◌, ◌^◌, Bool, true, false, ◌&&◌, [], ◌∷◌, Bytes, ◌==◌, ltb, leb,
  if◌then◌else◌, decimal, Double, Float, Strtod,
}

abbrev is_digit : ℕ → Bool
is_digit c = leb b'0' c && leb c b'9'

-- The number at the front of a text, and how many digits it has.
abbrev digits : Bytes → ℕ → ℕ → Strtod ℕ
digits [] n parsed = record { value = n * 1000; parsed = parsed; out_of_range = false }
digits (c ∷ text) n parsed =
    let stop : Strtod ℕ = record { value = n * 1000; parsed = parsed; out_of_range = false } in
    let more = digits text (n * 10 + (c - b'0')) (parsed + 1) in if is_digit c then more else stop

abbrev pub natural : Double ℕ
natural = record {
  of_ℕ = λ n. n * 1000;
  literal = λ n k. n * 1000 / 10 ^ k;
  add = λ a b. a + b;
  sub = λ a b. a - b;
  mul = λ a b. a * b / 1000;
  div = λ a b. a * 1000 / b;
  abs = λ a. a;
  sqrt = λ a. a;
  floor = λ a. a / 1000 * 1000;
  ceil = λ a. (a + 999) / 1000 * 1000;
  to_ℕ = λ a. a / 1000;
  lt = ltb;
  le = leb;
  eq = λ a b. a == b;
  is_finite = λ a. true;
  strtod = λ text. digits text 0 0;
  show_general = λ precision a. decimal (a / 1000);
  show_fixed = λ precision a. decimal (a / 1000);
}

abbrev pub natural_float : Float ℕ ℕ
natural_float = record {
  of_ℕ = λ n. n * 1000;
  literal = λ n k. n * 1000 / 10 ^ k;
  add = λ a b. a + b;
  mul = λ a b. a * b / 1000;
  div = λ a b. a * 1000 / b;
  widen = λ a. a;
}
