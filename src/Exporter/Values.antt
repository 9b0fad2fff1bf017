-- ===== src/Exporter/Values.antt =====
-- tools/metrics_exporter.cpp, the values of a document by their keys.
use market_data_ingress.Base.{
  ℕ, ◌-◌, ◌^◌, Bool, true, false, not, ◌||◌, Option, none, some, Bytes, ◌==◌, if◌then◌else◌, equal,
  codes, length, Result, ok, err, ◌>>=◌, ◌>>◌, throw_if, map_ok, Double,
}
use market_data_ingress.Json.{skip_space, scalar_end}
use market_data_ingress.Exporter.Scan.{
  Error, expected_number, expected_boolean, expected_unsigned, substr, find_value, required_value,
  is_null, string_at, object_at,
}

unfoldable pub string_value : Bytes → Bytes → Result Error Bytes
unfolding required_value string_at
string_value document key = do position ← required_value document key; string_at document position

unfoldable pub optional_string_value : Bytes → Bytes → Result Error (Option Bytes)
unfolding find_value is_null string_at
optional_string_value document key = elim (find_value document key) [
  | none ↦ ok none
  | some position ↦
      let present = map_ok some (string_at document position) in
      if is_null document position then ok none else present
]

unfoldable pub object_value : Bytes → Bytes → Result Error Bytes
unfolding required_value object_at
object_value document key = do position ← required_value document key; object_at document position

unfoldable pub bool_at : Bytes → ℕ → Result Error Bool
unfolding equal substr skip_space
bool_at document raw_position =
    let position = skip_space document raw_position in
    if equal (substr document position 4) (codes "true")
    then ok true
    else if equal (substr document position 5) (codes "false")
    then ok false
    else err expected_boolean

unfoldable pub bool_value : Bytes → Bytes → Result Error Bool
unfolding required_value bool_at
bool_value document key = do position ← required_value document key; bool_at document position

module _ {D : Type 0} (d : Double D) where
  unfoldable pub number_at : Bytes → ℕ → Result Error D
  unfolding skip_space scalar_end substr
  number_at document raw_position =
      let position = skip_space document raw_position in
      let end = scalar_end document position in
      let token = substr document position (end - position) in
      let read = d.strtod token in
      if read.out_of_range || not (read.parsed == length token) || not (d.is_finite read.value)
      then err expected_number
      else ok read.value

  unfoldable pub number_value : Bytes → Bytes → Result Error D
  unfolding required_value number_at
  number_value document key = do position ← required_value document key; number_at document position

  unfoldable pub optional_number_value : Bytes → Bytes → Result Error (Option D)
  unfolding find_value is_null number_at
  optional_number_value document key = elim (find_value document key) [
    | none ↦ ok none
    | some position ↦
        let present = map_ok some (number_at document position) in
        if is_null document position then ok none else present
  ]

  -- `static_cast<double>` of the largest `uint64_t`
  abbrev pub u64_max : D
  u64_max = d.of_ℕ (2 ^ 64 - 1)

  -- The test that both readers make before they cast a number to `uint64_t`.
  unfoldable pub is_unsigned : D → Bool
  is_unsigned value =
      not (d.lt value (d.literal 0 0) || d.lt u64_max value || not (d.eq (d.floor value) value))

  unfoldable pub unsigned_value : Bytes → Bytes → Result Error ℕ
  unfolding number_value is_unsigned
  unsigned_value document key = do
    value ← number_value document key
    throw_if (not (is_unsigned value)) (expected_unsigned key)
    ok (d.to_ℕ value)
