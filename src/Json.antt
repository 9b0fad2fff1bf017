-- ===== src/Json.antt =====
-- What both readers of the metrics JSON share: the white space that a position may stand before,
-- the end of a scalar, and the escapes of one letter. (tools/metrics_exporter.cpp and
-- tools/metrics_compare.cpp each hold a copy.)
use market_data_ingress.Base.{
  ℕ, ◌+◌, Bool, ◌||◌, Option, none, some, [], ◌∷◌, Bytes, ◌==◌, if◌then◌else◌, drop,
}

unfoldable pub is_space : ℕ → Bool
is_space value = value == b' ' || value == b'\n' || value == b'\r' || value == b'\t'

-- A loop over positions reads the document from the position on: `rest` is what stands there.
unfoldable pub skip_space_from : Bytes → ℕ → ℕ
skip_space_from [] position = position
skip_space_from (value ∷ rest) position =
    if is_space value then skip_space_from rest (position + 1) else position

unfoldable pub skip_space : Bytes → ℕ → ℕ
unfolding skip_space_from is_space
skip_space document position = skip_space_from (drop position document) position

unfoldable pub ends_scalar : ℕ → Bool
unfolding is_space
ends_scalar value = value == b',' || value == b'}' || value == b']' || is_space value

unfoldable pub scalar_end_from : Bytes → ℕ → ℕ
unfolding ends_scalar
scalar_end_from [] cursor = cursor
scalar_end_from (value ∷ rest) cursor =
    if ends_scalar value then cursor else scalar_end_from rest (cursor + 1)

unfoldable pub scalar_end : Bytes → ℕ → ℕ
unfolding scalar_end_from
scalar_end document position = scalar_end_from (drop position document) position

-- The cases of the `switch` on the character behind a backslash, but for `u`.
unfoldable pub simple_escape : ℕ → Option ℕ
simple_escape c =
    if c == b'"'
    then some b'"'
    else if c == b'\\'
    then some b'\\'
    else if c == b'/'
    then some b'/'
    else if c == b'b'
    then some 8
    else if c == b'f'
    then some 12
    else if c == b'n'
    then some b'\n'
    else if c == b'r'
    then some b'\r'
    else if c == b't'
    then some b'\t'
    else none
