-- ===== src/Benchmark/Escape.antt =====
-- src/benchmark.cpp, `escape_json`.
use market_data_ingress.Base.{
  ℕ, ◌+◌, ◌-◌, ◌/◌, ◌%◌, [], ◌∷◌, ◌++◌, Bytes, ◌==◌, if◌then◌else◌, ltb, ◌≡◌, refl, codes,
}

-- A lower-case digit of `std::hex`.
unfoldable pub hex_digit : ℕ → ℕ
hex_digit n = if ltb n 10 then b'0' + n else b'a' + (n - 10)

-- A number below 256 in hexadecimal, filled with zeros to four places.
unfoldable pub hex4 : ℕ → Bytes
unfolding hex_digit
hex4 c = b'0' ∷ b'0' ∷ hex_digit (c / 16) ∷ hex_digit (c % 16) ∷ []

-- What the loop of `escape_json` writes for one byte.
unfoldable pub escape_byte : ℕ → Bytes
unfolding hex4
escape_byte c =
    if c == b'"'
    then b'\\' ∷ b'"' ∷ []
    else if c == b'\\'
    then b'\\' ∷ b'\\' ∷ []
    else if c == 8
    then b'\\' ∷ b'b' ∷ []
    else if c == 12
    then b'\\' ∷ b'f' ∷ []
    else if c == b'\n'
    then b'\\' ∷ b'n' ∷ []
    else if c == b'\r'
    then b'\\' ∷ b'r' ∷ []
    else if c == b'\t'
    then b'\\' ∷ b't' ∷ []
    else if ltb c 0x20
    then b'\\' ∷ b'u' ∷ hex4 c
    else c ∷ []

unfoldable pub escape_json : Bytes → Bytes
unfolding escape_byte
escape_json [] = []
escape_json (c ∷ value) = escape_byte c ++ escape_json value

escape_json_control : escape_json (b'a' ∷ 0x1f ∷ b'\n' ∷ []) ≡ codes "a\\u001f\\n"
unfolding escape_json
escape_json_control = refl
