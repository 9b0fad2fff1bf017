-- ===== src/Exporter/Labels.antt =====
-- tools/metrics_exporter.cpp, `escape_label`, and how the Prometheus text format reads a label value.
pub mod RoundTrip
use market_data_ingress.Base.{ℕ, [], ◌∷◌, ◌++◌, Bytes, ◌==◌, if◌then◌else◌, Option, none, some}

-- What the loop of `escape_label` appends for one character.
unfoldable pub escape_label_byte : ℕ → Bytes
escape_label_byte character =
    if character == b'\\'
    then b'\\' ∷ b'\\' ∷ []
    else if character == b'"'
    then b'\\' ∷ b'"' ∷ []
    else if character == b'\n'
    then b'\\' ∷ b'n' ∷ []
    else character ∷ []

unfoldable pub escape_label : Bytes → Bytes
unfolding escape_label_byte
escape_label [] = []
escape_label (character ∷ value) = escape_label_byte character ++ escape_label value

abbrev pub with_first : ℕ → Option (Bytes × Bytes) → Option (Bytes × Bytes)
with_first x none = none
with_first x (some (value, left)) = some (x ∷ value, left)

-- The value of a label whose opening quote has been read, and what stands behind its closing quote.
-- The format knows three escapes, and a raw newline ends the line, so it stands in no value.
unfoldable pub read_label : Bytes → Option (Bytes × Bytes)
read_label [] = none
read_label (c ∷ []) = if c == b'"' then some ([], []) else none
read_label (c ∷ e ∷ rest) =
    let after : Option (Bytes × Bytes) = read_label (e ∷ rest) in
    let behind : Option (Bytes × Bytes) = read_label rest in
    if c == b'"'
    then some ([], e ∷ rest)
    else if c == b'\n'
    then none
    else if c == b'\\'
    then if e == b'\\'
      then with_first b'\\' behind
      else if e == b'"'
      then with_first b'"' behind
      else if e == b'n'
      then with_first b'\n' behind
      else none
    else with_first c after
