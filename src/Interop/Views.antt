-- ===== src/Interop/Views.antt =====
-- How `escape_json` of src/benchmark.cpp writes one byte, by cases, for the proofs about its readers.
use market_data_ingress.Base.{
  ℕ, Bool, true, false, ◌||◌, ◌&&◌, not, some, [], ◌∷◌, ◌==◌, by_eq, Bool-cases, inl, inr, ltb, ◌<◌,
  ltb→lt, ◌≡◌, refl, arith,
}
use market_data_ingress.Json.{simple_escape}
use market_data_ingress.Benchmark.Escape.{escape_byte, hex_digit, hex4}

-- A control character with no letter of its own, which is written as `\u00XX`.
abbrev pub is_bare_control : ℕ → Bool
is_bare_control c = ltb c 0x20 && not (c == 8 || c == 12 || c == b'\n' || c == b'\r' || c == b'\t')

pub data EscapeView (c : ℕ) : Type 0 where
  letter :
      (e : ℕ)
      → escape_byte c ≡ b'\\' ∷ e ∷ []
      → simple_escape e ≡ some c
      → is_bare_control c ≡ false
      → EscapeView c
  unicode :
      escape_byte c ≡ b'\\' ∷ b'u' ∷ hex4 c → is_bare_control c ≡ true → c < 0x20 → EscapeView c
  plain :
      escape_byte c ≡ c ∷ []
      → (c == b'\\') ≡ false
      → (c == b'"') ≡ false
      → is_bare_control c ≡ false
      → EscapeView c

pub escape_view : (c : ℕ) → EscapeView c
unfolding escape_byte simple_escape
escape_view c = by_eq EscapeView b'"' c (letter b'"' refl refl refl) λ quote.
    by_eq EscapeView b'\\' c (letter b'\\' refl refl refl) λ slash.
      by_eq EscapeView 8 c (letter b'b' refl refl refl) λ backspace.
        by_eq EscapeView 12 c (letter b'f' refl refl refl) λ feed.
          by_eq EscapeView b'\n' c (letter b'n' refl refl refl) λ newline.
            by_eq EscapeView b'\r' c (letter b'r' refl refl refl) λ return.
              by_eq EscapeView b'\t' c (letter b't' refl refl refl) λ tab.
                elim (Bool-cases (ltb c 0x20)) [
                  | inl low ↦ unicode (ground arith) (ground arith) (ltb→lt _ _ low)
                  | inr high ↦ plain (ground arith) slash quote (ground arith)
                ]

-- Tests that hold of no hexadecimal digit.
pub hex_digit-ne :
    (n : ℕ) → n < 16 → ((hex_digit n == b'"') ≡ false) × ((hex_digit n == b'\\') ≡ false)
unfolding hex_digit
hex_digit-ne n h = ground arith
