-- ===== src/Interop/ComparatorStrings.antt =====
-- `escape_json` of src/benchmark.cpp read by `parse_string` of tools/metrics_compare.cpp.
use mathlib.Core.List.{append_assoc}
use market_data_ingress.Base.{
  ℕ, suc, ◌+◌, ◌/◌, ◌%◌, ◌<◌, true, false, [], ◌∷◌, ◌++◌, Bytes, ◌==◌, if◌then◌else◌, ◌≡◌, refl,
  ◌∙◌, ap, arith, length, length-append, drop-length-append, ok, err, ltb, map_ok, Result,
}
use market_data_ingress.Benchmark.Escape.{escape_byte, escape_json, hex4, hex_digit}
use market_data_ingress.Json.{simple_escape}
use market_data_ingress.Compare.Reader.{
  Error, push_front, string_from, parse_string_at, parse_string, is_hexadecimal, all_hexadecimal,
}
use market_data_ingress.Interop.Views.{
  EscapeView, letter, unicode, plain, escape_view, is_bare_control,
}

-- The comparator keeps the escape of a control character that has no letter.
abbrev pub kept : ℕ → Bytes
kept c = if is_bare_control c then b'\\' ∷ b'u' ∷ hex4 c else c ∷ []

abbrev pub kept_all : Bytes → Bytes
kept_all [] = []
kept_all (c ∷ s) = kept c ++ kept_all s

abbrev push_all : Bytes → Bytes × ℕ → Bytes × ℕ
push_all front (value, after) = (front ++ value, after)

hex_digit-is_hexadecimal : (n : ℕ) → n < 16 → is_hexadecimal (hex_digit n) ≡ true
unfolding hex_digit is_hexadecimal
hex_digit-is_hexadecimal n h = ground arith

string_from-plain :
    (c : ℕ) (rest : Bytes) (cursor : ℕ)
    → (c == b'\\') ≡ false
    → (c == b'"') ≡ false
    → string_from 0 (c ∷ rest) cursor ≡ map_ok (push_front c) (string_from 0 rest (cursor + 1))
unfolding string_from
string_from-plain c [] cursor slash quote = rw (quote, slash)
string_from-plain c (e ∷ rest) cursor slash quote = rw (quote, slash)

push_four :
    (h i j k : ℕ) (r : Result Error (Bytes × ℕ))
    → map_ok
        (λ read. push_front b'\\' (push_front b'u' read))
        (map_ok
          (push_front h)
          (map_ok (push_front i) (map_ok (push_front j) (map_ok (push_front k) r))))
      ≡ map_ok (push_all (b'\\' ∷ b'u' ∷ h ∷ i ∷ j ∷ k ∷ [])) r
push_four h i j k (ok read) = refl
push_four h i j k (err e) = refl

string_from_unicode :
    (h i : ℕ) (rest : Bytes) (cursor : ℕ)
    → h < 16
    → i < 16
    → string_from 0 (b'\\' ∷ b'u' ∷ b'0' ∷ b'0' ∷ hex_digit h ∷ hex_digit i ∷ rest) cursor
      ≡ map_ok
          (push_all (b'\\' ∷ b'u' ∷ b'0' ∷ b'0' ∷ hex_digit h ∷ hex_digit i ∷ []))
          (string_from 0 rest (cursor + 6))
unfolding string_from simple_escape all_hexadecimal
string_from_unicode h i rest cursor p q =
    let enough : ltb (suc (suc (suc (suc (length rest))))) 4 ≡ false = ground arith in
    let there : cursor + 2 + 1 + 1 + 1 + 1 ≡ cursor + 6 = omega arith in
    rw (string_from, hex_digit-is_hexadecimal h p, hex_digit-is_hexadecimal i q, enough, there)
      (push_four b'0' b'0' (hex_digit h) (hex_digit i) (string_from 0 rest (cursor + 6)))

string_from-escape_byte :
    (c : ℕ) (rest : Bytes) (cursor : ℕ)
    → EscapeView c
    → string_from 0 (escape_byte c ++ rest) cursor
      ≡ map_ok (push_all (kept c)) (string_from 0 rest (cursor + length (escape_byte c)))
string_from-escape_byte c rest cursor (letter e written read bare) =
    rw (written, bare) (unfold string_from in rw read refl)
string_from-escape_byte c rest cursor (unicode written bare low) =
    rw (written, bare)
      (unfold hex4 in string_from_unicode (c / 16) (c % 16) rest cursor (omega arith) (omega arith))
string_from-escape_byte c rest cursor (plain written slash quote bare) =
    rw (written, bare) (string_from-plain c rest cursor slash quote)

string_from-escape_json :
    (s rest : Bytes) (cursor : ℕ)
    → string_from 0 (escape_json s ++ (b'"' ∷ rest)) cursor
      ≡ ok (kept_all s, cursor + length (escape_json s) + 1)
unfolding escape_json
string_from-escape_json [] [] cursor = unfold string_from in (ap (λ n. ok ([], n)) (omega arith))
string_from-escape_json [] (x ∷ rest) cursor =
    unfold string_from in (ap (λ n. ok ([], n)) (omega arith))
string_from-escape_json (c ∷ s) rest cursor = rw append_assoc (
    string_from-escape_byte c _ cursor (escape_view c)
    ∙ rw (string_from-escape_json s rest (cursor + length (escape_byte c))) (
        ap (λ n. ok (kept c ++ kept_all s, n))
          (omega (arith, length-append (escape_byte c) (escape_json s)))))

-- Wherever the writer puts a string in a document, the comparator reads it from the position of its
-- opening quote up to just behind its closing one; a control character that has no letter keeps its
-- escape.
pub parse_string-escape_json :
    (before s after : Bytes)
    → parse_string (before ++ (b'"' ∷ (escape_json s ++ (b'"' ∷ after)))) (length before)
      ≡ ok (kept_all s, length before + length (escape_json s) + 2)
unfolding parse_string parse_string_at
parse_string-escape_json before s after =
    rw (parse_string, drop-length-append)
      (unfold parse_string_at in
        string_from-escape_json s after (length before + 1)
        ∙ ap (λ n. ok (kept_all s, n)) (omega arith))
