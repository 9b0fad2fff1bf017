-- ===== src/Interop/ExporterStrings.antt =====
-- `escape_json` of src/benchmark.cpp read by `string_at` of tools/metrics_exporter.cpp.
use mathlib.Core.List.{append_assoc}
use market_data_ingress.Base.{
  ℕ, ◌+◌, ◌-◌, ◌/◌, ◌%◌, ◌<◌, false, [], ◌∷◌, ◌++◌, map, Bytes, ◌==◌, if◌then◌else◌, ◌≡◌, refl, ◌∙◌,
  ap, arith, length, length-append, take-length-append, drop-length-append, drop_next, ok, map_ok,
}
use market_data_ingress.Benchmark.Escape.{escape_byte, escape_json, hex4, hex_digit}
use market_data_ingress.Json.{simple_escape}
use market_data_ingress.Exporter.Scan.{unescape, string_end_from, string_at}
use market_data_ingress.Interop.Views.{
  EscapeView, letter, unicode, plain, escape_view, is_bare_control, hex_digit-ne,
}

-- The exporter reads a question mark in place of a control character that has no letter.
abbrev pub shown : ℕ → ℕ
shown c = if is_bare_control c then b'?' else c

unescape-plain :
    (c : ℕ) (rest : Bytes)
    → (c == b'\\') ≡ false
    → unescape 0 (c ∷ rest) ≡ map_ok (◌∷◌ c) (unescape 0 rest)
unfolding unescape
unescape-plain c [] h = rw h
unescape-plain c (e ∷ rest) h = rw h

unescape_unicode :
    (h i j k : ℕ) (rest : Bytes)
    → unescape 0 (b'\\' ∷ b'u' ∷ h ∷ i ∷ j ∷ k ∷ rest) ≡ map_ok (◌∷◌ b'?') (unescape 0 rest)
unfolding unescape simple_escape
unescape_unicode h i j k rest = ground arith

string_end_from_unicode :
    (h i : ℕ) (rest : Bytes) (cursor : ℕ)
    → h < 16
    → i < 16
    → string_end_from (b'\\' ∷ b'u' ∷ b'0' ∷ b'0' ∷ hex_digit h ∷ hex_digit i ∷ rest) false cursor
      ≡ string_end_from rest false (cursor + 6)
unfolding string_end_from
string_end_from_unicode h i rest cursor p q =
    rw ((hex_digit-ne h p).0, (hex_digit-ne h p).1, (hex_digit-ne i q).0, (hex_digit-ne i q).1)
      (ap (string_end_from rest false) (omega arith))

unescape-escape_byte :
    (c : ℕ) (rest : Bytes)
    → EscapeView c
    → unescape 0 (escape_byte c ++ rest) ≡ map_ok (◌∷◌ (shown c)) (unescape 0 rest)
unescape-escape_byte c rest (letter e written read bare) =
    rw (written, bare) (unfold unescape in rw read)
unescape-escape_byte c rest (unicode written bare low) =
    rw (written, bare) (unfold hex4 in unescape_unicode _ _ _ _ rest)
unescape-escape_byte c rest (plain written slash quote bare) =
    rw (written, bare) (unescape-plain c rest slash)

unescape-escape_json : (s : Bytes) → unescape 0 (escape_json s) ≡ ok (map shown s)
unfolding escape_json
unescape-escape_json [] = unfold unescape in refl
unescape-escape_json (c ∷ s) =
    unescape-escape_byte c (escape_json s) (escape_view c) ∙ rw (unescape-escape_json s)

string_end_from-escape_byte :
    (c : ℕ) (rest : Bytes) (cursor : ℕ)
    → EscapeView c
    → string_end_from (escape_byte c ++ rest) false cursor
      ≡ string_end_from rest false (cursor + length (escape_byte c))
string_end_from-escape_byte c rest cursor (letter e written read bare) =
    rw written (unfold string_end_from in ap (string_end_from rest false) (omega arith))
string_end_from-escape_byte c rest cursor (unicode written bare low) = rw written (
    unfold hex4 in
    string_end_from_unicode (c / 16) (c % 16) rest cursor (omega arith) (omega arith))
string_end_from-escape_byte c rest cursor (plain written slash quote bare) =
    rw written (unfold string_end_from in rw (quote, slash))

pub string_end_from-escape_json :
    (s rest : Bytes) (cursor : ℕ)
    → string_end_from (escape_json s ++ (b'"' ∷ rest)) false cursor
      ≡ ok (cursor + length (escape_json s))
unfolding escape_json
string_end_from-escape_json [] rest cursor = unfold string_end_from in (ap ok (omega arith))
string_end_from-escape_json (c ∷ s) rest cursor = rw append_assoc (
    string_end_from-escape_byte c _ cursor (escape_view c)
    ∙ string_end_from-escape_json s rest _
    ∙ ap ok (omega (arith, length-append (escape_byte c) (escape_json s))))

-- Wherever the writer puts a string in a document, the exporter reads it back from the position of
-- its opening quote, with a question mark for each control character that has no letter.
pub string_at-escape_json :
    (before s after : Bytes)
    → string_at (before ++ (b'"' ∷ (escape_json s ++ (b'"' ∷ after)))) (length before)
      ≡ ok (map shown s)
unfolding string_at
string_at-escape_json before s after =
    let text = escape_json s in
    let start = length before + 1 in
    let gap : start + length text - start ≡ length text = omega arith in
    simp (drop-length-append, drop_next, string_end_from-escape_json)
      (rw gap (rw take-length-append (unescape-escape_json s)))
