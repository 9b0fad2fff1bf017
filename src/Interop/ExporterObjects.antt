-- ===== src/Interop/ExporterObjects.antt =====
-- The objects that src/benchmark.cpp writes, found again by `matching_container` and `object_at` of
-- tools/metrics_exporter.cpp.
use mathlib.Core.List.{append_assoc}
use market_data_ingress.Base.{
  ℕ, ◌+◌, ◌-◌, ◌<◌, false, [], ◌∷◌, ◌++◌, Bytes, ◌==◌, ◌≡◌, refl, ◌∙◌, ap, arith, length,
  length-append, take-length-append, drop-length-append, ok,
}
use market_data_ingress.Benchmark.Escape.{escape_json}
use market_data_ingress.Exporter.Scan.{matching_from, string_end_at, object_at}
use market_data_ingress.Interop.ExporterStrings.{string_end_from-escape_json}

-- The text between the braces of an object that the writer can produce: strings in its escapes,
-- objects, and characters that are neither quotes nor braces.
pub data Nested : Bytes → Type 0 where
  done : Nested []
  char :
      (c : ℕ) {rest : Bytes}
      → (c == b'"') ≡ false
      → (c == b'{') ≡ false
      → (c == b'}') ≡ false
      → Nested rest
      → Nested (c ∷ rest)
  text : (s : Bytes) {rest : Bytes} → Nested rest → Nested (b'"' ∷ (escape_json s ++ (b'"' ∷ rest)))
  object :
      {inner rest : Bytes} → Nested inner → Nested rest → Nested (b'{' ∷ (inner ++ (b'}' ∷ rest)))

matching_from_skip :
    (skipped rest : Bytes) (depth cursor : ℕ)
    → matching_from (length skipped) depth cursor (skipped ++ rest)
      ≡ matching_from 0 depth (cursor + length skipped) rest
unfolding matching_from
matching_from_skip [] rest depth cursor = ap (λ n. matching_from 0 depth n rest) (omega arith)
matching_from_skip (c ∷ skipped) rest depth cursor =
    matching_from_skip skipped rest depth (cursor + 1)
    ∙ ap (λ n. matching_from 0 depth n rest) (omega arith)

matching_from_quote :
    (rest : Bytes) (depth cursor end : ℕ)
    → string_end_at (b'"' ∷ rest) cursor ≡ ok end
    → matching_from 0 depth cursor (b'"' ∷ rest)
      ≡ matching_from (end - cursor) depth (cursor + 1) rest
unfolding matching_from
matching_from_quote rest depth cursor end e = rw e

matching_from_char :
    (c : ℕ) (rest : Bytes) (depth cursor : ℕ)
    → (c == b'"') ≡ false
    → (c == b'{') ≡ false
    → (c == b'}') ≡ false
    → matching_from 0 depth cursor (c ∷ rest) ≡ matching_from 0 depth (cursor + 1) rest
unfolding matching_from
matching_from_char c rest depth cursor quote opening closing = rw (quote, opening, closing)

matching_from_open :
    (rest : Bytes) (depth cursor : ℕ)
    → matching_from 0 depth cursor (b'{' ∷ rest) ≡ matching_from 0 (depth + 1) (cursor + 1) rest
unfolding matching_from
matching_from_open rest depth cursor = refl

matching_from_close :
    (rest : Bytes) (depth cursor : ℕ)
    → 0 < depth
    → matching_from 0 (depth + 1) cursor (b'}' ∷ rest) ≡ matching_from 0 depth (cursor + 1) rest
unfolding matching_from
matching_from_close rest depth cursor p =
    let e : depth + 1 - 1 ≡ depth = omega arith in
    let ne : (depth == 0) ≡ false = ground arith in rw e (rw ne)

matching_from_end : (rest : Bytes) (cursor : ℕ) → matching_from 0 1 cursor (b'}' ∷ rest) ≡ ok cursor
unfolding matching_from
matching_from_end rest cursor = refl

move :
    (rest : Bytes) (depth m n : ℕ)
    → m ≡ n
    → matching_from 0 depth m rest ≡ matching_from 0 depth n rest
move rest depth m n e = ap (λ k. matching_from 0 depth k rest) e

matching_from_text :
    (s rest : Bytes) (depth cursor : ℕ)
    → matching_from 0 depth cursor (b'"' ∷ (escape_json s ++ (b'"' ∷ rest)))
      ≡ matching_from 0 depth (cursor + (length (escape_json s) + 2)) rest
matching_from_text s rest depth cursor =
    let inside = escape_json s ++ (b'"' ∷ []) in
    let long : length inside ≡ length (escape_json s) + 1 =
      omega (arith, length-append (escape_json s) (b'"' ∷ [])) in
    let end = cursor + 1 + length (escape_json s) in
    let e : string_end_at (b'"' ∷ (escape_json s ++ (b'"' ∷ rest))) cursor ≡ ok end =
      unfold string_end_at in string_end_from-escape_json s rest (cursor + 1) in
    let count : end - cursor ≡ length inside = omega arith in
    matching_from_quote _ depth cursor end e
    ∙ rw (count, ← append_assoc (escape_json s) (b'"' ∷ []) rest)
        (matching_from_skip inside rest depth (cursor + 1) ∙ move rest depth _ _ (omega arith))

matching_from-Nested :
    {body : Bytes} (rest : Bytes) (depth cursor : ℕ)
    → Nested body
    → 0 < depth
    → matching_from 0 depth cursor (body ++ rest)
      ≡ matching_from 0 depth (cursor + length body) rest
matching_from-Nested rest depth cursor done p = move rest depth _ _ (omega arith)
matching_from-Nested rest depth cursor (char c {rest = more} quote opening closing n) p =
    matching_from_char c (more ++ rest) depth cursor quote opening closing
    ∙ matching_from-Nested rest depth (cursor + 1) n p
    ∙ move rest depth _ _ (omega arith)
matching_from-Nested rest depth cursor (text s {rest = more} n) p = rw append_assoc (
    matching_from_text s (more ++ rest) depth cursor
    ∙ matching_from-Nested rest depth (cursor + (length (escape_json s) + 2)) n p
    ∙ move rest depth _ _ (omega (arith, length-append (escape_json s) (b'"' ∷ more))))
matching_from-Nested rest depth cursor (object {inner} {rest = more} m n) p = rw append_assoc (
    matching_from_open (inner ++ (b'}' ∷ (more ++ rest))) depth cursor
    ∙ matching_from-Nested (b'}' ∷ (more ++ rest)) (depth + 1) (cursor + 1) m (omega arith)
    ∙ matching_from_close (more ++ rest) depth (cursor + 1 + length inner) p
    ∙ matching_from-Nested rest depth (cursor + 1 + length inner + 1) n p
    ∙ move rest depth _ _ (omega (arith, length-append inner (b'}' ∷ more))))

-- An object in the writer's text, wherever it stands, is found whole: braces and quotes inside its
-- strings do not mislead the search, and nested objects are passed over.
pub object_at-Nested :
    (before : Bytes) {body : Bytes} (after : Bytes)
    → Nested body
    → object_at (before ++ (b'{' ∷ (body ++ (b'}' ∷ after)))) (length before)
      ≡ ok (b'{' ∷ (body ++ (b'}' ∷ [])))
unfolding object_at
object_at-Nested before {body} after n =
    let close = length before + 1 + length body in
    let whole = b'{' ∷ (body ++ (b'}' ∷ [])) in
    let span : close - length before + 1 ≡ length whole =
      omega (arith, length-append body (b'}' ∷ [])) in
    let found : matching_from 0 1 (length before + 1) (body ++ (b'}' ∷ after)) ≡ ok close =
      matching_from-Nested (b'}' ∷ after) 1 (length before + 1) n (omega arith)
      ∙ matching_from_end after close in
    simp (drop-length-append, found)
      (rw (span, ← append_assoc body (b'}' ∷ []) after) (ap ok (take-length-append whole after)))
