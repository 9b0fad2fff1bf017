-- ===== src/Exporter/Labels/RoundTrip.antt =====
-- `escape_label` of tools/metrics_exporter.cpp against a reader of the Prometheus text format.
use mathlib.Core.List.{append_assoc}
use market_data_ingress.Base.{ℕ, [], ◌∷◌, ◌++◌, Bytes, ◌==◌, by_eq, ◌≡◌, refl, false, some, ◌∙◌}
use market_data_ingress.Exporter.Labels.{escape_label_byte, escape_label, read_label, with_first}

read_label_plain :
    (c : ℕ) (rest : Bytes)
    → (c == b'\\') ≡ false
    → (c == b'"') ≡ false
    → (c == b'\n') ≡ false
    → read_label (c ∷ rest) ≡ with_first c (read_label rest)
unfolding read_label
read_label_plain c [] slash quote newline = rw quote
read_label_plain c (e ∷ rest) slash quote newline = rw (quote, newline, slash)

read_label-escape_label_byte :
    (c : ℕ) (rest : Bytes)
    → read_label (escape_label_byte c ++ rest) ≡ with_first c (read_label rest)
unfolding escape_label_byte
read_label-escape_label_byte c rest = by_eq Reads b'\\' c (unfold read_label in refl) λ slash.
    by_eq Reads b'"' c (unfold read_label in refl) λ quote.
      by_eq Reads b'\n' c (unfold read_label in refl)
        λ newline. rw (slash, quote, newline) (read_label_plain c rest slash quote newline)
  where
    Reads : ℕ → Type 0
    Reads x = read_label (escape_label_byte x ++ rest) ≡ with_first x (read_label rest)

-- `read_label` gives back every label value that the exporter writes, and what stands behind the quote
-- that closes it.
pub read_label-escape_label :
    (s after : Bytes) → read_label (escape_label s ++ (b'"' ∷ after)) ≡ some (s, after)
unfolding escape_label
read_label-escape_label [] [] = unfold read_label in refl
read_label-escape_label [] (x ∷ after) = unfold read_label in refl
read_label-escape_label (c ∷ s) after =
    rw append_assoc (read_label-escape_label_byte c _ ∙ rw (read_label-escape_label s after))
