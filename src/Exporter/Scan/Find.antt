-- ===== src/Exporter/Scan/Find.antt =====
-- `find` of a needle: where its first character occurs in nothing that stands before it, and where
-- what is found stands.
use market_data_ingress.Base.{
  ℕ, zero, suc, ◌+◌, ◌≤◌, ◌<◌, ◌≡◌, refl, ◌∙◌, ap, [], ◌∷◌, ◌++◌, Bytes, true, false, ◌==◌, ==_iff,
  some, none, Bool-cases, false, inl, inr, All, length, length-drop, arith, drop,
  drop-length-append, sym,
}
use market_data_ingress.Exporter.Scan.{starts_with, find_from, find}

-- No byte of a text is `x`.
abbrev pub Lacks : ℕ → Bytes → Type 0
Lacks x xs = All (λ c. (x == c) ≡ false) xs

starts_with-append : (needle rest : Bytes) → starts_with needle (needle ++ rest) ≡ true
unfolding starts_with
starts_with-append [] rest = refl
starts_with-append (x ∷ needle) rest = rw ((==_iff x x).1 refl) (starts_with-append needle rest)

pub find_from_first :
    (x : ℕ) (needle text rest : Bytes) (position : ℕ)
    → Lacks x text
    → find_from (x ∷ needle) (text ++ ((x ∷ needle) ++ rest)) position
      ≡ some (position + length text)
unfolding find_from
find_from_first x needle [] rest position h =
    rw (starts_with-append (x ∷ needle) rest) (ap some (omega arith))
find_from_first x needle (c ∷ text) rest position h =
    unfold starts_with in
    rw h.0 (find_from_first x needle text rest (position + 1) h.1 ∙ ap some (omega arith))

-- The needle is found right behind a text that lacks its first character.
pub find_first :
    (x : ℕ) (needle text rest : Bytes)
    → Lacks x text
    → find (text ++ ((x ∷ needle) ++ rest)) (x ∷ needle) 0 ≡ some (length text)
unfolding find
find_first x needle text rest h = find_from_first x needle text rest 0 h ∙ ap some (omega arith)

find_from_absent :
    (x : ℕ) (needle text : Bytes) (position : ℕ)
    → Lacks x text
    → find_from (x ∷ needle) text position ≡ none
unfolding find_from starts_with
find_from_absent x needle [] position h = refl
find_from_absent x needle (c ∷ text) position h =
    rw h.0 (find_from_absent x needle text (position + 1) h.1)

pub find_absent : (x : ℕ) (needle text : Bytes) → Lacks x text → find text (x ∷ needle) 0 ≡ none
unfolding find
find_absent x needle text h = find_from_absent x needle text 0 h

-- Where something is found, it stands at or behind the place that the search starts at, and before
-- the end.
find_from_bounds :
    (needle text : Bytes) (position found : ℕ)
    → find_from needle text position ≡ some found
    → (position ≤ found) × (found < position + length text)
unfolding find_from
find_from_bounds needle [] position found e = cc
find_from_bounds needle (c ∷ text) position found e =
    ground (arith, find_from_bounds needle text (position + 1) found)

pub find_lower :
    (document needle : Bytes) (position found : ℕ)
    → find document needle position ≡ some found
    → (position ≤ found) × (found < length document)
unfolding find
find_lower document needle position found e =
    let (low, high) = find_from_bounds needle (drop position document) position found e in
    omega (arith, length-drop position document)

starts_with-eq :
    (needle text : Bytes)
    → starts_with needle text ≡ true
    → (rest : Bytes) × (text ≡ needle ++ rest)
unfolding starts_with
starts_with-eq [] text h = (text, refl)
starts_with-eq (x ∷ needle) [] h = absurd cc
starts_with-eq (x ∷ needle) (y ∷ text) h =
    let same : x ≡ y = (==_iff x y).0 (ground arith) in
    let (rest, e) = starts_with-eq needle text (ground arith) in (rest, rw (same, e) refl)

-- What is found stands there: from its position on, the text is the needle and a rest.
find_from-eq :
    (needle text : Bytes) (position found : ℕ)
    → find_from needle text position ≡ some found
    → (before rest : Bytes) × (text ≡ before ++ (needle ++ rest))
      × (found ≡ position + length before)
unfolding find_from
find_from-eq needle [] position found e = absurd cc
find_from-eq needle (c ∷ text) position found e =
    elim (Bool-cases (starts_with needle (c ∷ text))) [
      | inl here ↦
          let (rest, split) = starts_with-eq needle (c ∷ text) here in
          let same : some position ≡ some found = rw (find_from, here) at e in
          let at : position ≡ found = cc in ([], rest, split, omega arith)
      | inr further ↦
          let (before, rest, split, place) =
            find_from-eq needle text (position + 1) found (rw (find_from, further) at e) in
          (c ∷ before, rest, ap (λ text. c ∷ text) split, omega arith)
    ]

drop-nil : (n : ℕ) → drop {A = ℕ} n [] ≡ []
drop-nil zero = refl
drop-nil (suc n) = refl

drop-drop : (m n : ℕ) (xs : Bytes) → drop n (drop m xs) ≡ drop (n + m) xs
drop-drop zero n xs = let same : n ≡ n + 0 = omega arith in ap (λ k. drop k xs) same
drop-drop (suc m) zero [] = sym (drop-nil (0 + suc m))
drop-drop (suc m) (suc n) [] = sym (drop-nil (suc n + suc m))
drop-drop (suc m) n (x ∷ xs) =
    let one_more : suc (n + m) ≡ n + suc m = omega arith in
    drop-drop m n xs ∙ ap (λ k. drop k (x ∷ xs)) one_more

pub find-eq :
    (document needle : Bytes) (position found : ℕ)
    → find document needle position ≡ some found
    → (rest : Bytes) × (drop found document ≡ needle ++ rest)
unfolding find
find-eq document needle position found e =
    let (before, rest, split, place) =
      find_from-eq needle (drop position document) position found e in
    let behind : drop (length before) (drop position document) ≡ needle ++ rest =
      rw split (drop-length-append before (needle ++ rest)) in
    (
      rest,
      let at : found ≡ length before + position = omega arith in
          ap (λ k. drop k document) at ∙ sym (drop-drop position (length before) document) ∙ behind,
    )
