-- ===== src/Exporter/Scan/Fields.antt =====
-- What the position that `find_value` returns is, in terms of the document alone.
use market_data_ingress.Base.{
  ℕ, zero, suc, ◌+◌, ◌-◌, ◌%◌, ◌≤◌, ◌<◌, ◌≡◌, refl, sym, ◌∙◌, ap, [], ◌∷◌, ◌++◌, Bytes, true, false,
  ◌==◌, ==_iff, some, none, Option-cases, Bool-cases, inl, inr, length, length-drop, arith, drop,
  ltb, get_or,
}
use market_data_ingress.Json.{is_space, skip_space_from, skip_space}
use market_data_ingress.Exporter.Scan.{
  find, slash_count, value_after_key, quoted, find_value_from, position_of, find_value,
}
use market_data_ingress.Exporter.Scan.Find.{find-eq}

-- Only white space stands from `start` to just before `end`.
abbrev pub Spaces : Bytes → ℕ → ℕ → Type 0
Spaces document start end = (i : ℕ) → start ≤ i → i < end → is_space (get_or document i 0) ≡ true

-- `end` is the first place from `start` on without white space, or the end of the document.
abbrev pub FirstText : Bytes → ℕ → ℕ → Type 0
FirstText document start end =
    (start ≤ end)
    × Spaces document start end
    × (end < length document → is_space (get_or document end 0) ≡ false)

-- Exactly `n` backslashes in a row stand right before `position`.
abbrev pub Slashes : Bytes → ℕ → ℕ → Type 0
Slashes document position n =
    (n ≤ position)
    × ((i : ℕ) → position ≤ i + n → i < position → get_or document i 0 ≡ b'\\')
    × ((i : ℕ) → i + n + 1 ≡ position → (get_or document i 0 == b'\\') ≡ false)

get_or-drop :
    (position i : ℕ) (xs : Bytes) → get_or (drop position xs) i 0 ≡ get_or xs (i + position) 0
get_or-drop zero i xs = let same : i ≡ i + 0 = omega arith in ap (λ k. get_or xs k 0) same
get_or-drop (suc position) i [] = refl
get_or-drop (suc position) i (x ∷ xs) =
    let one_more : suc (i + position) ≡ i + suc position = omega arith in
    get_or-drop position i xs ∙ ap (λ k. get_or (x ∷ xs) k 0) one_more

clash : {v : ℕ} → none ≡ some v → ⊥
clash h = cc

more_spaces :
    (value : ℕ) (rest : Bytes) (n : ℕ)
    → is_space value ≡ true
    → ((i : ℕ) → i < n → is_space (get_or rest i 0) ≡ true)
    → (i : ℕ) → i < suc n
    → is_space (get_or (value ∷ rest) i 0) ≡ true
more_spaces value rest n space spaces zero below = space
more_spaces value rest n space spaces (suc i) below = spaces i (omega arith)

-- `skip_space_from` passes over as many places as have white space.
skip_space_from_lem :
    (rest : Bytes) (position : ℕ)
    → (n : ℕ) × (skip_space_from rest position ≡ position + n)
      × ((i : ℕ) → i < n → is_space (get_or rest i 0) ≡ true)
      × (n < length rest → is_space (get_or rest n 0) ≡ false)
unfolding skip_space_from
skip_space_from_lem [] position =
    (0, omega arith, λ i below. absurd (omega arith), λ below. absurd (omega arith))
skip_space_from_lem (value ∷ rest) position = elim (Bool-cases (is_space value)) [
  | inr text ↦
      (0, rw (skip_space_from, text) (omega arith), λ i below. absurd (omega arith), λ _. text)
  | inl space ↦
      let (n, there, spaces, stop) = skip_space_from_lem rest (position + 1) in
      (
        suc n,
        rw (skip_space_from, space) (there ∙ omega arith),
        more_spaces value rest n space spaces,
        λ below. stop (omega arith),
      )
]

skip_space-FirstText :
    (document : Bytes) (position : ℕ) → FirstText document position (skip_space document position)
unfolding skip_space
skip_space-FirstText document position =
    let (n, there, spaces, stop) = skip_space_from_lem (drop position document) position in
    let at : skip_space document position ≡ n + position = there ∙ omega arith in
    (
      omega arith,
      λ i low high.
          let place : i ≡ (i - position) + position = omega arith in
          ap (λ j. is_space (get_or document j 0)) place
          ∙ ap is_space (sym (get_or-drop position (i - position) document))
          ∙ spaces (i - position) (omega arith),
      λ below.
          ap (λ j. is_space (get_or document j 0)) at
          ∙ ap is_space (sym (get_or-drop position n document))
          ∙ stop (omega (arith, length-drop position document)),
    )

slash_count-Slashes :
    (document : Bytes) (position : ℕ) → Slashes document position (slash_count document position)
unfolding slash_count
slash_count-Slashes document zero =
    (omega arith, λ i _ below. absurd (omega arith), λ i same. absurd (omega arith))
slash_count-Slashes document (suc cursor) = elim (Bool-cases (get_or document cursor 0 == b'\\')) [
  | inr other ↦
      rw (slash_count, other)
        (
          omega arith,
          λ i low high. absurd (omega arith),
          λ i same.
              let place : i ≡ cursor = omega arith in
              ap (λ j. get_or document j 0 == b'\\') place ∙ other,
        )
  | inl slash ↦
      let (low, slashes, stop) = slash_count-Slashes document cursor in
      rw (slash_count, slash)
        (
          omega arith,
          λ i low high. elim (Bool-cases (i == cursor)) [
            | inl same ↦
                ap (λ j. get_or document j 0) ((==_iff i cursor).0 same)
                ∙ (==_iff (get_or document cursor 0) b'\\').0 slash
            | inr differs ↦ slashes i (omega arith) (ground arith)
          ],
          λ i same. stop i (omega arith),
        )
]

value_after_key_lem :
    (document needle : Bytes) (key_position value : ℕ)
    → value_after_key document needle key_position ≡ some value
    → let colon = skip_space document (key_position + length needle) in
      (slash_count document key_position % 2 ≡ 0)
      × (colon < length document)
      × (get_or document colon 0 ≡ b':')
      × (value ≡ skip_space document (colon + 1))
unfolding value_after_key
value_after_key_lem document needle key_position value e = ground arith

-- A key in a document, with its value: the quoted key stands at `key_position`, behind an even number of
-- backslashes, then a colon with nothing but white space between, and `value` is the first place
-- behind the colon without white space.
pub record IsField (document key : Bytes) (value : ℕ) : Type 0 where
  pub key_position : ℕ
  pub rest : Bytes
  pub slashes : ℕ
  pub colon : ℕ
  pub key_there : drop key_position document ≡ quoted key ++ rest
  pub slashes_there : Slashes document key_position slashes
  pub slashes_even : slashes % 2 ≡ 0
  pub behind_key : key_position + length (quoted key) ≤ colon
  pub spaces_there : Spaces document (key_position + length (quoted key)) colon
  pub colon_inside : colon < length document
  pub colon_there : get_or document colon 0 ≡ b':'
  pub value_there : FirstText document (colon + 1) value

accepted-IsField :
    (document key : Bytes) (search_from key_position value : ℕ)
    → find document (quoted key) search_from ≡ some key_position
    → value_after_key document (quoted key) key_position ≡ some value
    → IsField document key value
accepted-IsField document key search_from key_position value e accepted =
    let (rest, there) = find-eq document (quoted key) search_from key_position e in
    let (even, inside, is_colon, place) =
      value_after_key_lem document (quoted key) key_position value accepted in
    let after = key_position + length (quoted key) in
    let (low, spaces, _) = skip_space-FirstText document after in
    let text = skip_space-FirstText document (skip_space document after + 1) in
    record {
      key_position = key_position;
      rest = rest;
      slashes = slash_count document key_position;
      colon = skip_space document after;
      key_there = there;
      slashes_there = slash_count-Slashes document key_position;
      slashes_even = even;
      behind_key = low;
      spaces_there = spaces;
      colon_inside = inside;
      colon_there = is_colon;
      value_there = rw (place) text;
    }

find_value_from_sound :
    (fuel : ℕ) (document key : Bytes) (search_from value : ℕ)
    → position_of (find_value_from fuel document (quoted key) search_from) ≡ some value
    → IsField document key value
unfolding find_value_from
find_value_from_sound zero document key search_from value e =
    elim (Bool-cases (ltb search_from (length document))) [
      | inl before ↦ absurd (clash (rw (find_value_from, before) at e))
      | inr past ↦ absurd (clash (rw (find_value_from, past) at e))
    ]
find_value_from_sound (suc fuel) document key search_from value e =
    let needle = quoted key in
    elim (Bool-cases (ltb search_from (length document))) [
      | inr past ↦ absurd (clash (rw (find_value_from, past) at e))
      | inl before ↦ elim (Option-cases (find document needle search_from)) [
        | inl nowhere ↦ absurd (clash (rw (find_value_from, before, nowhere) at e))
        | inr (at, there) ↦ elim (Option-cases (value_after_key document needle at)) [
          | inl no_key ↦
              find_value_from_sound fuel document key (at + length needle) value
                (rw (find_value_from, before, there, no_key) at e)
          | inr (v, accepted) ↦
              let same : some v ≡ some value = rw (find_value_from, before, there, accepted) at e in
              accepted-IsField document key search_from at value there (accepted ∙ same)
        ]
      ]
    ]

-- A position that `find_value` returns is the place of the value of a field: the quoted key stands in
-- the document behind an even number of backslashes, a colon follows with nothing but white space
-- between, and the position is the first place behind the colon without white space.
pub find_value_sound :
    (document key : Bytes) (value : ℕ)
    → find_value document key ≡ some value
    → IsField document key value
unfolding find_value
find_value_sound document key value e =
    find_value_from_sound (suc (length document)) document key 0 value e
