-- ===== src/Compare/Reader/Progress.antt =====
-- How the loops of the class `JsonReader` of tools/metrics_compare.cpp move over the text.
use market_data_ingress.Base.{
  ℕ, zero, suc, ◌+◌, ◌-◌, ◌≤◌, ◌<◌, ◌≡◌, ◌||◌, [], ◌∷◌, Bytes, ◌==◌, ltb, length, take, drop,
  Result, ok, err, map_ok, arith, Bool-cases, Option-cases, Result-cases, List-cases, inl, inr,
}
use market_data_ingress.Json.{skip_space_from, skip_space, scalar_end_from, simple_escape}
use market_data_ingress.Compare.Reader.{
  Error, out_of_fuel, push_front, string_from, parse_string_at, parse_string, delimiter_from,
  matching_delimiter_at, skip_value_at, skip_value, all_hexadecimal,
}

-- An error that the source throws.
abbrev pub IsThrown : Error → Type 0
IsThrown out_of_fuel = ⊥
IsThrown _ = Unit {0}

-- A position that was read is `n` or behind it, and an error is one that the source throws.
abbrev AtLeast : ℕ → Result Error (Bytes × ℕ) → Type 0
AtLeast n (ok (value, after)) = n ≤ after
AtLeast n (err e) = IsThrown e

AtLeast-push :
    (c n m : ℕ) (r : Result Error (Bytes × ℕ))
    → n ≤ m
    → AtLeast m r
    → AtLeast n (map_ok (push_front c) r)
AtLeast-push c n m (ok (value, after)) below h = omega arith
AtLeast-push c n m (err e) below h = h

AtLeast-unicode :
    (n m : ℕ) (r : Result Error (Bytes × ℕ))
    → n ≤ m
    → AtLeast m r
    → AtLeast n (map_ok (λ read. push_front b'\\' (push_front b'u' read)) r)
AtLeast-unicode n m (ok (value, after)) below h = omega arith
AtLeast-unicode n m (err e) below h = h

skip_space_from-le : (rest : Bytes) (position : ℕ) → position ≤ skip_space_from rest position
unfolding skip_space_from
skip_space_from-le [] position = omega arith
skip_space_from-le (x ∷ rest) position = ground (arith, skip_space_from-le rest (position + 1))

scalar_end_from-le : (rest : Bytes) (cursor : ℕ) → cursor ≤ scalar_end_from rest cursor
unfolding scalar_end_from
scalar_end_from-le [] cursor = omega arith
scalar_end_from-le (x ∷ rest) cursor = ground (arith, scalar_end_from-le rest (cursor + 1))

string_from-AtLeast :
    (copied : ℕ) (rest : Bytes) (cursor : ℕ) → AtLeast cursor (string_from copied rest cursor)
unfolding string_from
string_from-AtLeast copied [] cursor = tt
string_from-AtLeast (suc copied) (c ∷ rest) cursor =
    AtLeast-push c cursor (cursor + 1) _ (omega arith)
      (string_from-AtLeast copied rest (cursor + 1))
string_from-AtLeast zero (c ∷ []) cursor = elim (Bool-cases (c == b'"')) [
  | inl quote ↦ rw quote (omega arith)
  | inr other ↦
      rw other
        (elim (Bool-cases (c == b'\\')) [ inl slash ↦ rw slash tt | inr plain ↦ rw plain tt ])
]
string_from-AtLeast zero (c ∷ e ∷ rest) cursor =
    let plain_read = string_from-AtLeast 0 (e ∷ rest) (cursor + 1) in
    let copied_read = string_from-AtLeast 4 rest (cursor + 2) in
    let escaped_read = string_from-AtLeast 0 rest (cursor + 2) in
    elim (Bool-cases (c == b'"')) [
      | inl quote ↦ rw (string_from, quote) (omega arith)
      | inr other ↦ elim (Bool-cases (c == b'\\')) [
        | inr plain ↦
            rw (string_from, other, plain)
              (AtLeast-push c cursor (cursor + 1) _ (omega arith) plain_read)
        | inl slash ↦ elim (Option-cases (simple_escape e)) [
          | inr (v, simple) ↦
              rw (string_from, other, slash, simple)
                (AtLeast-push v cursor (cursor + 2) _ (omega arith) escaped_read)
          | inl special ↦ elim (Bool-cases (e == b'u')) [
            | inr invalid ↦ rw (string_from, other, slash, special, invalid) tt
            | inl unicode ↦ elim (Bool-cases (ltb (length rest) 4)) [
              | inl short ↦ rw (string_from, other, slash, special, unicode, short) tt
              | inr enough ↦ elim (Bool-cases (all_hexadecimal (take 4 rest))) [
                | inr bad ↦ rw (string_from, other, slash, special, unicode, enough, bad) tt
                | inl digits ↦
                    rw (string_from, other, slash, special, unicode, enough, digits)
                      (AtLeast-unicode cursor (cursor + 2) _ (omega arith) copied_read)
              ]
            ]
          ]
        ]
      ]
    ]

parse_string_at-AtLeast :
    (rest : Bytes) (position : ℕ) → AtLeast (position + 1) (parse_string_at rest position)
unfolding parse_string_at
parse_string_at-AtLeast [] position = tt
parse_string_at-AtLeast (c ∷ rest) position = elim (Bool-cases (c == b'"')) [
  | inl quote ↦ rw (parse_string_at, quote) (string_from-AtLeast 0 rest (position + 1))
  | inr other ↦ rw (parse_string_at, other) tt
]

-- The same of a result that is a position.
abbrev Reaches : ℕ → Result Error ℕ → Type 0
Reaches n (ok after) = n ≤ after
Reaches n (err e) = IsThrown e

Reaches-le : (n m : ℕ) (r : Result Error ℕ) → n ≤ m → Reaches m r → Reaches n r
Reaches-le n m (ok after) below h = omega arith
Reaches-le n m (err e) below h = h

delimiter_from-Reaches :
    (skip : ℕ) (expected rest : Bytes) (cursor : ℕ)
    → Reaches cursor (delimiter_from skip expected rest cursor)
unfolding delimiter_from
delimiter_from-Reaches skip expected [] cursor = tt
delimiter_from-Reaches (suc skip) expected (c ∷ rest) cursor =
    Reaches-le cursor (cursor + 1) _ (omega arith)
      (delimiter_from-Reaches skip expected rest (cursor + 1))
delimiter_from-Reaches zero expected (c ∷ rest) cursor =
    let on : (skip : ℕ) (expected : Bytes)
        → Reaches cursor (delimiter_from skip expected rest (cursor + 1)) =
      λ skip expected.
        Reaches-le cursor (cursor + 1) _ (omega arith)
          (delimiter_from-Reaches skip expected rest (cursor + 1)) in
    elim (Bool-cases (c == b'"')) [
      | inl quote ↦ elim (Result-cases (parse_string_at (c ∷ rest) cursor)) [
        | inl (read, parsed) ↦
            rw (delimiter_from, quote, parsed) (on (read.1 - 1 - cursor) expected)
        | inr (e, failed) ↦
            rw (delimiter_from, quote, failed)
              (rw failed at (parse_string_at-AtLeast (c ∷ rest) cursor))
      ]
      | inr other ↦ elim (Bool-cases (c == b'{')) [
        | inl opens ↦ rw (delimiter_from, other, opens) (on 0 (b'}' ∷ expected))
        | inr not_object ↦ elim (Bool-cases (c == b'[')) [
          | inl opens ↦ rw (delimiter_from, other, not_object, opens) (on 0 (b']' ∷ expected))
          | inr not_array ↦ elim (Bool-cases (c == b'}' || c == b']')) [
            | inr onward ↦ rw (delimiter_from, other, not_object, not_array, onward) (on 0 expected)
            | inl closes ↦ elim (List-cases expected) [
              | inl unopened ↦
                  rw (delimiter_from, other, not_object, not_array, closes, unopened) tt
              | inr (innermost, outer, opened) ↦ elim (Bool-cases (c == innermost)) [
                | inr crossed ↦
                    rw (delimiter_from, other, not_object, not_array, closes, opened, crossed) tt
                | inl matched ↦ elim (List-cases outer) [
                  | inl last ↦
                      rw
                        (
                          delimiter_from, other, not_object, not_array, closes, opened, matched,
                          last,
                        )
                        (omega arith)
                  | inr (x, more, nested) ↦
                      rw
                        (
                          delimiter_from, other, not_object, not_array, closes, opened, matched,
                          nested,
                        )
                        (on 0 outer)
                ]
              ]
            ]
          ]
        ]
      ]
    ]

-- Behind a string that was read stands a later position.
pub parse_string-lt :
    (text : Bytes) (position : ℕ) (value : Bytes) (after : ℕ)
    → parse_string text position ≡ ok (value, after)
    → position < after
unfolding parse_string
parse_string-lt text position value after e =
    let reached : position + 1 ≤ after =
      rw e at (parse_string_at-AtLeast (drop position text) position) in
    omega arith

after_string :
    (n m : ℕ) (r : Result Error (Bytes × ℕ))
    → n ≤ m
    → AtLeast m r
    → Reaches n (map_ok (λ read. read.1) r)
after_string n m (ok (value, after)) below h = omega arith
after_string n m (err e) below h = h

behind : (n : ℕ) (r : Result Error ℕ) → Reaches n r → Reaches n (map_ok (λ close. close + 1) r)
behind n (ok close) h = omega arith
behind n (err e) h = h

matching_delimiter_at-Reaches :
    (rest : Bytes) (position : ℕ) → Reaches position (matching_delimiter_at rest position)
unfolding matching_delimiter_at
matching_delimiter_at-Reaches [] position = tt
matching_delimiter_at-Reaches (c ∷ rest) position = elim (Bool-cases (c == b'{')) [
  | inl opens ↦
      rw (matching_delimiter_at, opens)
        (Reaches-le position (position + 1) _ (omega arith)
          (delimiter_from-Reaches 0 (b'}' ∷ []) rest (position + 1)))
  | inr other ↦ elim (Bool-cases (c == b'[')) [
    | inl opens ↦
        rw (matching_delimiter_at, other, opens)
          (Reaches-le position (position + 1) _ (omega arith)
            (delimiter_from-Reaches 0 (b']' ∷ []) rest (position + 1)))
    | inr scalar ↦ rw (matching_delimiter_at, other, scalar) tt
  ]
]

skip_value_at-Reaches : (rest : Bytes) (start : ℕ) → Reaches start (skip_value_at rest start)
unfolding skip_value_at
skip_value_at-Reaches [] start = tt
skip_value_at-Reaches (c ∷ rest) start = elim (Bool-cases (c == b'"')) [
  | inl quote ↦
      rw (skip_value_at, quote)
        (after_string start (start + 1) _ (omega arith) (parse_string_at-AtLeast (c ∷ rest) start))
  | inr other ↦ elim (Bool-cases (c == b'{' || c == b'[')) [
    | inl opens ↦
        rw (skip_value_at, other, opens)
          (behind start _ (matching_delimiter_at-Reaches (c ∷ rest) start))
    | inr scalar ↦ elim (Bool-cases (scalar_end_from (c ∷ rest) start == start)) [
      | inl nothing ↦ rw (skip_value_at, other, scalar, nothing) tt
      | inr found ↦ rw (skip_value_at, other, scalar, found) (scalar_end_from-le (c ∷ rest) start)
    ]
  ]
]

pub skip_space-le : (text : Bytes) (position : ℕ) → position ≤ skip_space text position
unfolding skip_space
skip_space-le text position = skip_space_from-le (drop position text) position

pub skip_value-le :
    (text : Bytes) (position after : ℕ) → skip_value text position ≡ ok after → position ≤ after
unfolding skip_value
skip_value-le text position after e =
    let start = skip_space text position in
    let space = skip_space-le text position in
    let reached : start ≤ after = rw e at (skip_value_at-Reaches (drop start text) start) in
    omega arith

-- What reading a string throws, and what skipping a value throws.
pub parse_string-IsThrown :
    (text : Bytes) (position : ℕ) (e : Error) → parse_string text position ≡ err e → IsThrown e
unfolding parse_string
parse_string-IsThrown text position e failed =
    rw failed at (parse_string_at-AtLeast (drop position text) position)

pub skip_value-IsThrown :
    (text : Bytes) (position : ℕ) (e : Error) → skip_value text position ≡ err e → IsThrown e
unfolding skip_value
skip_value-IsThrown text position e failed =
    let start = skip_space text position in
    rw failed at (skip_value_at-Reaches (drop start text) start)
