-- ===== src/Compare/Reader/Fuel.antt =====
-- The fuel of `find` of tools/metrics_compare.cpp.
use market_data_ingress.Base.{
  ℕ, zero, suc, Option, Result, ok, err, ◌+◌, ◌≤◌, ◌<◌, ◌≡◌, refl, false, not, ◌||◌, Bytes, ◌==◌,
  ltb, leb, equal, length, get_or, ◌>>=◌, arith, Bool-cases, Result-cases, inl, inr,
}
use market_data_ingress.Json.{skip_space}
use market_data_ingress.Compare.Reader.{Span, Error, parse_string, skip_value, find_from, find}
use market_data_ingress.Compare.Reader.Progress.{
  parse_string-lt, skip_space-le, skip_value-le, IsThrown, parse_string-IsThrown,
  skip_value-IsThrown,
}

-- The loop has come to its end: with a position, without one, or with an error of the source.
abbrev pub Ended : Result Error (Option ℕ) → Type 0
Ended (ok found) = Unit {0}
Ended (err e) = IsThrown e

-- With more fuel than what is left to read the loop ends.
find_from-Ended :
    (fuel : ℕ) (text : Bytes) (close : ℕ) (wanted : Bytes) (position : ℕ)
    → close ≤ length text
    → length text < position + fuel
    → Ended (find_from fuel text close wanted position)
unfolding find_from
find_from-Ended zero text close wanted position inside p =
    let past : ltb position close ≡ false = ground arith in rw (find_from, past) tt
find_from-Ended (suc f) text close wanted position inside p =
    elim (Bool-cases (ltb position close)) [
      | inr past ↦ rw (find_from, past) tt
      | inl before ↦ elim (Result-cases (parse_string text position)) [
        | inr (e, failed) ↦
            rw (find_from, before, failed) (parse_string-IsThrown text position e failed)
        | inl (read, parsed) ↦
            let colon = skip_space text read.1 in
            let value = skip_space text (colon + 1) in
            elim (Bool-cases (leb close colon || not (get_or text colon 0 == b':'))) [
              | inl no_colon ↦ rw (find_from, before, parsed, no_colon) tt
              | inr has_colon ↦ elim (Bool-cases (equal read.0 wanted)) [
                | inl found ↦ rw (find_from, before, parsed, has_colon, found) tt
                | inr other ↦ elim (Result-cases (skip_value text value)) [
                  | inr (e, failed) ↦
                      rw (find_from, before, parsed, has_colon, other, failed)
                        (skip_value-IsThrown text value e failed)
                  | inl (after, skipped) ↦
                      let next = skip_space text after in
                      let moved = parse_string-lt text position read.0 read.1 parsed in
                      let to_colon = skip_space-le text read.1 in
                      let to_value = skip_space-le text (colon + 1) in
                      let to_after = skip_value-le text value after skipped in
                      let to_next = skip_space-le text after in
                      let to_field = skip_space-le text (next + 1) in
                      elim (Bool-cases (next == close)) [
                        | inl last ↦
                            rw (find_from, before, parsed, has_colon, other, skipped, ◌>>=◌, last)
                              tt
                        | inr more ↦ elim (Bool-cases (get_or text next 0 == b',')) [
                          | inr no_comma ↦
                              rw
                                (
                                  find_from, before, parsed, has_colon, other, skipped, ◌>>=◌, more,
                                  no_comma,
                                )
                                tt
                          | inl comma ↦
                              rw
                                (
                                  find_from, before, parsed, has_colon, other, skipped, ◌>>=◌, more,
                                  comma,
                                )
                                (find_from-Ended f text close wanted (skip_space text (next + 1))
                                  inside (omega arith))
                        ]
                      ]
                ]
              ]
            ]
      ]
    ]

-- Two amounts of fuel that each exceed what is left to read give one result.
find_from_enough :
    (f g : ℕ) (text : Bytes) (close : ℕ) (wanted : Bytes) (position : ℕ)
    → close ≤ length text
    → length text < position + f
    → length text < position + g
    → find_from f text close wanted position ≡ find_from g text close wanted position
unfolding find_from
find_from_enough zero zero text close wanted position inside p q = refl
find_from_enough zero (suc g) text close wanted position inside p q =
    let past : ltb position close ≡ false = ground arith in rw (find_from, past) refl
find_from_enough (suc f) zero text close wanted position inside p q =
    let past : ltb position close ≡ false = ground arith in rw (find_from, past) refl
find_from_enough (suc f) (suc g) text close wanted position inside p q =
    elim (Bool-cases (ltb position close)) [
      | inr past ↦ rw (find_from, past) refl
      | inl before ↦ elim (Result-cases (parse_string text position)) [
        | inr (e, failed) ↦ rw (find_from, before, failed) refl
        | inl (read, parsed) ↦
            let colon = skip_space text read.1 in
            let value = skip_space text (colon + 1) in
            elim (Bool-cases (leb close colon || not (get_or text colon 0 == b':'))) [
              | inl no_colon ↦ rw (find_from, before, parsed, no_colon) refl
              | inr has_colon ↦ elim (Bool-cases (equal read.0 wanted)) [
                | inl found ↦ rw (find_from, before, parsed, has_colon, found) refl
                | inr other ↦ elim (Result-cases (skip_value text value)) [
                  | inr (e, failed) ↦ rw (find_from, before, parsed, has_colon, other, failed) refl
                  | inl (after, skipped) ↦
                      let next = skip_space text after in
                      let moved = parse_string-lt text position read.0 read.1 parsed in
                      let to_colon = skip_space-le text read.1 in
                      let to_value = skip_space-le text (colon + 1) in
                      let to_after = skip_value-le text value after skipped in
                      let to_next = skip_space-le text after in
                      let to_field = skip_space-le text (next + 1) in
                      let rest =
                        find_from_enough f g text close wanted (skip_space text (next + 1)) inside
                          (omega arith) (omega arith) in
                      elim (Bool-cases (next == close)) [
                        | inl last ↦
                            rw (find_from, before, parsed, has_colon, other, skipped, ◌>>=◌, last)
                              refl
                        | inr more ↦
                            rw
                              (
                                find_from, before, parsed, has_colon, other, skipped, ◌>>=◌, more,
                                rest,
                              )
                              refl
                      ]
                ]
              ]
            ]
      ]
    ]

-- The loop of `find` ends: for an object that ends in the text, the fuel of `find` is not used up, and
-- any amount above the length of the text gives the same result.
pub find_fuel :
    (fuel : ℕ) (text : Bytes) (object : Span) (wanted : Bytes)
    → object.close ≤ length text
    → length text < fuel
    → Ended (find text object wanted)
      × (find_from fuel text object.close wanted (skip_space text (object.start + 1))
          ≡ find text object wanted)
unfolding find
find_fuel fuel text object wanted inside enough =
    let start = skip_space text (object.start + 1) in
    (
      find_from-Ended (suc (length text)) text object.close wanted start inside (omega arith),
      find_from_enough fuel (suc (length text)) text object.close wanted start inside (omega arith)
          (omega arith),
    )
