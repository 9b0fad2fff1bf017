-- ===== src/Exporter/Scan/Keys.antt =====
-- The loop of `find_value`: that it ends.
use market_data_ingress.Base.{
  ℕ, zero, suc, ◌+◌, ◌<◌, ◌≡◌, refl, ap, Bytes, false, Option-cases, Bool-cases, inl, inr, length,
  arith, ltb,
}
use market_data_ingress.Exporter.Scan.{
  find, value_after_key, quoted, Search, found, absent, out_of_fuel, find_value_from, position_of,
  find_value,
}
use market_data_ingress.Exporter.Scan.Find.{find_lower}

-- The loop has come to its end.
abbrev pub Ended : Search → Type 0
Ended (found value) = Unit {0}
Ended absent = Unit {0}
Ended out_of_fuel = ⊥

find_value_from-Ended :
    (fuel : ℕ) (document needle : Bytes) (search_from : ℕ)
    → 0 < length needle
    → length document < search_from + fuel
    → Ended (find_value_from fuel document needle search_from)
unfolding find_value_from
find_value_from-Ended zero document needle search_from h p =
    let past : ltb search_from (length document) ≡ false = ground arith in
    rw (find_value_from, past) tt
find_value_from-Ended (suc fuel) document needle search_from h p =
    elim (Bool-cases (ltb search_from (length document))) [
      | inr past ↦ rw (find_value_from, past) tt
      | inl before ↦ elim (Option-cases (find document needle search_from)) [
        | inl nowhere ↦ rw (find_value_from, before, nowhere) tt
        | inr (key, e) ↦ elim (Option-cases (value_after_key document needle key)) [
          | inr (v, there) ↦ rw (find_value_from, before, e, there) tt
          | inl no_key ↦
              let (low, high) = find_lower document needle search_from key e in
              rw (find_value_from, before, e, no_key)
                (find_value_from-Ended fuel document needle (key + length needle) h (omega arith))
        ]
      ]
    ]

-- Two amounts of fuel that each exceed what is left to search give one result.
find_value_from_enough :
    (f g : ℕ) (document needle : Bytes) (search_from : ℕ)
    → 0 < length needle
    → length document < search_from + f
    → length document < search_from + g
    → find_value_from f document needle search_from ≡ find_value_from g document needle search_from
unfolding find_value_from
find_value_from_enough zero zero document needle search_from h p q = refl
find_value_from_enough zero (suc g) document needle search_from h p q =
    let past : ltb search_from (length document) ≡ false = ground arith in
    rw (find_value_from, past) refl
find_value_from_enough (suc f) zero document needle search_from h p q =
    let past : ltb search_from (length document) ≡ false = ground arith in
    rw (find_value_from, past) refl
find_value_from_enough (suc f) (suc g) document needle search_from h p q =
    elim (Bool-cases (ltb search_from (length document))) [
      | inr past ↦ rw (find_value_from, past) refl
      | inl before ↦ elim (Option-cases (find document needle search_from)) [
        | inl nowhere ↦ rw (find_value_from, before, nowhere) refl
        | inr (key, e) ↦ elim (Option-cases (value_after_key document needle key)) [
          | inr (v, there) ↦ rw (find_value_from, before, e, there) refl
          | inl no_key ↦
              let (low, high) = find_lower document needle search_from key e in
              rw (find_value_from, before, e, no_key)
                (find_value_from_enough f g document needle (key + length needle) h (omega arith)
                  (omega arith))
        ]
      ]
    ]

-- The loop of `find_value` ends: any amount of fuel above the length of the document is not used up, and
-- gives the position that `find_value` returns.
pub find_value_fuel :
    (fuel : ℕ) (document key : Bytes)
    → length document < fuel
    → Ended (find_value_from fuel document (quoted key) 0)
      × (position_of (find_value_from fuel document (quoted key) 0) ≡ find_value document key)
unfolding find_value quoted
find_value_fuel fuel document key enough = (
  find_value_from-Ended fuel document (quoted key) 0 (omega arith) (omega arith),
  ap position_of (
      find_value_from_enough fuel (suc (length document)) document (quoted key) 0 (omega arith)
        (omega arith) (omega arith)),
)
