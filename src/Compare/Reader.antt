-- ===== src/Compare/Reader.antt =====
-- tools/metrics_compare.cpp, the class `JsonReader`. Its `text_` is the argument `text`.
pub mod Fuel
pub mod Progress
use market_data_ingress.Base.{
  ℕ, zero, suc, ◌+◌, ◌-◌, Bool, true, false, not, ◌&&◌, ◌||◌, Option, none, some, [], ◌∷◌, Bytes,
  ◌==◌, if◌then◌else◌, ltb, leb, equal, codes, length, take, drop, get_or, Result, ok, err, ◌>>=◌,
  ◌>>◌, throw_if, map_ok, or_throw, Double,
}
use market_data_ingress.Json.{skip_space, scalar_end_from, simple_escape}

pub data Error : Type 0 where
  trailing_content : Error
  missing_field : Bytes → Error
  expected_object expected_boolean expected_number expected_colon expected_comma : Error
  expected_string unterminated_escape incomplete_unicode invalid_unicode invalid_escape : Error
  unterminated_string : Error
  expected_container mismatched_delimiter unterminated_container : Error
  missing_value missing_scalar : Error
  null_scope : Bytes → Error
  expected_unsigned : Bytes → Error
  -- Not thrown by the source: the loop of `find` had no fuel left.
  out_of_fuel : Error

pub record Span : Type 0 where
  pub start : ℕ
  pub close : ℕ

unfoldable pub is_hexadecimal : ℕ → Bool
is_hexadecimal digit =
    leb b'0' digit && leb digit b'9'
    || leb b'a' digit && leb digit b'f'
    || leb b'A' digit && leb digit b'F'

unfoldable pub all_hexadecimal : Bytes → Bool
unfolding is_hexadecimal
all_hexadecimal [] = true
all_hexadecimal (digit ∷ digits) = is_hexadecimal digit && all_hexadecimal digits

abbrev pub push_front : ℕ → Bytes × ℕ → Bytes × ℕ
push_front c (value, after) = (c ∷ value, after)

-- The loop of `parse_string`, with `rest` at `cursor`: the value from there on, and the position
-- behind the closing quote. A unicode escape is kept as it stands: the first argument counts the
-- digits still to copy.
unfoldable pub string_from : ℕ → Bytes → ℕ → Result Error (Bytes × ℕ)
unfolding all_hexadecimal
string_from copied [] cursor = err unterminated_string
string_from (suc copied) (c ∷ rest) cursor =
    map_ok (push_front c) (string_from copied rest (cursor + 1))
string_from zero (c ∷ []) cursor =
    if c == b'"'
    then ok ([], cursor + 1)
    else if c == b'\\'
    then err unterminated_escape
    else err unterminated_string
string_from zero (c ∷ e ∷ rest) cursor =
    let plain = map_ok (push_front c) (string_from 0 (e ∷ rest) (cursor + 1)) in
    let unicode =
      map_ok (λ read. push_front b'\\' (push_front b'u' read)) (string_from 4 rest (cursor + 2)) in
    let escape : Result Error (Bytes × ℕ) = elim (simple_escape e) [
      | some value ↦ map_ok (push_front value) (string_from 0 rest (cursor + 2))
      | none ↦
          if e == b'u'
          then if ltb (length rest) 4
            then err incomplete_unicode
            else if all_hexadecimal (take 4 rest)
            then unicode
            else err invalid_unicode
          else err invalid_escape
    ] in
    if c == b'"' then ok ([], cursor + 1) else if c == b'\\' then escape else plain

unfoldable pub parse_string_at : Bytes → ℕ → Result Error (Bytes × ℕ)
unfolding string_from simple_escape
parse_string_at [] position = err expected_string
parse_string_at (c ∷ rest) position =
    if c == b'"' then string_from 0 rest (position + 1) else err expected_string

unfoldable pub parse_string : Bytes → ℕ → Result Error (Bytes × ℕ)
unfolding parse_string_at
parse_string text position = parse_string_at (drop position text) position

-- The loop of `matching_delimiter`: `expected` holds the closing delimiters, the innermost first. A
-- string is jumped over: the first argument counts the characters up to its closing quote.
unfoldable pub delimiter_from : ℕ → Bytes → Bytes → ℕ → Result Error ℕ
delimiter_from skip expected [] cursor = err unterminated_container
delimiter_from (suc skip) expected (c ∷ rest) cursor =
    delimiter_from skip expected rest (cursor + 1)
delimiter_from zero expected (c ∷ rest) cursor =
    let inside = parse_string_at (c ∷ rest) cursor >>= λ read.
    delimiter_from (read.1 - 1 - cursor) expected rest (cursor + 1) in
    let in_object = delimiter_from 0 (b'}' ∷ expected) rest (cursor + 1) in
    let in_array = delimiter_from 0 (b']' ∷ expected) rest (cursor + 1) in
    let onward = delimiter_from 0 expected rest (cursor + 1) in
    let closing : Result Error ℕ = elim expected [
      | [] ↦ err mismatched_delimiter
      | innermost ∷ outer ↦
          let outside = delimiter_from 0 outer rest (cursor + 1) in
          if not (c == innermost)
          then err mismatched_delimiter
          else elim outer [ [] ↦ ok cursor | _ ∷ _ ↦ outside ]
    ] in
    if c == b'"'
    then inside
    else if c == b'{'
    then in_object
    else if c == b'['
    then in_array
    else if c == b'}' || c == b']'
    then closing
    else onward

unfoldable pub matching_delimiter_at : Bytes → ℕ → Result Error ℕ
unfolding delimiter_from
matching_delimiter_at [] position = err expected_container
matching_delimiter_at (opening ∷ rest) position =
    if opening == b'{'
    then delimiter_from 0 (b'}' ∷ []) rest (position + 1)
    else if opening == b'['
    then delimiter_from 0 (b']' ∷ []) rest (position + 1)
    else err expected_container

-- `skip_value` behind the white space.
unfoldable pub skip_value_at : Bytes → ℕ → Result Error ℕ
skip_value_at [] start = err missing_value
skip_value_at (c ∷ rest) start =
    let cursor = scalar_end_from (c ∷ rest) start in
    if c == b'"'
    then map_ok (λ read. read.1) (parse_string_at (c ∷ rest) start)
    else if c == b'{' || c == b'['
    then map_ok (λ close. close + 1) (matching_delimiter_at (c ∷ rest) start)
    else if cursor == start
    then err missing_scalar
    else ok cursor

unfoldable pub skip_value : Bytes → ℕ → Result Error ℕ
skip_value text position =
    let start = skip_space text position in skip_value_at (drop start text) start

unfoldable pub object_at : Bytes → ℕ → Result Error Span
object_at text position =
    let start = skip_space text position in
    if not (ltb start (length text) && get_or text start 0 == b'{')
    then err expected_object
    else map_ok (λ close. record { start = start; close = close })
        (matching_delimiter_at (drop start text) start)

unfoldable pub root_object : Bytes → Result Error Span
root_object text = do
  root ← object_at text (skip_space text 0)
  throw_if (not (skip_space text (root.close + 1) == length text)) trailing_content
  ok root

-- The loop of `find`, on fuel: each round moves `position` on.
unfoldable pub find_from : ℕ → Bytes → ℕ → Bytes → ℕ → Result Error (Option ℕ)
find_from zero text close wanted position = if ltb position close then err out_of_fuel else ok none
find_from (suc fuel) text close wanted position =
    let round : Result Error (Option ℕ) = parse_string text position >>= λ read.
    let colon = skip_space text read.1 in
    throw_if (leb close colon || not (get_or text colon 0 == b':')) expected_colon
    >> (let value = skip_space text (colon + 1) in
        let onward : Result Error (Option ℕ) = skip_value text value >>= λ after.
        let next = skip_space text after in
        elim (next == close) [
          | true ↦ ok none
          | false ↦
              throw_if (not (get_or text next 0 == b',')) expected_comma
              >> find_from fuel text close wanted (skip_space text (next + 1))
        ] in
        if equal read.0 wanted then ok (some value) else onward) in
    if ltb position close then round else ok none

unfoldable pub find : Bytes → Span → Bytes → Result Error (Option ℕ)
unfolding find_from
find text object wanted =
    find_from (suc (length text)) text object.close wanted (skip_space text (object.start + 1))

unfoldable pub required : Bytes → Span → Bytes → Result Error ℕ
required text object key = do found ← find text object key; or_throw found (missing_field key)

unfoldable pub is_null : Bytes → ℕ → Bool
unfolding equal
is_null text position = equal (take 4 (drop (skip_space text position) text)) (codes "null")

unfoldable pub string_at : Bytes → ℕ → Result Error Bytes
string_at text position = map_ok (λ read. read.0) (parse_string text (skip_space text position))

unfoldable pub bool_at : Bytes → ℕ → Result Error Bool
unfolding equal
bool_at text position =
    let start = skip_space text position in
    if equal (take 4 (drop start text)) (codes "true")
    then ok true
    else if equal (take 5 (drop start text)) (codes "false")
    then ok false
    else err expected_boolean

unfoldable pub number_at : {D : Type 0} → Double D → Bytes → ℕ → Result Error D
number_at d text position = do
  let start = skip_space text position
  end ← skip_value text start
  let token = take (end - start) (drop start text)
  let read = d.strtod token
  throw_if (read.out_of_range || not (read.parsed == length token) || not (d.is_finite read.value))
      expected_number
  ok read.value
