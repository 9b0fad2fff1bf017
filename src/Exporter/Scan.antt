-- ===== src/Exporter/Scan.antt =====
-- tools/metrics_exporter.cpp, the scanner: positions in a document, strings, objects and keys.
pub mod Find
pub mod Keys
pub mod Fields
use market_data_ingress.Base.{
  ℕ, zero, suc, ◌+◌, ◌-◌, ◌%◌, Bool, true, false, not, ◌&&◌, Option, none, some, [], ◌∷◌, ◌++◌,
  Bytes, ◌==◌, if◌then◌else◌, ltb, equal, length, take, drop, get_or, Result, ok, err, ◌>>=◌,
  map_ok, or_throw,
}
use market_data_ingress.Json.{skip_space, simple_escape}

-- The `runtime_error`s that the exporter throws; `what` of the handler gives their texts.
pub data Error : Type 0 where
  missing_field : Bytes → Error
  expected_string unterminated_string : Error
  incomplete_escape incomplete_unicode invalid_escape : Error
  expected_object unterminated_object : Error
  expected_number expected_boolean : Error
  expected_unsigned : Bytes → Error
  unsupported_schema : Error
  cannot_open cannot_read : Bytes → Error
  no_timestamp : Bytes → Error

-- `substr(position, count)`
unfoldable pub substr : Bytes → ℕ → ℕ → Bytes
substr document position count = take count (drop position document)

unfoldable pub starts_with : Bytes → Bytes → Bool
starts_with [] rest = true
starts_with (x ∷ needle) [] = false
starts_with (x ∷ needle) (y ∷ rest) = x == y && starts_with needle rest

-- `find(needle, position)`: where the needle, which is not empty, first stands from there on.
unfoldable pub find_from : Bytes → Bytes → ℕ → Option ℕ
unfolding starts_with
find_from needle [] position = none
find_from needle (c ∷ rest) position =
    if starts_with needle (c ∷ rest) then some position else find_from needle rest (position + 1)

unfoldable pub find : Bytes → Bytes → ℕ → Option ℕ
unfolding find_from
find document needle position = find_from needle (drop position document) position

-- How many backslashes stand right before a position.
unfoldable pub slash_count : Bytes → ℕ → ℕ
slash_count document zero = 0
slash_count document (suc cursor) =
    if get_or document cursor 0 == b'\\' then suc (slash_count document cursor) else 0

-- The needle of a key: the key in quotes.
unfoldable pub quoted : Bytes → Bytes
quoted key = b'"' ∷ (key ++ (b'"' ∷ []))

-- The position of the value, if the needle at `key_position` is a key: its quote is not escaped, and
-- a colon follows.
unfoldable pub value_after_key : Bytes → Bytes → ℕ → Option ℕ
unfolding slash_count
value_after_key document needle key_position =
    let value_position = skip_space document (key_position + length needle) in
    if not (slash_count document key_position % 2 == 0)
    then none
    else if ltb value_position (length document) && get_or document value_position 0 == b':'
    then some (skip_space document (value_position + 1))
    else none

-- How the loop of `find_value` ends: with a position, without one, or, in the model alone, because it
-- had no fuel left for another round.
pub data Search : Type 0 where
  found : ℕ → Search
  absent : Search
  out_of_fuel : Search

-- The loop of `find_value`, on fuel: each round moves `search_from` on.
unfoldable pub find_value_from : ℕ → Bytes → Bytes → ℕ → Search
unfolding find
find_value_from zero document needle search_from =
    if ltb search_from (length document) then out_of_fuel else absent
find_value_from (suc fuel) document needle search_from =
    let round : Search = elim (find document needle search_from) [
      | none ↦ absent
      | some key_position ↦ elim (value_after_key document needle key_position) [
        | some value ↦ found value
        | none ↦ find_value_from fuel document needle (key_position + length needle)
      ]
    ] in
    if ltb search_from (length document) then round else absent

abbrev pub position_of : Search → Option ℕ
position_of (found value) = some value
position_of absent = none
position_of out_of_fuel = none

unfoldable pub find_value : Bytes → Bytes → Option ℕ
unfolding find_value_from quoted
find_value document key =
    position_of (find_value_from (suc (length document)) document (quoted key) 0)

unfoldable pub required_value : Bytes → Bytes → Result Error ℕ
unfolding find_value
required_value document key = or_throw (find_value document key) (missing_field key)

unfoldable pub is_null : Bytes → ℕ → Bool
unfolding equal substr skip_space
is_null document position =
    equal (substr document (skip_space document position) 4) (b'n' ∷ b'u' ∷ b'l' ∷ b'l' ∷ [])

-- The closing quote of a string whose opening quote stands before `rest`.
unfoldable pub string_end_from : Bytes → Bool → ℕ → Result Error ℕ
string_end_from [] escaped cursor = err unterminated_string
string_end_from (c ∷ rest) escaped cursor =
    if not escaped && c == b'"'
    then ok cursor
    else string_end_from rest (not escaped && c == b'\\') (cursor + 1)

-- `string_end` where the document from `position` on is known.
unfoldable pub string_end_at : Bytes → ℕ → Result Error ℕ
unfolding string_end_from
string_end_at [] position = err expected_string
string_end_at (c ∷ rest) position =
    if c == b'"' then string_end_from rest false (position + 1) else err expected_string

unfoldable pub string_end : Bytes → ℕ → Result Error ℕ
unfolding string_end_at
string_end document position = string_end_at (drop position document) position

-- The loop of `string_at` over the characters between the quotes. After `\u` it skips four of them:
-- the first argument counts those still to skip.
unfoldable pub unescape : ℕ → Bytes → Result Error Bytes
unescape skip [] = ok []
unescape (suc skip) (c ∷ rest) = unescape skip rest
unescape zero (c ∷ []) = if c == b'\\' then err incomplete_escape else ok (c ∷ [])
unescape zero (c ∷ e ∷ rest) =
    let plain = map_ok (◌∷◌ c) (unescape zero (e ∷ rest)) in
    let escape : Result Error Bytes = elim (simple_escape e) [
      | some value ↦ map_ok (◌∷◌ value) (unescape zero rest)
      | none ↦
          let unicode = map_ok (◌∷◌ b'?') (unescape 4 rest) in
          if e == b'u'
          then if ltb (length rest) 4 then err incomplete_unicode else unicode
          else err invalid_escape
    ] in
    if c == b'\\' then escape else plain

unfoldable pub string_at : Bytes → ℕ → Result Error Bytes
unfolding string_end unescape substr skip_space simple_escape
string_at document raw_position = do
  let position = skip_space document raw_position
  end ← string_end document position
  unescape 0 (substr document (position + 1) (end - (position + 1)))

-- The loop of `matching_container` with `rest` at `cursor`. A string is jumped over: the first
-- argument counts the characters up to its closing quote.
unfoldable pub matching_from : ℕ → ℕ → ℕ → Bytes → Result Error ℕ
matching_from skip depth cursor [] = err unterminated_object
matching_from (suc skip) depth cursor (c ∷ rest) = matching_from skip depth (cursor + 1) rest
matching_from zero depth cursor (c ∷ rest) =
    let inside = string_end_at (c ∷ rest) cursor >>= λ end.
    matching_from (end - cursor) depth (cursor + 1) rest in
    let deeper = matching_from 0 (depth + 1) (cursor + 1) rest in
    let shallower = matching_from 0 (depth - 1) (cursor + 1) rest in
    let onward = matching_from 0 depth (cursor + 1) rest in
    if c == b'"'
    then inside
    else if c == b'{'
    then deeper
    else if c == b'}'
    then if depth - 1 == 0 then ok cursor else shallower
    else onward

unfoldable pub matching_container_at : Bytes → ℕ → Result Error ℕ
unfolding matching_from string_end_at
matching_container_at [] position = err expected_object
matching_container_at (c ∷ rest) position =
    if c == b'{' then matching_from 0 1 (position + 1) rest else err expected_object

unfoldable pub matching_container : Bytes → ℕ → Result Error ℕ
unfolding matching_container_at
matching_container document position = matching_container_at (drop position document) position

unfoldable pub object_at : Bytes → ℕ → Result Error Bytes
unfolding matching_container substr skip_space
object_at document raw_position = do
  let position = skip_space document raw_position
  end ← matching_container document position
  ok (substr document position (end - position + 1))
