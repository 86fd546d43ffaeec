-- ===== src/Text.antt =====
-- src/core/text.cpp: the helpers on UTF-8. The bytes from an offset on are a list; a loop that adds the length of a unit
-- to its offset steps over that many bytes.
pub mod Scalars
pub mod Slice
mod Tests
use vxx.Prelude.{
  ℕ, zero, suc, ◌+◌, ◌-◌, Bool, true, false, not, ltb, leb, ◌==◌, ◌&&◌, ◌||◌, Option, none, some,
  List, [], ◌∷◌, length, get_or, drop, ◌%◌, ◌^◌, if◌then◌else◌,
}
use vxx.Prelude.Bytes.{Bytes}

unfoldable pub utf8_sequence_length : ℕ → ℕ
utf8_sequence_length lead =
    if ltb lead 128
    then 1
    else if leb 194 lead && leb lead 223
    then 2
    else if leb 224 lead && leb lead 239
    then 3
    else if leb 240 lead && leb lead 244
    then 4
    else 0

-- (byte & 0xc0u) == 0x80u
unfoldable pub is_continuation : ℕ → Bool
is_continuation byte = leb 128 byte && ltb byte 192

abbrev pub valid_fourth : Bytes → Bool
valid_fourth text =
    if not (is_continuation (get_or text 3 0))
    then false
    else if get_or text 0 0 == 240 && ltb (get_or text 1 0) 144
    then false
    else not (get_or text 0 0 == 244 && ltb 143 (get_or text 1 0))

abbrev pub valid_third : Bytes → ℕ → Bool
valid_third text length =
    if not (is_continuation (get_or text 2 0))
    then false
    else if get_or text 0 0 == 224 && ltb (get_or text 1 0) 160
    then false
    else if get_or text 0 0 == 237 && ltb 159 (get_or text 1 0)
    then false
    else if length == 3
    then true
    else valid_fourth text

-- validUtf8Unit, for the bytes from the offset on
unfoldable pub valid_utf8_unit : Bytes → ℕ → Bool
valid_utf8_unit text unit =
    if unit == 1
    then true
    else if unit == 0
    then false
    else if ltb (length text) unit
    then false
    else if not (is_continuation (get_or text 1 0))
    then false
    else if unit == 2
    then true
    else valid_third text unit

unfoldable pub utf8_unit_length_or_raw_byte : Bytes → ℕ
utf8_unit_length_or_raw_byte text =
    let unit = utf8_sequence_length (get_or text 0 0) in
    if unit == 0 || not (valid_utf8_unit text unit) then 1 else unit

-- toLowerAscii
unfoldable pub to_lower_ascii : Bytes → Bytes
to_lower_ascii [] = []
to_lower_ascii (c ∷ value) = (if leb 65 c && leb c 90 then c + 32 else c) ∷ to_lower_ascii value

abbrev pub is_blank : ℕ → Bool
is_blank c = c == 32 || c == 9 || c == 13 || c == 10

-- The text from the first byte that is not blank on.
unfoldable pub trim_start : Bytes → Bytes
trim_start [] = []
trim_start (c ∷ value) = if is_blank c then trim_start value else c ∷ value

abbrev pub keep_blank : ℕ → Bytes → Bytes
keep_blank c [] = if is_blank c then [] else c ∷ []
keep_blank c (d ∷ rest) = c ∷ d ∷ rest

-- The text up to the last byte that is not blank.
unfoldable pub trim_end : Bytes → Bytes
trim_end [] = []
trim_end (c ∷ value) = keep_blank c (trim_end value)

-- trim
unfoldable pub trim : Bytes → Bytes
trim value = trim_end (trim_start value)

-- The loops, with the bytes that are still stepped over.
unfoldable pub count_from : ℕ → Bytes → ℕ
count_from skip [] = 0
count_from zero (c ∷ text) = suc (count_from (utf8_unit_length_or_raw_byte (c ∷ text) - 1) text)
count_from (suc skip) (c ∷ text) = count_from skip text

unfoldable pub utf8_code_point_count : Bytes → ℕ
utf8_code_point_count value = count_from zero value

unfoldable pub valid_from : ℕ → Bytes → Bool
valid_from skip [] = true
valid_from zero (c ∷ text) =
    let unit = utf8_sequence_length c in
    let rest = valid_from (unit - 1) text in
    if unit == 0 || not (valid_utf8_unit (c ∷ text) unit) then false else rest
valid_from (suc skip) (c ∷ text) = valid_from skip text

unfoldable pub is_valid_utf8 : Bytes → Bool
is_valid_utf8 value = valid_from zero value

-- value.substr(0, n)
abbrev pub first_bytes : ℕ → Bytes → Bytes
first_bytes zero text = []
first_bytes (suc n) [] = []
first_bytes (suc n) (c ∷ text) = c ∷ first_bytes n text

unfoldable pub at_from : ℕ → ℕ → ℕ → Bytes → Option Bytes
at_from index logical_index skip [] = none
at_from index logical_index zero (c ∷ text) =
    let unit = utf8_unit_length_or_raw_byte (c ∷ text) in
    let rest = at_from index (suc logical_index) (unit - 1) text in
    if logical_index == index then some (first_bytes unit (c ∷ text)) else rest
at_from index logical_index (suc skip) (c ∷ text) = at_from index logical_index skip text

unfoldable pub utf8_code_point_at : Bytes → ℕ → Option Bytes
utf8_code_point_at value index = at_from index zero zero value

-- The two offsets of the loop of `utf8CodePointSlice`: `byteStart` and `byteEnd`.
unfoldable pub slice_from : ℕ → ℕ → ℕ → ℕ → ℕ → ℕ → ℕ → Bytes → ℕ × ℕ
slice_from size start stop offset logical_index byte_start skip [] = (byte_start, size)
slice_from size start stop offset logical_index byte_start zero (c ∷ text) =
    let begun = if logical_index == start then offset else byte_start in
    let rest =
      slice_from size start stop (suc offset) (suc logical_index) begun
        (utf8_unit_length_or_raw_byte (c ∷ text) - 1) text in
    if logical_index == stop then (begun, offset) else rest
slice_from size start stop offset logical_index byte_start (suc skip) (c ∷ text) =
    slice_from size start stop (suc offset) logical_index byte_start skip text

abbrev pub between : Bytes → ℕ × ℕ → Bytes
between value (byte_start, byte_end) =
    if byte_start == length value
    then []
    else first_bytes (byte_end - byte_start) (drop byte_start value)

-- The sum wraps around.
unfoldable pub utf8_code_point_slice : Bytes → ℕ → ℕ → Bytes
utf8_code_point_slice value start count =
    if count == 0 || length value == 0
    then []
    else between value (
        slice_from (length value) start ((start + count) % 2 ^ 64) zero zero (length value) zero
          value)
