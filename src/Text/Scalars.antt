-- ===== src/Text/Scalars.antt =====
-- src/core/text.cpp, against the encoding of Unicode scalar values.
use mathlib.Core.Path.{subst}
use vxx.Prelude.{
  ℕ, zero, suc, ◌+◌, ◌-◌, ◌/◌, ◌%◌, ◌<◌, ◌≤◌, ◌≡◌, ◌∙◌, refl, ap, Bool, true, false, ltb, leb, ◌==◌,
  ◌&&◌, ◌||◌, Option, none, some, List, [], ◌∷◌, ◌++◌, length, get_elem?, get_or, if◌then◌else◌,
  Bool-cases, inl, inr, arith,
}
use vxx.Prelude.Bytes.{Bytes}
use vxx.Text.{
  utf8_sequence_length, is_continuation, valid_utf8_unit, utf8_unit_length_or_raw_byte, count_from,
  utf8_code_point_count, valid_from, is_valid_utf8, first_bytes, at_from, utf8_code_point_at,
}

-- A scalar value: below 0x110000 and no surrogate.
abbrev pub is_scalar : ℕ → Bool
is_scalar point = ltb point 55296 || leb 57344 point && ltb point 1114112

-- The encoding of RFC 3629.
abbrev pub encode : ℕ → Bytes
encode point =
    if ltb point 128
    then point ∷ []
    else if ltb point 2048
    then (192 + point / 64) ∷ (128 + point % 64) ∷ []
    else if ltb point 65536
    then (224 + point / 4096) ∷ (128 + point / 64 % 64) ∷ (128 + point % 64) ∷ []
    else (240 + point / 262144)
      ∷ (128 + point / 4096 % 64)
      ∷ (128 + point / 64 % 64)
      ∷ (128 + point % 64)
      ∷ []

-- The length of the first unit, the bytes of which are valid.
abbrev pub IsUnit : Bytes → Bytes → Type 0
IsUnit unit rest =
    (utf8_sequence_length (get_or (unit ++ rest) 0 0) ≡ length unit)
    × (valid_utf8_unit (unit ++ rest) (length unit) ≡ true)

one_byte : (a : ℕ) (rest : Bytes) → a < 128 → IsUnit (a ∷ []) rest
unfolding utf8_sequence_length valid_utf8_unit
one_byte a rest h = (ground arith, ground arith)

two_bytes :
    (a b : ℕ) (rest : Bytes) → 194 ≤ a → a ≤ 223 → 128 ≤ b → b < 192 → IsUnit (a ∷ b ∷ []) rest
unfolding utf8_sequence_length valid_utf8_unit is_continuation
two_bytes a b rest h1 h2 h3 h4 = (ground arith, ground arith)

three_bytes :
    (a b c : ℕ) (rest : Bytes)
    → 224 ≤ a
    → a ≤ 239
    → 128 ≤ b
    → b < 192
    → 128 ≤ c
    → c < 192
    → (a ≡ 224 → 160 ≤ b)
    → (a ≡ 237 → b ≤ 159)
    → IsUnit (a ∷ b ∷ c ∷ []) rest
unfolding utf8_sequence_length valid_utf8_unit is_continuation
three_bytes a b c rest h1 h2 h3 h4 h5 h6 h7 h8 = (ground arith, ground arith)

four_bytes :
    (a b c d : ℕ) (rest : Bytes)
    → 240 ≤ a
    → a ≤ 244
    → 128 ≤ b
    → b < 192
    → 128 ≤ c
    → c < 192
    → 128 ≤ d
    → d < 192
    → (a ≡ 240 → 144 ≤ b)
    → (a ≡ 244 → b ≤ 143)
    → IsUnit (a ∷ b ∷ c ∷ d ∷ []) rest
unfolding utf8_sequence_length valid_utf8_unit is_continuation
four_bytes a b c d rest h1 h2 h3 h4 h5 h6 h7 h8 h9 h10 = (ground arith, ground arith)

-- What an encoded scalar value is: a first byte, with the bytes of its unit.
abbrev pub Encoded : Bytes → Type 0
Encoded unit = (rest : Bytes) → (0 < length unit) × IsUnit unit rest

pub encode-Encoded : (point : ℕ) → is_scalar point ≡ true → Encoded (encode point)
encode-Encoded point h rest = elim (Bool-cases (ltb point 128)) [
  | inl one ↦ rw one (omega arith, one_byte point rest (ground arith))
  | inr more ↦ elim (Bool-cases (ltb point 2048)) [
    | inl two ↦
        rw (more, two)
          (
            omega arith,
            two_bytes (192 + point / 64) (128 + point % 64) rest (ground arith) (ground arith)
                (ground arith) (ground arith),
          )
    | inr longer ↦ elim (Bool-cases (ltb point 65536)) [
      | inl three ↦
          rw (more, longer, three)
            (
              omega arith,
              three_bytes (224 + point / 4096) (128 + point / 64 % 64) (128 + point % 64) rest
                  (ground arith) (ground arith) (ground arith) (ground arith) (ground arith)
                  (ground arith) (λ e. ground arith) (λ e. ground arith),
            )
      | inr four ↦
          rw (more, longer, four)
            (
              omega arith,
              four_bytes (240 + point / 262144) (128 + point / 4096 % 64) (128 + point / 64 % 64)
                  (128 + point % 64) rest (ground arith) (ground arith) (ground arith)
                  (ground arith) (ground arith) (ground arith) (ground arith) (ground arith)
                  (λ e. ground arith) (λ e. ground arith),
            )
    ]
  ]
]

-- The loops step over the bytes that they skip.
valid_from-skip :
    (skipped rest : Bytes) → valid_from (length skipped) (skipped ++ rest) ≡ valid_from zero rest
unfolding valid_from
valid_from-skip [] rest = refl
valid_from-skip (c ∷ skipped) rest = valid_from-skip skipped rest

count_from-skip :
    (skipped rest : Bytes) → count_from (length skipped) (skipped ++ rest) ≡ count_from zero rest
unfolding count_from
count_from-skip [] rest = refl
count_from-skip (c ∷ skipped) rest = count_from-skip skipped rest

at_from-skip :
    (index logical_index : ℕ) (skipped rest : Bytes)
    → at_from index logical_index (length skipped) (skipped ++ rest)
      ≡ at_from index logical_index zero rest
unfolding at_from
at_from-skip index logical_index [] rest = refl
at_from-skip index logical_index (c ∷ skipped) rest = at_from-skip index logical_index skipped rest

pub first_bytes-append : (front rest : Bytes) → first_bytes (length front) (front ++ rest) ≡ front
first_bytes-append [] rest = refl
first_bytes-append (c ∷ front) rest = ap (λ t. c ∷ t) (first_bytes-append front rest)

pub unit-or_raw :
    (unit rest : Bytes) → Encoded unit → utf8_unit_length_or_raw_byte (unit ++ rest) ≡ length unit
unfolding utf8_unit_length_or_raw_byte
unit-or_raw unit rest encoded =
    let known = encoded rest in rw (known.1.0, known.1.1) (ground (arith, known.0))

valid_from-unit :
    (unit rest : Bytes) → Encoded unit → valid_from zero (unit ++ rest) ≡ valid_from zero rest
unfolding valid_from
valid_from-unit [] rest encoded = refl
valid_from-unit (c ∷ unit) rest encoded =
    let known = encoded rest in
    let less_one : suc (length unit) - 1 ≡ length unit = omega arith in
    rw (known.1.0, known.1.1, less_one, valid_from-skip unit rest) (ground arith)

valid_nil : valid_from zero [] ≡ true
unfolding valid_from
valid_nil = refl

count_nil : count_from zero [] ≡ zero
unfolding count_from
count_nil = refl

at_nil : (index logical_index : ℕ) → at_from index logical_index zero [] ≡ none
unfolding at_from
at_nil index logical_index = refl

count_from-unit :
    (unit rest : Bytes) → Encoded unit → count_from zero (unit ++ rest) ≡ suc (count_from zero rest)
unfolding count_from
count_from-unit [] rest encoded = absurd (omega (arith, (encoded rest).0))
count_from-unit (c ∷ unit) rest encoded =
    let less_one : suc (length unit) - 1 ≡ length unit = omega arith in
    rw (unit-or_raw (c ∷ unit) rest encoded, less_one, count_from-skip unit rest) refl

-- At the index, the unit; before it, the loop goes on behind the unit.
at_from-here :
    (index : ℕ) (unit rest : Bytes)
    → Encoded unit
    → at_from index index zero (unit ++ rest) ≡ some unit
unfolding at_from
at_from-here index [] rest encoded = absurd (omega (arith, (encoded rest).0))
at_from-here index (c ∷ unit) rest encoded =
    let same : (index == index) ≡ true = ground arith in
    rw (unit-or_raw (c ∷ unit) rest encoded, same, first_bytes-append unit rest) refl

at_from-later :
    (index logical_index : ℕ) (unit rest : Bytes)
    → Encoded unit
    → logical_index < index
    → at_from index logical_index zero (unit ++ rest) ≡ at_from index (suc logical_index) zero rest
unfolding at_from
at_from-later index logical_index [] rest encoded before = absurd (omega (arith, (encoded rest).0))
at_from-later index logical_index (c ∷ unit) rest encoded before =
    let less_one : suc (length unit) - 1 ≡ length unit = omega arith in
    let other : (logical_index == index) ≡ false = ground arith in
    rw
      (
        unit-or_raw (c ∷ unit) rest encoded,
        less_one,
        other,
        at_from-skip index (suc logical_index) unit rest,
      )
      refl

abbrev pub AllScalars : List ℕ → Type 0
AllScalars [] = Unit
AllScalars (point ∷ points) = (is_scalar point ≡ true) × AllScalars points

abbrev pub encode_all : List ℕ → Bytes
encode_all [] = []
encode_all (point ∷ points) = encode point ++ encode_all points

abbrev pub encode_option : Option ℕ → Option Bytes
encode_option none = none
encode_option (some point) = some (encode point)

-- A text that encodes scalar values is valid.
pub is_valid_utf8-encode_all :
    (points : List ℕ) → AllScalars points → is_valid_utf8 (encode_all points) ≡ true
unfolding is_valid_utf8
is_valid_utf8-encode_all [] h = valid_nil
is_valid_utf8-encode_all (point ∷ points) (first, others) =
    valid_from-unit (encode point) (encode_all points) (encode-Encoded point first)
    ∙ is_valid_utf8-encode_all points others

count-encode_all :
    (points : List ℕ) → AllScalars points → count_from zero (encode_all points) ≡ length points
count-encode_all [] h = count_nil
count-encode_all (point ∷ points) (first, others) =
    count_from-unit (encode point) (encode_all points) (encode-Encoded point first)
    ∙ ap suc (count-encode_all points others)

at_from-encode_all :
    (points : List ℕ) (i logical_index : ℕ)
    → AllScalars points
    → at_from (logical_index + i) logical_index zero (encode_all points)
      ≡ encode_option (get_elem? points i)
at_from-encode_all [] i logical_index h = at_nil (logical_index + i) logical_index
at_from-encode_all (point ∷ points) zero logical_index (first, others) =
    let same : logical_index + zero ≡ logical_index = omega arith in
    rw same
      (at_from-here logical_index (encode point) (encode_all points) (encode-Encoded point first))
at_from-encode_all (point ∷ points) (suc i) logical_index (first, others) =
    let moved : logical_index + suc i ≡ suc logical_index + i = omega arith in
    at_from-later (logical_index + suc i) logical_index (encode point) (encode_all points)
      (encode-Encoded point first) (omega arith)
    ∙ (ap (λ n. at_from n (suc logical_index) zero (encode_all points)) moved
        ∙ at_from-encode_all points i (suc logical_index) others)

-- On the encoding of any scalar values, the text is valid, the count is how many they are, and the code point at
-- an index is the encoding of the value there, or nothing behind the last.
pub utf8-encode_all :
    (points : List ℕ)
    → AllScalars points
    → (is_valid_utf8 (encode_all points) ≡ true)
      × (utf8_code_point_count (encode_all points) ≡ length points)
      × ((i : ℕ) → utf8_code_point_at (encode_all points) i ≡ encode_option (get_elem? points i))
unfolding utf8_code_point_count utf8_code_point_at
utf8-encode_all points h = (
  is_valid_utf8-encode_all points h,
  count-encode_all points h,
  λ i.
      let whole : zero + i ≡ i = omega arith in
      subst (λ n. at_from n zero zero (encode_all points) ≡ encode_option (get_elem? points i))
        whole (at_from-encode_all points i zero h),
)
