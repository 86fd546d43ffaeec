-- ===== src/Text/Slice.antt =====
-- src/core/text.cpp: `utf8CodePointSlice`, against the encoding of scalar values.
mod Loop
use mathlib.Core.Path.{subst}
use vxx.Prelude.{
  ltb, ℕ, zero, suc, ◌+◌, ◌-◌, ◌%◌, ◌^◌, ◌<◌, ◌≤◌, ◌≡◌, ◌∙◌, refl, sym, ap, Bool, true, false, ◌==◌,
  ◌||◌, List, [], ◌∷◌, ◌++◌, append_assoc, length, length-append, drop, if◌then◌else◌, Bool-cases,
  inl, inr, arith,
}
use vxx.Prelude.Bytes.{Bytes}
use vxx.Text.{utf8_unit_length_or_raw_byte, first_bytes, slice_from, between, utf8_code_point_slice}
use vxx.Text.Scalars.{
  is_scalar, encode, Encoded, encode-Encoded, unit-or_raw, first_bytes-append, AllScalars,
  encode_all,
}
use vxx.Text.Slice.Loop.{slice_from-start, slice_from-missing}

drop-append :
    (front xs ys : Bytes) → drop (length (front ++ xs)) (front ++ ys) ≡ drop (length xs) ys
drop-append [] xs ys = refl
drop-append (c ∷ front) xs ys = drop-append front xs ys

drop-encode_all :
    (points : List ℕ) (i : ℕ)
    → drop (length (encode_all (first_bytes i points))) (encode_all points)
      ≡ encode_all (drop i points)
drop-encode_all points zero = refl
drop-encode_all [] (suc i) = refl
drop-encode_all (point ∷ points) (suc i) =
    drop-append (encode point) (encode_all (first_bytes i points)) (encode_all points)
    ∙ drop-encode_all points i

-- The first values, and the others.
encode_all-parts :
    (points : List ℕ) (n : ℕ)
    → encode_all (first_bytes n points) ++ encode_all (drop n points) ≡ encode_all points
encode_all-parts points zero = refl
encode_all-parts [] (suc n) = refl
encode_all-parts (point ∷ points) (suc n) =
    append_assoc (encode point) (encode_all (first_bytes n points)) (encode_all (drop n points))
    ∙ ap (λ t. encode point ++ t) (encode_all-parts points n)

length-first_bytes :
    (points : List ℕ) (i m n : ℕ)
    → m ≡ i + n
    → length (encode_all (first_bytes m points))
      ≡ length (encode_all (first_bytes i points))
        + length (encode_all (first_bytes n (drop i points)))
length-first_bytes points zero m n sum = let same : m ≡ n = omega arith in rw same (omega arith)
length-first_bytes points (suc i) zero n sum = absurd (omega arith)
length-first_bytes [] (suc i) (suc m) zero sum = omega arith
length-first_bytes [] (suc i) (suc m) (suc n) sum = omega arith
length-first_bytes (point ∷ points) (suc i) (suc m) n sum =
    let rest = length-first_bytes points i m n (omega arith) in
    let one = length-append (encode point) (encode_all (first_bytes i points)) in
    let two = length-append (encode point) (encode_all (first_bytes m points)) in omega arith

encode-nonempty :
    (point : ℕ) (rest : Bytes) → is_scalar point ≡ true → 0 < length (encode point ++ rest)
encode-nonempty point rest h =
    omega (arith, (encode-Encoded point h rest).0, length-append (encode point) rest)

position-lt :
    (points : List ℕ) (i : ℕ)
    → AllScalars points
    → i < length points
    → length (encode_all (first_bytes i points)) < length (encode_all points)
position-lt [] i h inside = absurd (omega arith)
position-lt (point ∷ points) zero (first, others) inside =
    encode-nonempty point (encode_all points) first
position-lt (point ∷ points) (suc i) (first, others) inside = omega (
  arith,
  position-lt points i others (omega arith),
  length-append (encode point) (encode_all points),
  length-append (encode point) (encode_all (first_bytes i points)),
)

drop_behind :
    (points : List ℕ) (i n : ℕ)
    → length points ≤ i
    → encode_all (first_bytes n (drop i points)) ≡ []
drop_behind [] zero zero h = refl
drop_behind [] zero (suc n) h = refl
drop_behind [] (suc i) zero h = refl
drop_behind [] (suc i) (suc n) h = refl
drop_behind (point ∷ points) zero n h = absurd (omega arith)
drop_behind (point ∷ points) (suc i) n h = drop_behind points i n (omega arith)

between-front :
    (value front rest : Bytes) (byte_start byte_end : ℕ)
    → byte_start < length value
    → drop byte_start value ≡ front ++ rest
    → byte_end ≡ byte_start + length front
    → between value (byte_start, byte_end) ≡ front
between-front value front rest byte_start byte_end inside dropped ends =
    let other : (byte_start == length value) ≡ false = ground arith in
    let size : byte_end - byte_start ≡ length front = omega arith in
    rw (other, size, dropped) (first_bytes-append front rest)

between-nothing : (value : Bytes) → between value (length value, length value) ≡ []
between-nothing value =
    let same : (length value == length value) ≡ true = ground arith in rw same refl

-- A slice that starts at a value of the text.
slice-inside :
    (points : List ℕ) (start n : ℕ)
    → AllScalars points
    → start < length points
    → between (encode_all points) (
        slice_from
          (length (encode_all points))
          start
          (start + suc n)
          zero
          zero
          (length (encode_all points))
          zero
          (encode_all points))
      ≡ encode_all (first_bytes (suc n) (drop start points))
slice-inside points start n h inside =
    let value = encode_all points in
    let left : zero + length (encode_all (first_bytes start points))
        ≡ length (encode_all (first_bytes start points)) =
      omega arith in
    let right : zero + length (encode_all (first_bytes (start + suc n) points))
        ≡ length (encode_all (first_bytes (start + suc n) points)) =
      omega arith in
    ap (between value) (
      slice_from-start (length value) start (start + suc n) points start (start + suc n) n zero zero
        (length value) h inside (omega arith) refl (omega arith) (omega arith)
      ∙ (ap (λ b. (b, zero + length (encode_all (first_bytes (start + suc n) points)))) left
          ∙ ap (λ e. (length (encode_all (first_bytes start points)), e)) right))
    ∙ between-front value (encode_all (first_bytes (suc n) (drop start points)))
        (encode_all (drop (suc n) (drop start points)))
        (length (encode_all (first_bytes start points)))
        (length (encode_all (first_bytes (start + suc n) points)))
        (position-lt points start h inside)
        (drop-encode_all points start ∙ sym (encode_all-parts (drop start points) (suc n)))
        (length-first_bytes points start (start + suc n) (suc n) refl)

slice-outside :
    (points : List ℕ) (start n : ℕ)
    → AllScalars points
    → length points ≤ start
    → between (encode_all points) (
        slice_from
          (length (encode_all points))
          start
          (start + suc n)
          zero
          zero
          (length (encode_all points))
          zero
          (encode_all points))
      ≡ encode_all (first_bytes (suc n) (drop start points))
slice-outside points start n h outside =
    ap (between (encode_all points)) (
      slice_from-missing (length (encode_all points)) start (start + suc n) points start zero zero h
        outside (omega arith) (omega arith))
    ∙ (between-nothing (encode_all points) ∙ sym (drop_behind points start (suc n) outside))

slice-either :
    (points : List ℕ) (start n : ℕ)
    → AllScalars points
    → between (encode_all points) (
        slice_from
          (length (encode_all points))
          start
          (start + suc n)
          zero
          zero
          (length (encode_all points))
          zero
          (encode_all points))
      ≡ encode_all (first_bytes (suc n) (drop start points))
slice-either points start n h = elim (Bool-cases (ltb start (length points))) [
  | inl inside ↦ slice-inside points start n h (ground arith)
  | inr outside ↦ slice-outside points start n h (ground arith)
]

-- On the encoding of any scalar values, the slice from a start with a count that do not wrap around together is the
-- encoding of as many of the values from the start on as there are.
pub utf8_code_point_slice-encode_all :
    (points : List ℕ) (start count : ℕ)
    → AllScalars points
    → start + count < 2 ^ 64
    → utf8_code_point_slice (encode_all points) start count
      ≡ encode_all (first_bytes count (drop start points))
unfolding utf8_code_point_slice
utf8_code_point_slice-encode_all points start zero h small = refl
utf8_code_point_slice-encode_all [] start (suc n) h small =
    let counted : (suc n == 0) ≡ false = ground arith in
    rw counted (sym (drop_behind [] start (suc n) (omega arith)))
utf8_code_point_slice-encode_all (point ∷ points) start (suc n) (first, others) small =
    let some_bytes = encode-nonempty point (encode_all points) first in
    let full : (length (encode point ++ encode_all points) == 0) ≡ false = ground arith in
    let sum : (start + suc n) % 2 ^ 64 ≡ start + suc n = omega arith in
    let counted : (suc n == 0) ≡ false = ground arith in
    rw (counted, full, sum) (slice-either (point ∷ points) start n (first, others))
