-- ===== src/Text/Slice/Loop.antt =====
-- src/core/text.cpp: the loop of `utf8CodePointSlice` finds the offsets of the start and of the end.
use vxx.Prelude.{
  ℕ, zero, suc, ◌+◌, ◌-◌, ◌<◌, ◌≤◌, ◌≡◌, ◌∙◌, refl, ap, true, false, ◌==◌, List, [], ◌∷◌, ◌++◌,
  length, length-append, if◌then◌else◌, arith,
}
use vxx.Prelude.Bytes.{Bytes}
use vxx.Text.{first_bytes, slice_from}
use vxx.Text.Scalars.{encode, Encoded, encode-Encoded, unit-or_raw, AllScalars, encode_all}

module _ (size start stop : ℕ) where
  slice_from-skip :
      (offset logical_index byte_start : ℕ) (skipped rest : Bytes)
      → slice_from size start stop offset logical_index byte_start
          (length skipped)
          (skipped ++ rest)
        ≡ slice_from size start stop (offset + length skipped) logical_index byte_start zero rest
  unfolding slice_from
  slice_from-skip offset logical_index byte_start [] rest =
      let whole : offset + 0 ≡ offset = omega arith in rw whole refl
  slice_from-skip offset logical_index byte_start (c ∷ skipped) rest =
      let moved : offset + suc (length skipped) ≡ suc offset + length skipped = omega arith in
      rw moved (slice_from-skip (suc offset) logical_index byte_start skipped rest)

  abbrev begun : ℕ → ℕ → ℕ → ℕ
  begun offset logical_index byte_start = if logical_index == start then offset else byte_start

  slice_from-last :
      (offset logical_index byte_start : ℕ) (unit rest : Bytes)
      → Encoded unit
      → logical_index ≡ stop
      → slice_from size start stop offset logical_index byte_start zero (unit ++ rest)
        ≡ (begun offset logical_index byte_start, offset)
  unfolding slice_from
  slice_from-last offset logical_index byte_start [] rest encoded same =
      absurd (omega (arith, (encoded rest).0))
  slice_from-last offset logical_index byte_start (c ∷ unit) rest encoded same =
      let here : (logical_index == stop) ≡ true = ground arith in rw here refl

  slice_from-next :
      (offset logical_index byte_start : ℕ) (unit rest : Bytes)
      → Encoded unit
      → logical_index < stop
      → slice_from size start stop offset logical_index byte_start zero (unit ++ rest)
        ≡ slice_from size start stop
            (offset + length unit)
            (suc logical_index)
            (begun offset logical_index byte_start)
            zero
            rest
  unfolding slice_from
  slice_from-next offset logical_index byte_start [] rest encoded before =
      absurd (omega (arith, (encoded rest).0))
  slice_from-next offset logical_index byte_start (c ∷ unit) rest encoded before =
      let other : (logical_index == stop) ≡ false = ground arith in
      let less_one : suc (length unit) - 1 ≡ length unit = omega arith in
      let moved : offset + suc (length unit) ≡ suc offset + length unit = omega arith in
      rw (other, unit-or_raw (c ∷ unit) rest encoded, less_one, moved)
        (slice_from-skip (suc offset) (suc logical_index) (begun offset logical_index byte_start)
          unit rest)

  slice_from-nil :
      (offset logical_index byte_start : ℕ)
      → slice_from size start stop offset logical_index byte_start zero [] ≡ (byte_start, size)
  unfolding slice_from
  slice_from-nil offset logical_index byte_start = refl

  -- Behind the start, the loop finds the end.
  slice_from-end :
      (points : List ℕ) (n offset logical_index byte_start : ℕ)
      → AllScalars points
      → start < logical_index
      → stop ≡ logical_index + n
      → size ≡ offset + length (encode_all points)
      → slice_from size start stop offset logical_index byte_start zero (encode_all points)
        ≡ (byte_start, offset + length (encode_all (first_bytes n points)))
  slice_from-end [] zero offset logical_index byte_start h after stops whole =
      slice_from-nil offset logical_index byte_start ∙ ap (λ e. (byte_start, e)) whole
  slice_from-end [] (suc n) offset logical_index byte_start h after stops whole =
      slice_from-nil offset logical_index byte_start ∙ ap (λ e. (byte_start, e)) whole
  slice_from-end (point ∷ points) zero offset logical_index byte_start (first, others) after stops
        whole =
      let other : (logical_index == start) ≡ false = ground arith in
      let same : begun offset logical_index byte_start ≡ byte_start = rw other refl in
      let there : offset ≡ offset + 0 = omega arith in
      slice_from-last offset logical_index byte_start (encode point) (encode_all points)
        (encode-Encoded point first) (omega arith)
      ∙ (ap (λ b. (b, offset)) same ∙ ap (λ e. (byte_start, e)) there)
  slice_from-end (point ∷ points) (suc n) offset logical_index byte_start (first, others) after
        stops whole =
      let other : (logical_index == start) ≡ false = ground arith in
      let same : begun offset logical_index byte_start ≡ byte_start = rw other refl in
      let longer = length-append (encode point) (encode_all points) in
      let taken = length-append (encode point) (encode_all (first_bytes n points)) in
      let sum : (offset + length (encode point)) + length (encode_all (first_bytes n points))
          ≡ offset + length (encode point ++ encode_all (first_bytes n points)) =
        omega arith in
      slice_from-next offset logical_index byte_start (encode point) (encode_all points)
        (encode-Encoded point first) (omega arith)
      ∙ (ap
            (λ b.
              slice_from size start stop (offset + length (encode point)) (suc logical_index) b zero
                (encode_all points))
            same
          ∙ (slice_from-end points n (offset + length (encode point)) (suc logical_index) byte_start
                others (omega arith) (omega arith) (omega arith)
              ∙ ap (λ e. (byte_start, e)) sum))

  -- Up to the start, the loop finds both offsets.
  pub slice_from-start :
      (points : List ℕ) (i m n offset logical_index byte_start : ℕ)
      → AllScalars points
      → i < length points
      → start ≡ logical_index + i
      → m ≡ i + suc n
      → stop ≡ logical_index + m
      → size ≡ offset + length (encode_all points)
      → slice_from size start stop offset logical_index byte_start zero (encode_all points) ≡ (
        offset + length (encode_all (first_bytes i points)),
        offset + length (encode_all (first_bytes m points)),
      )
  slice_from-start [] i m n offset logical_index byte_start h inside starts sum stops whole =
      absurd (omega arith)
  slice_from-start (point ∷ points) i zero n offset logical_index byte_start h inside starts sum
        stops whole =
      absurd (omega arith)
  slice_from-start (point ∷ points) zero (suc m) n offset logical_index byte_start (first, others)
        inside starts sum stops whole =
      let here : (logical_index == start) ≡ true = ground arith in
      let now : begun offset logical_index byte_start ≡ offset = rw here refl in
      let longer = length-append (encode point) (encode_all points) in
      let taken = length-append (encode point) (encode_all (first_bytes m points)) in
      let there : offset ≡ offset + 0 = omega arith in
      let total : (offset + length (encode point)) + length (encode_all (first_bytes m points))
          ≡ offset + length (encode point ++ encode_all (first_bytes m points)) =
        omega arith in
      slice_from-next offset logical_index byte_start (encode point) (encode_all points)
        (encode-Encoded point first) (omega arith)
      ∙ (ap
            (λ b.
              slice_from size start stop (offset + length (encode point)) (suc logical_index) b zero
                (encode_all points))
            now
          ∙ (slice_from-end points m (offset + length (encode point)) (suc logical_index) offset
                others (omega arith) (omega arith) (omega arith)
              ∙ (ap (λ e. (offset, e)) total
                  ∙ ap
                      (λ b.
                        (b, offset + length (encode point ++ encode_all (first_bytes m points))))
                      there)))
  slice_from-start (point ∷ points) (suc i) (suc m) n offset logical_index byte_start
        (first, others) inside starts sum stops whole =
      let other : (logical_index == start) ≡ false = ground arith in
      let same : begun offset logical_index byte_start ≡ byte_start = rw other refl in
      let longer = length-append (encode point) (encode_all points) in
      let one = length-append (encode point) (encode_all (first_bytes i points)) in
      let two = length-append (encode point) (encode_all (first_bytes m points)) in
      let left : (offset + length (encode point)) + length (encode_all (first_bytes i points))
          ≡ offset + length (encode point ++ encode_all (first_bytes i points)) =
        omega arith in
      let right : (offset + length (encode point)) + length (encode_all (first_bytes m points))
          ≡ offset + length (encode point ++ encode_all (first_bytes m points)) =
        omega arith in
      slice_from-next offset logical_index byte_start (encode point) (encode_all points)
        (encode-Encoded point first) (omega arith)
      ∙ (ap
            (λ b.
              slice_from size start stop (offset + length (encode point)) (suc logical_index) b zero
                (encode_all points))
            same
          ∙ (slice_from-start points i m n (offset + length (encode point)) (suc logical_index)
                byte_start others (omega arith) (omega arith) (omega arith) (omega arith)
                (omega arith)
              ∙ (ap
                    (λ b. (
                      b,
                      (offset + length (encode point)) + length (encode_all (first_bytes m points)),
                    ))
                    left
                  ∙ ap
                      (λ e.
                        (offset + length (encode point ++ encode_all (first_bytes i points)), e))
                      right)))

  -- A start behind the text is not found.
  pub slice_from-missing :
      (points : List ℕ) (i offset logical_index : ℕ)
      → AllScalars points
      → length points ≤ i
      → start ≡ logical_index + i
      → start < stop
      → slice_from size start stop offset logical_index size zero (encode_all points) ≡ (size, size)
  slice_from-missing [] i offset logical_index h outside starts stops =
      slice_from-nil offset logical_index size
  slice_from-missing (point ∷ points) zero offset logical_index h outside starts stops =
      absurd (omega arith)
  slice_from-missing (point ∷ points) (suc i) offset logical_index (first, others) outside starts
        stops =
      let other : (logical_index == start) ≡ false = ground arith in
      let same : begun offset logical_index size ≡ size = rw other refl in
      slice_from-next offset logical_index size (encode point) (encode_all points)
        (encode-Encoded point first) (omega arith)
      ∙ (ap
            (λ b.
              slice_from size start stop (offset + length (encode point)) (suc logical_index) b zero
                (encode_all points))
            same
          ∙ slice_from-missing points i (offset + length (encode point)) (suc logical_index) others
              (omega arith) (omega arith) stops)
