-- ===== src/Text/Tests.antt =====
-- A text with units of one, two, three and four bytes, and malformed ones.
use vxx.Prelude.{arith, ℕ, true, false, ◌≡◌, refl, List, [], ◌∷◌, get_elem?}
use vxx.Prelude.Bytes.{codes}
use vxx.Text.{
  utf8_code_point_slice, is_valid_utf8, valid_from, utf8_code_point_count, count_from,
  utf8_code_point_at, utf8_unit_length_or_raw_byte, utf8_sequence_length, valid_utf8_unit,
  is_continuation, trim, trim_start, trim_end, to_lower_ascii,
}
use vxx.Text.Slice.{utf8_code_point_slice-encode_all}
use vxx.Text.Scalars.{encode_all, encode_option, utf8-encode_all}

abbrev points : List ℕ
points = 97 ∷ 273 ∷ 7879 ∷ 128512 ∷ []

utf8-encode_all_example :
    (is_valid_utf8 (encode_all points) ≡ true)
    × (utf8_code_point_count (encode_all points) ≡ 4)
    × ((i : ℕ) → utf8_code_point_at (encode_all points) i ≡ encode_option (get_elem? points i))
utf8-encode_all_example = utf8-encode_all points (refl, (refl, (refl, (refl, tt))))

-- A surrogate is not valid, and its three bytes count as three raw bytes.
surrogate_invalid : is_valid_utf8 (237 ∷ 160 ∷ 128 ∷ []) ≡ false
unfolding is_valid_utf8 valid_from utf8_sequence_length valid_utf8_unit is_continuation
surrogate_invalid = refl

surrogate_counted : utf8_code_point_count (237 ∷ 160 ∷ 128 ∷ []) ≡ 3
unfolding utf8_code_point_count count_from utf8_unit_length_or_raw_byte utf8_sequence_length
    valid_utf8_unit is_continuation
surrogate_counted = refl

trimmed : trim (codes "  a b ") ≡ codes "a b"
unfolding trim trim_start trim_end
trimmed = refl

lowered : to_lower_ascii (codes "AbZ") ≡ codes "abz"
unfolding to_lower_ascii
lowered = refl

utf8_code_point_slice-encode_all_example :
    utf8_code_point_slice (encode_all points) 1 2 ≡ encode_all (273 ∷ 7879 ∷ [])
utf8_code_point_slice-encode_all_example =
    utf8_code_point_slice-encode_all points 1 2 (refl, (refl, (refl, (refl, tt)))) (omega arith)
