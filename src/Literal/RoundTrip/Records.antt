-- ===== src/Literal/RoundTrip/Records.antt =====
-- One encoded value: its record, and what is read of it.
use vxx.Prelude.{
  ℕ, ◌≤◌, ◌<◌, ◌≡◌, refl, ap, Bool, true, false, Option, some, List, [], ◌∷◌, ◌++◌, length,
  if◌then◌else◌, arith,
}
use vxx.Prelude.Int.{ℤ, pos}
use vxx.Prelude.Bytes.{Bytes, equal, AllPass}
use vxx.Literal.Types.{
  LiteralValue, int_value, list_value, map_value, Elements, Entries, IrValueOpcode, const_int,
  const_float, const_string, const_bool, const_null, map_literal, list_literal, IrValue, Result, ok,
  err, and_then,
}
use vxx.Literal.Wire.{record_separator, field_separator, is_escaped, escape_literal_wire_field}
use vxx.Literal.Wire.RoundTrip.{
  is_clean, unescape_literal_wire_field-escape_literal_wire_field,
  escape_literal_wire_field-AllPass, length-escape_literal_wire_field,
}
use vxx.Literal.Encode.{
  Encoders, append_tagged_scalar_literal, tagged, encode_nested, or_nested, true_text,
}
use vxx.Literal.Decode.{split, cut, decode_value, decode_item, decoders}
use vxx.Literal.Evaluate.{Evaluators, evaluate_as}
use vxx.Literal.Laws.{without, cut-append, split-append, split_all, AllPass-without_record}

-- The text splits into these records behind whatever stands in front of it.
abbrev pub SplitsAs : Bytes → List Bytes → Type 0
SplitsAs more records =
    (front : Bytes)
    → AllPass (without record_separator) front
    → split record_separator (front ++ more) ≡ front ∷ records

pub SplitsAs-nil : SplitsAs [] []
SplitsAs-nil front clean = split_all record_separator front clean

pub SplitsAs-record :
    (text more : Bytes) (records : List Bytes)
    → AllPass (without record_separator) text
    → SplitsAs more records
    → SplitsAs (record_separator ∷ (text ++ more)) (text ∷ records)
SplitsAs-record text more records clean splits front front_clean =
    rw (split-append record_separator front (text ++ more) front_clean, splits text clean) refl

-- A text that a decoder reads as expected, with more fuel than bytes.
abbrev pub ReadsAs {ℓ} : {A : Type ℓ} → (ℕ → Bytes → Result A) → Result Bytes → Result A → Type ℓ
ReadsAs decode (err e) expected = Unit
ReadsAs decode (ok text) expected = (fuel : ℕ) → length text < fuel → decode fuel text ≡ expected

module _ (stoi : Bytes → Option ℤ) (stod : Bytes → Option ℕ) where
  abbrev pub read_list : ℕ → Bytes → Result Elements
  read_list fuel text = (decoders stoi stod fuel).list text

  abbrev pub read_map : ℕ → Bytes → Result Entries
  read_map fuel text = (decoders stoi stod fuel).map text

  -- A value in a record: its tag, and its text escaped.
  abbrev pub Item : Result Bytes → Result LiteralValue → Type 0
  Item (err e) expected = Unit
  Item (ok text) expected =
      (tag : ℕ) × (raw : Bytes) × (text ≡ tag ∷ field_separator ∷ escape_literal_wire_field raw)
      × (is_clean tag ≡ true)
      × ((fuel : ℕ)
          → length raw < fuel
          → decode_value stoi stod (decoders stoi stod fuel) (tag ∷ []) raw ≡ expected)

  pub Item-clean :
      (text : Bytes) (expected : Result LiteralValue)
      → Item (ok text) expected
      → AllPass (without record_separator) text
  Item-clean text expected (tag, raw, same, clean, reads) = rw same (
    ground arith,
    (
      refl,
      AllPass-without_record (escape_literal_wire_field raw)
          (escape_literal_wire_field-AllPass raw),
    ),
  )

  -- Cut at the separator, the record decodes to what is expected.
  pub Item-decode :
      (text : Bytes) (expected : Result LiteralValue) (fuel : ℕ)
      → Item (ok text) expected
      → length text ≤ fuel
      → decode_item stoi stod (decoders stoi stod fuel) (cut field_separator text) ≡ expected
  Item-decode text expected fuel (tag, raw, same, clean, reads) enough =
      let longer = length-escape_literal_wire_field raw in
      rw
        (
          same,
          cut-append field_separator (tag ∷ []) (escape_literal_wire_field raw) (ground arith, tt),
          unescape_literal_wire_field-escape_literal_wire_field raw,
        )
        (reads fuel (omega (arith, ap length same)))

  tagged_list-Item :
      (text : Result Bytes) (expected : Result Elements)
      → ReadsAs read_list text expected
      → Item (tagged 108 text) (and_then expected (λ elements. ok (list_value elements)))
  unfolding decode_value equal
  tagged_list-Item (err e) expected reads = tt
  tagged_list-Item (ok text) expected reads =
      (108, text, refl, refl, λ fuel enough. rw (reads fuel enough) refl)

  tagged_map-Item :
      (text : Result Bytes) (expected : Result Entries)
      → ReadsAs read_map text expected
      → Item (tagged 109 text) (and_then expected (λ entries. ok (map_value entries)))
  unfolding decode_value equal
  tagged_map-Item (err e) expected reads = tt
  tagged_map-Item (ok text) expected reads =
      (109, text, refl, refl, λ fuel enough. rw (reads fuel enough) refl)

  module _ (one : stoi (49 ∷ []) ≡ some (pos 1)) (nought : stoi (48 ∷ []) ≡ some (pos 0)) where
    bit-Item :
        (bit : Bool)
        → Item
            (ok (105 ∷ field_separator ∷ (if bit then 49 else 48) ∷ []))
            (ok (int_value (pos (if bit then 1 else 0))))
    unfolding decode_value equal escape_literal_wire_field is_escaped
    bit-Item true = (105, 49 ∷ [], refl, refl, λ fuel enough. rw one refl)
    bit-Item false = (105, 48 ∷ [], refl, refl, λ fuel enough. rw nought refl)

    pub encode_as-Item :
        (values : List IrValue) (enc : Encoders) (ev : Evaluators) (opcode : IrValueOpcode)
        (text : Bytes) (operands : List ℕ)
        → ReadsAs read_list (enc.list operands) (ev.list operands)
        → ReadsAs read_map (enc.map operands) (ev.map operands)
        → Item
            (or_nested
              (append_tagged_scalar_literal opcode text)
              (encode_nested enc opcode operands))
            (evaluate_as stoi stod values ev opcode text operands)
    unfolding append_tagged_scalar_literal encode_nested decode_value equal
        escape_literal_wire_field
    encode_as-Item values enc ev const_int text operands lists maps =
        (105, text, refl, refl, λ fuel enough. refl)
    encode_as-Item values enc ev const_bool text operands lists maps =
        bit-Item (equal text true_text)
    encode_as-Item values enc ev const_float text operands lists maps =
        (100, text, refl, refl, λ fuel enough. refl)
    encode_as-Item values enc ev const_string text operands lists maps =
        (115, _, refl, refl, λ fuel enough. refl)
    encode_as-Item values enc ev const_null text operands lists maps =
        (110, [], refl, refl, λ fuel enough. refl)
    encode_as-Item values enc ev list_literal text operands lists maps =
        tagged_list-Item (enc.list operands) (ev.list operands) lists
    encode_as-Item values enc ev map_literal text operands lists maps =
        tagged_map-Item (enc.map operands) (ev.map operands) maps
    encode_as-Item values enc ev _ text operands lists maps = tt
