-- ===== src/Literal/RoundTrip/Items.antt =====
-- src/compiler/codegen.cpp and src/runtime/literal.cpp: the records of a list.
use vxx.Prelude.{
  ℕ, zero, suc, ◌≤◌, ◌<◌, ◌≡◌, refl, Option, none, some, List, [], ◌∷◌, ◌++◌, length, length-append,
  get_elem?, arith,
}
use vxx.Prelude.Int.{ℤ, pos}
use vxx.Prelude.Bytes.{Bytes}
use vxx.Literal.Types.{
  LiteralValue, Elements, no_elements, element, IrValue, Result, ok, err, and_then,
}
use vxx.Literal.Wire.{record_separator, field_separator, escape_literal_wire_field}
use vxx.Literal.Encode.{Encoders, encode_value, value_at, separated, encode_items}
use vxx.Literal.Decode.{split, decode_items, decoders}
use vxx.Literal.Evaluate.{Evaluators, evaluate_value, evaluate_items}
use vxx.Literal.RoundTrip.Records.{
  SplitsAs, SplitsAs-nil, SplitsAs-record, ReadsAs, read_list, read_map, encode_as-Item, Item,
  Item-clean, Item-decode,
}

module _ (stoi : Bytes → Option ℤ) (stod : Bytes → Option ℕ) where
  -- What follows the first record of a list.
  abbrev After : Result Bytes → Result Elements → Type 0
  After (err e) expected = Unit
  After (ok more) expected =
      (records : List Bytes) × SplitsAs more records
      × ((fuel : ℕ)
          → length more ≤ fuel
          → decode_items stoi stod (decoders stoi stod fuel) records ≡ expected)

  abbrev joined : ℕ → Result Bytes → Result Bytes → Result Bytes
  joined index text rest =
      and_then text (λ t. and_then rest (λ more. ok (separated index ++ (t ++ more))))

  abbrev both : Result LiteralValue → Result Elements → Result Elements
  both value rest = and_then value (λ v. and_then rest (λ elements. ok (element v elements)))

  records-decode :
      (text : Bytes) (value : Result LiteralValue) (records : List Bytes) (rest : Result Elements)
      (fuel : ℕ)
      → Item stoi stod (ok text) value
      → length text ≤ fuel
      → decode_items stoi stod (decoders stoi stod fuel) records ≡ rest
      → decode_items stoi stod (decoders stoi stod fuel) (text ∷ records) ≡ both value rest
  unfolding decode_items
  records-decode text value records rest fuel item enough reads =
      rw (Item-decode stoi stod text value fuel item enough, reads) refl

  joined-After :
      (index : ℕ) (text : Result Bytes) (value : Result LiteralValue) (more : Result Bytes)
      (rest : Result Elements)
      → Item stoi stod text value
      → After more rest
      → After (joined (suc index) text more) (both value rest)
  joined-After index (err e) value more rest item after = tt
  joined-After index (ok text) value (err e) rest item after = tt
  joined-After index (ok text) value (ok more) rest item (records, splits, reads) = (
    text ∷ records,
    SplitsAs-record text more records (Item-clean stoi stod text value item) splits,
    λ fuel enough.
        records-decode text value records rest fuel item (omega (arith, length-append text more))
          (reads fuel (omega (arith, length-append text more))),
  )

  -- A text with a first record is not empty.
  read_list-record :
      (fuel tag : ℕ) (text raw more : Bytes)
      → text ≡ tag ∷ raw
      → read_list stoi stod (suc fuel) (text ++ more)
        ≡ decode_items stoi stod (decoders stoi stod fuel) (split record_separator (text ++ more))
  unfolding decoders
  read_list-record fuel tag text raw more same = rw same refl

  read-joined :
      (fuel : ℕ) (text more : Bytes) (value : Result LiteralValue) (rest : Result Elements)
      → Item stoi stod (ok text) value
      → After (ok more) rest
      → length (text ++ more) < fuel
      → read_list stoi stod fuel (text ++ more) ≡ both value rest
  read-joined zero text more value rest item after enough = absurd (omega arith)
  read-joined (suc fuel) text more value rest item (records, splits, reads) enough =
      rw
        (
          read_list-record fuel item.0 text (field_separator ∷ escape_literal_wire_field item.1)
              more item.2,
          splits text (Item-clean stoi stod text value item),
        )
        (records-decode text value records rest fuel item (omega (arith, length-append text more))
          (reads fuel (omega (arith, length-append text more))))

  joined-ReadsAs :
      (text : Result Bytes) (value : Result LiteralValue) (more : Result Bytes)
      (rest : Result Elements)
      → Item stoi stod text value
      → After more rest
      → ReadsAs (read_list stoi stod) (joined zero text more) (both value rest)
  joined-ReadsAs (err e) value more rest item after = tt
  joined-ReadsAs (ok text) value (err e) rest item after = tt
  joined-ReadsAs (ok text) value (ok more) rest item after =
      λ fuel enough. read-joined fuel text more value rest item after enough

  module _ (one : stoi (49 ∷ []) ≡ some (pos 1)) (nought : stoi (48 ∷ []) ≡ some (pos 0))
      (values : List IrValue) (enc : Encoders) (ev : Evaluators)
      (lists : (ids : List ℕ) → ReadsAs (read_list stoi stod) (enc.list ids) (ev.list ids))
      (maps : (ids : List ℕ) → ReadsAs (read_map stoi stod) (enc.map ids) (ev.map ids)) where
    pub encode_value-Item :
        (value : IrValue)
        → Item stoi stod (encode_value enc value) (evaluate_value stoi stod values ev value)
    unfolding encode_value
    encode_value-Item value =
        encode_as-Item stoi stod one nought values enc ev value.opcode value.text value.operands
          (lists value.operands) (maps value.operands)

    next-After :
        (index : ℕ) (value : Option IrValue) (more : Result Bytes) (rest : Result Elements)
        → After more rest
        → After
            (and_then (value_at values value) (λ v. joined (suc index) (encode_value enc v) more))
            (and_then
              (value_at values value)
              (λ v. both (evaluate_value stoi stod values ev v) rest))
    next-After index none more rest after = tt
    next-After index (some value) more rest after =
        joined-After index (encode_value enc value) (evaluate_value stoi stod values ev value) more
          rest (encode_value-Item value) after

    encode_items-After :
        (index : ℕ) (ids : List ℕ)
        → After (encode_items values enc (suc index) ids) (evaluate_items stoi stod values ev ids)
    unfolding encode_items decode_items
    encode_items-After index [] = ([], SplitsAs-nil, λ fuel enough. refl)
    encode_items-After index (id ∷ ids) =
        next-After index (get_elem? values id) (encode_items values enc (suc (suc index)) ids)
          (evaluate_items stoi stod values ev ids) (encode_items-After (suc index) ids)

    first-ReadsAs :
        (value : Option IrValue) (more : Result Bytes) (rest : Result Elements)
        → After more rest
        → ReadsAs
            (read_list stoi stod)
            (and_then (value_at values value) (λ v. joined zero (encode_value enc v) more))
            (and_then
              (value_at values value)
              (λ v. both (evaluate_value stoi stod values ev v) rest))
    first-ReadsAs none more rest after = tt
    first-ReadsAs (some value) more rest after =
        joined-ReadsAs (encode_value enc value) (evaluate_value stoi stod values ev value) more rest
          (encode_value-Item value) after

    read_list-nil : (fuel : ℕ) → zero < fuel → read_list stoi stod fuel [] ≡ ok no_elements
    unfolding decoders
    read_list-nil zero enough = absurd (omega arith)
    read_list-nil (suc fuel) enough = refl

    -- The loop over a list writes what its decoder reads.
    pub encode_items-ReadsAs :
        (ids : List ℕ)
        → ReadsAs
            (read_list stoi stod)
            (encode_items values enc zero ids)
            (evaluate_items stoi stod values ev ids)
    unfolding encode_items
    encode_items-ReadsAs [] = λ fuel enough. read_list-nil fuel enough
    encode_items-ReadsAs (id ∷ ids) =
        first-ReadsAs (get_elem? values id) (encode_items values enc (suc zero) ids)
          (evaluate_items stoi stod values ev ids) (encode_items-After zero ids)
