-- ===== src/Literal/Encode.antt =====
-- src/compiler/codegen.cpp: `encodeListLiteral` and `encodeMapLiteral`, with the `stripQuotes` of
-- src/frontend/lexer.cpp.
pub mod Ends
use vxx.Prelude.{
  ℕ, zero, suc, ◌≡◌, Bool, true, false, ◌==◌, ◌||◌, ◌&&◌, Option, none, some, List, [], ◌∷◌, ◌++◌,
  get_elem?, if◌then◌else◌,
}
use vxx.Prelude.Bytes.{Bytes, equal}
use vxx.Literal.Types.{
  IrValueOpcode, const_int, const_float, const_string, const_bool, const_null, map_literal,
  list_literal, IrValue, LiteralError, unsupported_value, undefined_value, out_of_fuel, Result, ok,
  err, and_then,
}
use vxx.Literal.Wire.{record_separator, field_separator, backslash, escape_literal_wire_field}

-- The byte that \ and this byte stand for in a source text.
pub source_escape : ℕ → ℕ
source_escape mark =
    if mark == 110
    then 10
    else if mark == 114
    then 13
    else if mark == 116
    then 9
    else if mark == 48
    then 0
    else mark

-- The loop over the text between the quotes.
pub unescape_source : Bytes → Bytes
unescape_source [] = []
unescape_source (c ∷ []) = c ∷ []
unescape_source (c ∷ mark ∷ inner) =
    let escaped = unescape_source inner in
    let rest = unescape_source (mark ∷ inner) in
    if c == backslash then source_escape mark ∷ escaped else c ∷ rest

-- input.back(), and the text before it
abbrev pub back : ℕ → Bytes → ℕ
back c [] = c
back c (d ∷ input) = back d input

abbrev pub before_back : ℕ → Bytes → Bytes
before_back c [] = []
before_back c (d ∷ input) = c ∷ before_back d input

-- stripQuotes, by the first two bytes
unfoldable pub strip_quotes : Bytes → Bytes
strip_quotes [] = []
strip_quotes (c ∷ []) = c ∷ []
strip_quotes (c ∷ d ∷ input) =
    if c == 34 && back d input == 34 || c == 39 && back d input == 39
    then unescape_source (before_back d input)
    else c ∷ d ∷ input

-- "đúng"
abbrev pub true_text : Bytes
true_text = 196 ∷ 145 ∷ 195 ∷ 186 ∷ 110 ∷ 103 ∷ []

-- appendTaggedScalarLiteral: what it appends, and nothing where it returns false
unfoldable pub append_tagged_scalar_literal : IrValueOpcode → Bytes → Option Bytes
append_tagged_scalar_literal const_int text =
    some (105 ∷ field_separator ∷ escape_literal_wire_field text)
append_tagged_scalar_literal const_bool text =
    some (105 ∷ field_separator ∷ (if equal text true_text then 49 else 48) ∷ [])
append_tagged_scalar_literal const_float text =
    some (100 ∷ field_separator ∷ escape_literal_wire_field text)
append_tagged_scalar_literal const_string text =
    some (115 ∷ field_separator ∷ escape_literal_wire_field (strip_quotes text))
append_tagged_scalar_literal const_null text = some (110 ∷ field_separator ∷ [])
append_tagged_scalar_literal _ text = none

-- The two functions that call each other.
pub record Encoders : Type 0 where
  pub list : List ℕ → Result Bytes
  pub map : List ℕ → Result Bytes

-- A tag, the separator, and the escaped text of a nested literal.
abbrev pub tagged : ℕ → Result Bytes → Result Bytes
tagged tag text = and_then text (λ t. ok (tag ∷ field_separator ∷ escape_literal_wire_field t))

unfoldable pub encode_nested : Encoders → IrValueOpcode → List ℕ → Result Bytes
encode_nested encoders list_literal operands = tagged 108 (encoders.list operands)
encode_nested encoders map_literal operands = tagged 109 (encoders.map operands)
encode_nested encoders _ operands = err unsupported_value

abbrev pub or_nested : Option Bytes → Result Bytes → Result Bytes
or_nested (some text) nested = ok text
or_nested none nested = nested

unfoldable pub encode_value : Encoders → IrValue → Result Bytes
encode_value encoders value =
    or_nested (append_tagged_scalar_literal value.opcode value.text)
      (encode_nested encoders value.opcode value.operands)

-- if (index != 0) encoded << recordSeparator
abbrev pub separated : ℕ → Bytes
separated zero = []
separated (suc index) = record_separator ∷ []

abbrev pub key_text : IrValueOpcode → Bytes → Bytes
key_text const_string text = strip_quotes text
key_text _ text = text

-- The values of the program by their numbers.
module _ (values : List IrValue) where
  -- *program.value(id)
  abbrev pub value_at : Option IrValue → Result IrValue
  value_at none = err undefined_value
  value_at (some value) = ok value

  -- The loop of `encodeListLiteral` from an index on.
  unfoldable pub encode_items : Encoders → ℕ → List ℕ → Result Bytes
  encode_items encoders index [] = ok []
  encode_items encoders index (id ∷ ids) =
      let rest = encode_items encoders (suc index) ids in
      and_then (value_at (get_elem? values id)) (λ value.
        and_then (encode_value encoders value)
          (λ text. and_then rest (λ more. ok (separated index ++ (text ++ more)))))

  -- The loop of `encodeMapLiteral` from an index on.
  unfoldable pub encode_entries : Encoders → ℕ → List ℕ → Result Bytes
  encode_entries encoders index [] = ok []
  encode_entries encoders index (key ∷ []) = err undefined_value
  encode_entries encoders index (key ∷ id ∷ ids) =
      let rest = encode_entries encoders (suc (suc index)) ids in
      and_then (value_at (get_elem? values key)) (λ name.
        and_then (value_at (get_elem? values id)) (λ value.
          and_then (encode_value encoders value) (λ text. and_then rest (λ more. ok (
            separated index
            ++ ((escape_literal_wire_field (key_text name.opcode name.text)
                  ++ field_separator ∷ text)
                ++ more))))))

  -- encodeListLiteral and encodeMapLiteral, on the operands of the literal
  unfoldable pub encoders : ℕ → Encoders
  encoders zero = record { list = λ ids. err out_of_fuel; map = λ ids. err out_of_fuel }
  encoders (suc fuel) =
      let inner = encoders fuel in
      record {
        list = λ ids. encode_items inner zero ids;
        map = λ ids. encode_entries inner zero ids;
      }
