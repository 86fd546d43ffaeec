-- ===== src/Literal/Decode.antt =====
-- src/runtime/literal.cpp. `std::stoi` and `std::stod` are parameters; they throw where they give nothing.
use vxx.Prelude.{ℕ, zero, suc, ◌==◌, Option, none, some, List, [], ◌∷◌, if◌then◌else◌}
use vxx.Prelude.Int.{ℤ}
use vxx.Prelude.Bytes.{Bytes, equal, less}
use vxx.Literal.Types.{
  LiteralValue, int_value, double_value, string_value, null_value, list_value, map_value, Elements,
  no_elements, element, Entries, no_entries, entry, encode_invalid, type_tag_invalid,
  number_invalid, out_of_fuel, Result, ok, err, and_then,
}
use vxx.Literal.Wire.{record_separator, field_separator, unescape_literal_wire_field}

-- The records between the separators: `find` and `substr` from `start` on, until `end` is the end of the text.
abbrev pub onto_first : ℕ → List Bytes → List Bytes
onto_first c [] = (c ∷ []) ∷ []
onto_first c (record_text ∷ others) = (c ∷ record_text) ∷ others

unfoldable pub split : ℕ → Bytes → List Bytes
split separator [] = [] ∷ []
split separator (c ∷ text) =
    let rest = split separator text in if c == separator then [] ∷ rest else onto_first c rest

-- The text before the first separator and the one after it: `find`, with `npos` as none.
abbrev pub onto_front : ℕ → Option (Bytes × Bytes) → Option (Bytes × Bytes)
onto_front c none = none
onto_front c (some (front, rest)) = some (c ∷ front, rest)

unfoldable pub cut : ℕ → Bytes → Option (Bytes × Bytes)
cut separator [] = none
cut separator (c ∷ text) =
    let rest = cut separator text in if c == separator then some ([], text) else onto_front c rest

-- m.entries[key] = value
unfoldable pub insert : Bytes → LiteralValue → Entries → Entries
insert key value no_entries = entry key value no_entries
insert key value (entry k v entries) =
    let rest = insert key value entries in
    if equal key k
    then entry k value entries
    else if less key k
    then entry key value (entry k v entries)
    else entry k v rest

abbrev pub number {ℓ} : {A : Type ℓ} → (A → LiteralValue) → Option A → Result LiteralValue
number make none = err number_invalid
number make (some n) = ok (make n)

-- The two functions that call each other.
pub record Decoders : Type 0 where
  pub list : Bytes → Result Elements
  pub map : Bytes → Result Entries

module _ (stoi : Bytes → Option ℤ) (stod : Bytes → Option ℕ) where
  -- The chain of tests on the tag.
  unfoldable pub decode_value : Decoders → Bytes → Bytes → Result LiteralValue
  decode_value decoders tag value =
      if equal tag (105 ∷ [])
      then number int_value (stoi value)
      else if equal tag (100 ∷ [])
      then number double_value (stod value)
      else if equal tag (115 ∷ [])
      then ok (string_value value)
      else if equal tag (110 ∷ [])
      then ok null_value
      else if equal tag (108 ∷ [])
      then and_then (decoders.list value) (λ elements. ok (list_value elements))
      else if equal tag (109 ∷ [])
      then and_then (decoders.map value) (λ entries. ok (map_value entries))
      else err type_tag_invalid

  -- A record of a list, cut at the separator.
  abbrev pub decode_item : Decoders → Option (Bytes × Bytes) → Result LiteralValue
  decode_item decoders none = err encode_invalid
  decode_item decoders (some (tag, value)) =
      decode_value decoders tag (unescape_literal_wire_field value)

  unfoldable pub decode_items : Decoders → List Bytes → Result Elements
  decode_items decoders [] = ok no_elements
  decode_items decoders (record_text ∷ others) =
      let rest = decode_items decoders others in
      and_then (decode_item decoders (cut field_separator record_text))
        (λ value. and_then rest (λ elements. ok (element value elements)))

  -- A record of a map: what follows its key is cut again.
  abbrev pub decode_field : Decoders → Option (Bytes × Bytes) → Entries → Result Entries
  decode_field decoders none found = err encode_invalid
  decode_field decoders (some (key, value)) found =
      and_then (decode_item decoders (cut field_separator value))
        (λ v. ok (insert (unescape_literal_wire_field key) v found))

  abbrev pub decode_record : Decoders → Bytes → Entries → Result Entries
  decode_record decoders [] entries = ok entries
  decode_record decoders (c ∷ text) entries =
      decode_field decoders (cut field_separator (c ∷ text)) entries

  unfoldable pub decode_entries : Decoders → List Bytes → Entries → Result Entries
  decode_entries decoders [] entries = ok entries
  decode_entries decoders (record_text ∷ others) entries =
      and_then (decode_record decoders record_text entries)
        (λ more. decode_entries decoders others more)

  abbrev decode_list : Decoders → Bytes → Result Elements
  decode_list decoders [] = ok no_elements
  decode_list decoders (c ∷ text) = decode_items decoders (split record_separator (c ∷ text))

  abbrev decode_map : Decoders → Bytes → Result Entries
  decode_map decoders [] = ok no_entries
  decode_map decoders (c ∷ text) =
      decode_entries decoders (split record_separator (c ∷ text)) no_entries

  -- decodeListFromStringPool and decodeMapFromStringPool
  unfoldable pub decoders : ℕ → Decoders
  decoders zero = record { list = λ text. err out_of_fuel; map = λ text. err out_of_fuel }
  decoders (suc fuel) =
      let inner = decoders fuel in
      record { list = λ text. decode_list inner text; map = λ text. decode_map inner text }
