-- ===== src/Literal/RoundTrip/FieldRecords.antt =====
-- src/compiler/codegen.cpp and src/runtime/literal.cpp: one record of a map, and what is read of it.
use vxx.Prelude.{
  ℕ, zero, suc, ◌≤◌, ◌<◌, ◌≡◌, refl, ◌∙◌, Option, List, [], ◌∷◌, ◌++◌, length, length-append, arith,
}
use vxx.Prelude.Int.{ℤ}
use vxx.Prelude.Bytes.{Bytes, AllPass, AllPass-append}
use vxx.Literal.Types.{LiteralValue, Entries, no_entries, Result, ok, err, and_then}
use vxx.Literal.Wire.{record_separator, field_separator, escape_literal_wire_field}
use vxx.Literal.Wire.RoundTrip.{
  escape_literal_wire_field-AllPass, unescape_literal_wire_field-escape_literal_wire_field,
}
use vxx.Literal.Encode.{separated}
use vxx.Literal.Decode.{split, cut, insert, decode_field, decode_record, decode_entries, decoders}
use vxx.Literal.Laws.{without, cut-append, AllPass-without_record, AllPass-without_field}
use vxx.Literal.RoundTrip.Records.{
  SplitsAs, SplitsAs-record, ReadsAs, read_map, Item, Item-clean, Item-decode,
}

module _ (stoi : Bytes → Option ℤ) (stod : Bytes → Option ℕ) where
  abbrev pub AfterFields : Result Bytes → (Entries → Result Entries) → Type 0
  AfterFields (err e) expected = Unit
  AfterFields (ok more) expected =
      (records : List Bytes) × SplitsAs more records
      × ((fuel : ℕ)
          → length more ≤ fuel
          → (built : Entries)
          → decode_entries stoi stod (decoders stoi stod fuel) records built ≡ expected built)

  abbrev field : Bytes → Bytes → Bytes
  field key text = escape_literal_wire_field key ++ (field_separator ∷ text)

  abbrev pub joined : ℕ → Bytes → Result Bytes → Result Bytes → Result Bytes
  joined index key text rest =
      and_then text (λ t. and_then rest (λ more. ok (separated index ++ (field key t ++ more))))

  abbrev pub both :
      Bytes → Result LiteralValue → (Entries → Result Entries) → Entries → Result Entries
  both key value rest built = and_then value (λ v. rest (insert key v built))

  field-clean :
      (key text : Bytes) (value : Result LiteralValue)
      → Item stoi stod (ok text) value
      → AllPass (without record_separator) (field key text)
  field-clean key text value item =
      AllPass-append (without record_separator) (escape_literal_wire_field key)
        (field_separator ∷ text)
        (AllPass-without_record (escape_literal_wire_field key)
          (escape_literal_wire_field-AllPass key))
        (refl, Item-clean stoi stod text value item)

  decode_record-cut :
      (fuel : ℕ) (front rest : Bytes) (built : Entries)
      → decode_record stoi stod (decoders stoi stod fuel) (front ++ (field_separator ∷ rest)) built
        ≡ decode_field stoi stod
            (decoders stoi stod fuel)
            (cut field_separator (front ++ (field_separator ∷ rest)))
            built
  decode_record-cut fuel [] rest built = refl
  decode_record-cut fuel (c ∷ front) rest built = refl

  decode-field :
      (fuel : ℕ) (key text : Bytes) (value : Result LiteralValue) (built : Entries)
      → Item stoi stod (ok text) value
      → length text ≤ fuel
      → decode_record stoi stod (decoders stoi stod fuel) (field key text) built
        ≡ and_then value (λ v. ok (insert key v built))
  decode-field fuel key text value built item enough =
      rw
        (
          decode_record-cut fuel (escape_literal_wire_field key) text built,
          cut-append field_separator (escape_literal_wire_field key) text (
              AllPass-without_field (escape_literal_wire_field key)
                (escape_literal_wire_field-AllPass key)),
          Item-decode stoi stod text value fuel item enough,
          unescape_literal_wire_field-escape_literal_wire_field key,
        )
        refl

  bind-ok :
      (value : Result LiteralValue) (key : Bytes) (built : Entries)
      (rest : Entries → Result Entries)
      → and_then (and_then value (λ v. ok (insert key v built))) rest ≡ both key value rest built
  bind-ok (ok v) key built rest = refl
  bind-ok (err e) key built rest = refl

  and_then-same :
      (value : Result Entries) (f g : Entries → Result Entries)
      → ((entries : Entries) → f entries ≡ g entries)
      → and_then value f ≡ and_then value g
  and_then-same (ok v) f g same = same v
  and_then-same (err e) f g same = refl

  fields-decode :
      (fuel : ℕ) (key text : Bytes) (value : Result LiteralValue) (records : List Bytes)
      (rest : Entries → Result Entries) (built : Entries)
      → Item stoi stod (ok text) value
      → length text ≤ fuel
      → ((entries : Entries)
          → decode_entries stoi stod (decoders stoi stod fuel) records entries ≡ rest entries)
      → decode_entries stoi stod (decoders stoi stod fuel) (field key text ∷ records) built
        ≡ both key value rest built
  unfolding decode_entries
  fields-decode fuel key text value records rest built item enough reads =
      rw (decode-field fuel key text value built item enough) (
        and_then-same (and_then value (λ v. ok (insert key v built)))
          (decode_entries stoi stod (decoders stoi stod fuel) records) rest reads
        ∙ bind-ok value key built rest)

  length-field :
      (key text more : Bytes) (bound : ℕ)
      → length (field key text ++ more) ≤ bound
      → (length text ≤ bound) × (length more ≤ bound)
  length-field key text more bound enough =
      let whole = length-append (field key text) more in
      let one = length-append (escape_literal_wire_field key) (field_separator ∷ text) in
      (omega (arith, whole, one), omega (arith, whole, one))

  pub joined-AfterFields :
      (index : ℕ) (key : Bytes) (text : Result Bytes) (value : Result LiteralValue)
      (more : Result Bytes) (rest : Entries → Result Entries)
      → Item stoi stod text value
      → AfterFields more rest
      → AfterFields (joined (suc index) key text more) (both key value rest)
  joined-AfterFields index key (err e) value more rest item after = tt
  joined-AfterFields index key (ok text) value (err e) rest item after = tt
  joined-AfterFields index key (ok text) value (ok more) rest item (records, splits, reads) = (
    field key text ∷ records,
    SplitsAs-record (field key text) more records (field-clean key text value item) splits,
    λ fuel enough built.
        let parts = length-field key text more fuel (omega arith) in
        fields-decode fuel key text value records rest built item parts.0 (reads fuel parts.1),
  )

  read_map-record :
      (fuel : ℕ) (front rest more : Bytes)
      → read_map stoi stod (suc fuel) ((front ++ (field_separator ∷ rest)) ++ more)
        ≡ decode_entries stoi stod
            (decoders stoi stod fuel)
            (split record_separator ((front ++ (field_separator ∷ rest)) ++ more))
            no_entries
  unfolding decoders
  read_map-record fuel [] rest more = refl
  read_map-record fuel (c ∷ front) rest more = refl

  read-joined :
      (fuel : ℕ) (key text more : Bytes) (value : Result LiteralValue)
      (rest : Entries → Result Entries)
      → Item stoi stod (ok text) value
      → AfterFields (ok more) rest
      → length (field key text ++ more) < fuel
      → read_map stoi stod fuel (field key text ++ more) ≡ both key value rest no_entries
  read-joined zero key text more value rest item after enough = absurd (omega arith)
  read-joined (suc fuel) key text more value rest item (records, splits, reads) enough =
      let parts = length-field key text more fuel (omega arith) in
      rw
        (
          read_map-record fuel (escape_literal_wire_field key) text more,
          splits (field key text) (field-clean key text value item),
        )
        (fields-decode fuel key text value records rest no_entries item parts.0
          (reads fuel parts.1))

  pub joined-ReadsAs :
      (key : Bytes) (text : Result Bytes) (value : Result LiteralValue) (more : Result Bytes)
      (rest : Entries → Result Entries)
      → Item stoi stod text value
      → AfterFields more rest
      → ReadsAs (read_map stoi stod) (joined zero key text more) (both key value rest no_entries)
  joined-ReadsAs key (err e) value more rest item after = tt
  joined-ReadsAs key (ok text) value (err e) rest item after = tt
  joined-ReadsAs key (ok text) value (ok more) rest item after =
      λ fuel enough. read-joined fuel key text more value rest item after enough
