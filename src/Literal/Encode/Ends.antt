-- ===== src/Literal/Encode/Ends.antt =====
-- src/compiler/codegen.cpp: the encoder ends on a program whose values come after their operands.
use vxx.Prelude.{
  ℕ, zero, suc, ◌<◌, ◌≤◌, ◌≡◌, refl, Option, none, some, List, [], ◌∷◌, get_elem?, arith,
}
use vxx.Prelude.Bytes.{Bytes}
use vxx.Literal.Types.{
  IrValueOpcode, const_int, const_float, const_string, const_bool, const_null, map_literal,
  list_literal, IrValue, out_of_fuel, Result, ok, err, and_then,
}
use vxx.Literal.Encode.{
  Encoders, append_tagged_scalar_literal, encode_nested, or_nested, encode_value, value_at,
  encode_items, encode_entries, encoders,
}

abbrev pub Ends {ℓ} : {A : Type ℓ} → Result A → Type 0
Ends (ok a) = Unit
Ends (err out_of_fuel) = ⊥
Ends (err _) = Unit

and_then-Ends :
    {A B : Type 0} (result : Result A) (f : A → Result B)
    → Ends result
    → ((a : A) → Ends (f a))
    → Ends (and_then result f)
and_then-Ends (ok a) f ends rest = rest a
and_then-Ends (err out_of_fuel) f ends rest = ends
and_then-Ends (err _) f ends rest = tt

abbrev pub AllBelow : ℕ → List ℕ → Type 0
AllBelow bound [] = Unit
AllBelow bound (id ∷ ids) = (id < bound) × AllBelow bound ids

AllBelow-le : (low high : ℕ) (ids : List ℕ) → low ≤ high → AllBelow low ids → AllBelow high ids
AllBelow-le low high [] le below = tt
AllBelow-le low high (id ∷ ids) le (first, below) = (omega arith, AllBelow-le low high ids le below)

-- Every value comes after its operands.
abbrev pub IsOrdered : List IrValue → Type 0
IsOrdered values =
    (id : ℕ) (value : IrValue) → get_elem? values id ≡ some value → AllBelow id value.operands

encode_as-Ends :
    (enc : Encoders) (opcode : IrValueOpcode) (text : Bytes) (operands : List ℕ)
    → Ends (enc.list operands)
    → Ends (enc.map operands)
    → Ends
        (or_nested (append_tagged_scalar_literal opcode text) (encode_nested enc opcode operands))
unfolding append_tagged_scalar_literal encode_nested
encode_as-Ends enc const_int text operands lists maps = tt
encode_as-Ends enc const_float text operands lists maps = tt
encode_as-Ends enc const_string text operands lists maps = tt
encode_as-Ends enc const_bool text operands lists maps = tt
encode_as-Ends enc const_null text operands lists maps = tt
encode_as-Ends enc list_literal text operands lists maps =
    and_then-Ends (enc.list operands) _ lists (λ t. tt)
encode_as-Ends enc map_literal text operands lists maps =
    and_then-Ends (enc.map operands) _ maps (λ t. tt)
encode_as-Ends enc _ text operands lists maps = tt

module _ (values : List IrValue) (ordered : IsOrdered values) (enc : Encoders) (bound : ℕ)
    (lists : (ids : List ℕ) → AllBelow bound ids → Ends (enc.list ids))
    (maps : (ids : List ℕ) → AllBelow bound ids → Ends (enc.map ids)) where
  value-Ends :
      (id : ℕ) (found : Option IrValue) (rest : IrValue → Bytes → Result Bytes)
      → get_elem? values id ≡ found
      → id < suc bound
      → ((value : IrValue) (text : Bytes) → Ends (rest value text))
      → Ends (
          and_then
            (value_at values found)
            (λ value. and_then (encode_value enc value) (rest value)))
  unfolding encode_value
  value-Ends id none rest same below ends = tt
  value-Ends id (some value) rest same below ends =
      let operands = AllBelow-le id bound value.operands (omega arith) (ordered id value same) in
      and_then-Ends (encode_value enc value) (rest value)
        (encode_as-Ends enc value.opcode value.text value.operands (lists value.operands operands)
          (maps value.operands operands))
        (ends value)

  value_at-Ends : (found : Option IrValue) → Ends (value_at values found)
  value_at-Ends none = tt
  value_at-Ends (some value) = tt

  encode_items-Ends :
      (index : ℕ) (ids : List ℕ)
      → AllBelow (suc bound) ids
      → Ends (encode_items values enc index ids)
  unfolding encode_items
  encode_items-Ends index [] below = tt
  encode_items-Ends index (id ∷ ids) (first, below) =
      value-Ends id (get_elem? values id) _ refl first (λ value text.
        and_then-Ends (encode_items values enc (suc index) ids) _
          (encode_items-Ends (suc index) ids below) (λ more. tt))

  encode_entries-Ends :
      (index : ℕ) (ids : List ℕ)
      → AllBelow (suc bound) ids
      → Ends (encode_entries values enc index ids)
  unfolding encode_entries
  encode_entries-Ends index [] below = tt
  encode_entries-Ends index (key ∷ []) below = tt
  encode_entries-Ends index (key ∷ id ∷ ids) (first, (second, below)) =
      and_then-Ends (value_at values (get_elem? values key)) _
        (value_at-Ends (get_elem? values key))
        (λ name. value-Ends id (get_elem? values id) _ refl second (λ value text.
          and_then-Ends (encode_entries values enc (suc (suc index)) ids) _
            (encode_entries-Ends (suc (suc index)) ids below) (λ more. tt)))

none_below-Ends :
    (values : List IrValue) (enc : Encoders) (ids : List ℕ)
    → AllBelow zero ids
    → Ends (encode_items values enc zero ids) × Ends (encode_entries values enc zero ids)
unfolding encode_items encode_entries
none_below-Ends values enc [] below = (tt, tt)
none_below-Ends values enc (id ∷ ids) (first, below) = absurd (omega arith)

-- On a program whose values come after their operands, writing a list or a map of values below a bound ends
-- with one more than the bound as fuel: literals are nested less deeply than the values are many.
pub encoders-Ends :
    (values : List IrValue) (bound : ℕ) (ids : List ℕ)
    → IsOrdered values
    → AllBelow bound ids
    → Ends ((encoders values (suc bound)).list ids) × Ends ((encoders values (suc bound)).map ids)
unfolding encoders
encoders-Ends values zero ids ordered below =
    none_below-Ends values (encoders values zero) ids below
encoders-Ends values (suc bound) ids ordered below =
    let lists =
      λ (more : List ℕ) (h : AllBelow bound more). (encoders-Ends values bound more ordered h).0 in
    let maps =
      λ (more : List ℕ) (h : AllBelow bound more). (encoders-Ends values bound more ordered h).1 in
    (
      encode_items-Ends values ordered (encoders values (suc bound)) bound lists maps zero ids
          below,
      encode_entries-Ends values ordered (encoders values (suc bound)) bound lists maps zero ids
          below,
    )
