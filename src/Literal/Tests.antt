-- ===== src/Literal/Tests.antt =====
-- The literal {"a\n": [1, đúng], "b": {}} as the lowering leaves it.
use mathlib.Core.Path.{subst}
use vxx.Prelude.{
  ◌==◌, if◌then◌else◌, ℕ, zero, suc, ◌≡◌, refl, Option, none, some, List, [], ◌∷◌, arith,
}
use vxx.Prelude.Int.{ℤ, pos}
use vxx.Prelude.Bytes.{Bytes, codes}
use vxx.Literal.Types.{
  IrValueOpcode, const_int, const_string, const_bool, map_literal, list_literal, IrValue,
}
use vxx.Literal.Wire.{escape_literal_wire_field, unescape_literal_wire_field}
use vxx.Literal.Wire.RoundTrip.{unescape_literal_wire_field-escape_literal_wire_field}
use vxx.Literal.Encode.{encoders, true_text}
use vxx.Literal.Encode.Ends.{Ends, AllBelow, IsOrdered, encoders-Ends}
use vxx.Literal.Evaluate.{evaluators}
use vxx.Literal.RoundTrip.{encoders-ReadsAs}
use vxx.Literal.RoundTrip.Records.{ReadsAs, read_list, read_map}

-- A reader of one digit.
abbrev one_digit : Bytes → Option ℤ
one_digit (c ∷ []) = if c == 48 then some (pos 0) else if c == 49 then some (pos 1) else none
one_digit _ = none

abbrev no_float : Bytes → Option ℕ
no_float text = none

abbrev ir : IrValueOpcode → Bytes → List ℕ → IrValue
ir opcode text operands = record { opcode = opcode; text = text; operands = operands }

-- Values 0 to 5; the map has the operands 0, 3, 4 and 5.
abbrev literal : List IrValue
literal =
    ir const_string (34 ∷ 97 ∷ 92 ∷ 110 ∷ 34 ∷ []) []
    ∷ ir const_int (codes "1") []
    ∷ ir const_bool true_text []
    ∷ ir list_literal [] (1 ∷ 2 ∷ [])
    ∷ ir const_string (codes "b") []
    ∷ ir map_literal [] []
    ∷ []

encoders-ReadsAs_example :
    ReadsAs
      (read_list one_digit no_float)
      ((encoders literal 7).list (0 ∷ 3 ∷ 4 ∷ 5 ∷ []))
      ((evaluators one_digit no_float literal 7).list (0 ∷ 3 ∷ 4 ∷ 5 ∷ []))
    × ReadsAs
        (read_map one_digit no_float)
        ((encoders literal 7).map (0 ∷ 3 ∷ 4 ∷ 5 ∷ []))
        ((evaluators one_digit no_float literal 7).map (0 ∷ 3 ∷ 4 ∷ 5 ∷ []))
encoders-ReadsAs_example =
    encoders-ReadsAs one_digit no_float literal 7 (0 ∷ 3 ∷ 4 ∷ 5 ∷ []) refl refl

abbrev operands_of : Option IrValue → List ℕ
operands_of none = []
operands_of (some value) = value.operands

AllBelow-same :
    (id : ℕ) (given found : Option IrValue)
    → given ≡ found
    → AllBelow id (operands_of given)
    → AllBelow id (operands_of found)
AllBelow-same id given found same below = subst (λ v. AllBelow id (operands_of v)) same below

literal-IsOrdered : IsOrdered literal
literal-IsOrdered zero value h = AllBelow-same 0 _ (some value) h tt
literal-IsOrdered (suc zero) value h = AllBelow-same 1 _ (some value) h tt
literal-IsOrdered (suc (suc zero)) value h = AllBelow-same 2 _ (some value) h tt
literal-IsOrdered (suc (suc (suc zero))) value h =
    AllBelow-same 3 _ (some value) h (omega arith, (omega arith, tt))
literal-IsOrdered (suc (suc (suc (suc zero)))) value h = AllBelow-same 4 _ (some value) h tt
literal-IsOrdered (suc (suc (suc (suc (suc zero))))) value h = AllBelow-same 5 _ (some value) h tt
literal-IsOrdered (suc (suc (suc (suc (suc (suc id)))))) value h = absurd (ground arith)

encoders-Ends_example :
    Ends ((encoders literal 7).list (0 ∷ 3 ∷ 4 ∷ 5 ∷ []))
    × Ends ((encoders literal 7).map (0 ∷ 3 ∷ 4 ∷ 5 ∷ []))
encoders-Ends_example =
    encoders-Ends literal 6 (0 ∷ 3 ∷ 4 ∷ 5 ∷ []) literal-IsOrdered
      (omega arith, (omega arith, (omega arith, (omega arith, tt))))

unescape_literal_wire_field-escape_literal_wire_field_example :
    unescape_literal_wire_field (escape_literal_wire_field (92 ∷ 110 ∷ 10 ∷ 30 ∷ []))
    ≡ 92 ∷ 110 ∷ 10 ∷ 30 ∷ []
unescape_literal_wire_field-escape_literal_wire_field_example =
    unescape_literal_wire_field-escape_literal_wire_field (92 ∷ 110 ∷ 10 ∷ 30 ∷ [])
