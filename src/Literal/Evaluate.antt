-- ===== src/Literal/Evaluate.antt =====
-- What a literal means, without the text in between: the value that the machine must build.
use vxx.Prelude.{ℕ, zero, suc, Option, List, [], ◌∷◌, get_elem?, if◌then◌else◌}
use vxx.Prelude.Int.{ℤ, pos}
use vxx.Prelude.Bytes.{Bytes, equal}
use vxx.Literal.Types.{
  LiteralValue, int_value, double_value, string_value, null_value, list_value, map_value, Elements,
  no_elements, element, Entries, no_entries, IrValueOpcode, const_int, const_float, const_string,
  const_bool, const_null, map_literal, list_literal, IrValue, unsupported_value, undefined_value,
  out_of_fuel, Result, ok, err, and_then,
}
use vxx.Literal.Encode.{strip_quotes, true_text, key_text, value_at}
use vxx.Literal.Decode.{number, insert}

pub record Evaluators : Type 0 where
  pub list : List ℕ → Result Elements
  pub map : List ℕ → Result Entries

module _ (stoi : Bytes → Option ℤ) (stod : Bytes → Option ℕ) (values : List IrValue) where
  abbrev pub evaluate_as : Evaluators → IrValueOpcode → Bytes → List ℕ → Result LiteralValue
  evaluate_as inner const_int text operands = number int_value (stoi text)
  evaluate_as inner const_bool text operands =
      ok (int_value (pos (if equal text true_text then 1 else 0)))
  evaluate_as inner const_float text operands = number double_value (stod text)
  evaluate_as inner const_string text operands = ok (string_value (strip_quotes text))
  evaluate_as inner const_null text operands = ok null_value
  evaluate_as inner list_literal text operands =
      and_then (inner.list operands) (λ elements. ok (list_value elements))
  evaluate_as inner map_literal text operands =
      and_then (inner.map operands) (λ entries. ok (map_value entries))
  evaluate_as inner _ text operands = err unsupported_value

  abbrev pub evaluate_value : Evaluators → IrValue → Result LiteralValue
  evaluate_value inner value = evaluate_as inner value.opcode value.text value.operands

  -- A list: its values in turn.
  abbrev pub evaluate_items : Evaluators → List ℕ → Result Elements
  evaluate_items inner [] = ok no_elements
  evaluate_items inner (id ∷ ids) =
      let rest = evaluate_items inner ids in
      and_then (value_at values (get_elem? values id)) (λ value.
        and_then (evaluate_value inner value)
          (λ v. and_then rest (λ elements. ok (element v elements))))

  -- A map: of two equal keys, the later one wins.
  abbrev pub evaluate_entries : Evaluators → List ℕ → Entries → Result Entries
  evaluate_entries inner [] built = ok built
  evaluate_entries inner (key ∷ []) built = err undefined_value
  evaluate_entries inner (key ∷ id ∷ ids) built =
      and_then (value_at values (get_elem? values key)) (λ name.
        and_then (value_at values (get_elem? values id)) (λ value.
          and_then (evaluate_value inner value)
            (λ v. evaluate_entries inner ids (insert (key_text name.opcode name.text) v built))))

  unfoldable pub evaluators : ℕ → Evaluators
  evaluators zero = record { list = λ ids. err out_of_fuel; map = λ ids. err out_of_fuel }
  evaluators (suc fuel) =
      let inner = evaluators fuel in
      record {
        list = λ ids. evaluate_items inner ids;
        map = λ ids. evaluate_entries inner ids no_entries;
      }
