-- ===== src/Vm/Control/CaseText.antt =====
-- The text of a case label: src/bytecode/verifier.cpp against `OP_CA` of src/runtime/vm.cpp.
use vxx.Prelude.{ℕ, ◌≡◌, refl, none, some, List, [], ◌∷◌}
use vxx.Prelude.Int.{pos}
use vxx.Prelude.Bytes.{Bytes}
use vxx.Bytecode.Opcode.{Instruction, op_ca}
use vxx.Bytecode.Opcode.Codes.{code_of, of_raw}
use vxx.Bytecode.Opcode.Known.{is_known_opcode}
use vxx.Bytecode.Intrinsic.{intrinsic_by_opcode}
use vxx.Bytecode.Verifier.{
  BytecodeVerificationContext, check_opcode, verify_instruction, verify_bytecode,
}
use vxx.Vm.State.{StackValue, SwitchFrame, Machine, failed, string_pool_out_of_range}
use vxx.Vm.Switch.{Host, case_label, case_value, case_match, after_match, on_text}
use vxx.Vm.Control.{control_step}

abbrev pub case_text : ℕ → Instruction
case_text n = record {
  op = pos (code_of op_ca);
  operand = pos 0;
  operand_index = pos n;
  operand_value = pos 0;
}

-- The verifier accepts a case label whose text is at any index of the string pool, also where the pool
-- has no such entry; there the handler of the label fails on a switch that has a value.
pub case_label-unchecked :
    (context : BytecodeVerificationContext) (host : Host) (unknown : Bytes) (n : ℕ) (m : Machine)
    (frame : SwitchFrame) (rest : List SwitchFrame) (value : StackValue)
    → host.pool n ≡ none
    → m.switch_stack ≡ frame ∷ rest
    → frame.switch_value ≡ some value
    → (verify_bytecode (case_text n ∷ []) context ≡ none)
      × (control_step host unknown (case_text n ∷ []) op_ca (case_text n) m
          ≡ failed string_pool_out_of_range)
unfolding verify_bytecode verify_instruction check_opcode is_known_opcode of_raw code_of
    intrinsic_by_opcode control_step case_label case_value case_match after_match on_text
case_label-unchecked context host unknown n m frame rest value absent top held =
    (refl, rw (top, held, absent) refl)
