-- ===== src/Vm/Jump.antt =====
-- src/runtime/vm.cpp: `executeBranchOpcode`.
pub mod Safety
use vxx.Prelude.{
  ℕ, zero, suc, ◌+◌, ◌-◌, Bool, true, false, not, ◌&&◌, ◌||◌, Option, none, some, List, [], ◌∷◌,
  ltb, leb, ◌==◌, if◌then◌else◌, length, get_elem?, drop,
}
use vxx.Prelude.Int.{ℤ, pos, negsuc, is_negative, to_size, to_int, is_value, leb_ℤ, eq_ℤ}
use vxx.Prelude.Bytes.{Bytes, equal}
use vxx.Bytecode.Opcode.{
  Opcode, Instruction, op_chon, op_ca, op_mac_dinh, op_thoat, op_ket_thuc_chuyen, op_bo_qua, op_lap,
  op_mo_khoi, op_dong_khoi, op_cap_nhat, op_thu, op_thu_ket_thuc, op_bat_loi, op_nem, op_jump,
  op_jump_if_false,
}
use vxx.Bytecode.Verifier.{Code, op_at}
use vxx.Vm.State.{
  StackValue, int_value, string_value, other_value, SwitchFrame, TryFrame, Machine, VmError,
  switch_empty_stack, case_outside_switch, case_invalid_operand_format, default_outside_switch,
  break_outside_switch, no_open_block, jump_address_out_of_range, jump_if_false_empty_stack,
  jump_condition_must_be_int, continue_missing_update, string_pool_out_of_range, operand_type,
  Outcome, next, moved, failed, thrown, other_handler, keep, increment, decrement, subtract,
}

-- jumpAddress < 0 || jumpAddress >= static_cast<int>(code.size())
bad_jump : Code → ℤ → Bool
bad_jump code address = is_negative address || leb_ℤ (to_int (length code)) address

pub jump : Code → ℤ → Machine → Outcome
jump code address m =
    if bad_jump code address
    then failed jump_address_out_of_range
    else moved (record m { pc = to_size address })

branch_on : Code → ℤ → StackValue → Machine → Outcome
branch_on code address (int_value z) m = if not (is_value 0 z) then next m else jump code address m
branch_on code address (string_value s) m = failed jump_condition_must_be_int
branch_on code address (other_value n) m = failed jump_condition_must_be_int

pub jump_if_false : Code → ℤ → List StackValue → Machine → Outcome
jump_if_false code address [] m = failed jump_if_false_empty_stack
jump_if_false code address (condition ∷ rest) m =
    branch_on code address condition (record m { stack = rest })
