-- ===== src/Vm/Control.antt =====
-- src/runtime/vm.cpp: the handlers of branches, switches, loops, blocks and exceptions together.
pub mod Safety
pub mod CaseText
use vxx.Prelude.{
  ℕ, zero, suc, ◌+◌, ◌-◌, Bool, true, false, not, ◌&&◌, ◌||◌, Option, none, some, List, [], ◌∷◌,
  ltb, leb, ◌==◌, if◌then◌else◌, length, get_elem?, drop,
}
use vxx.Prelude.Int.{ℤ, pos, negsuc, is_negative, to_size, to_int, is_value, leb_ℤ, eq_ℤ}
use vxx.Prelude.Bytes.{Bytes, equal}
use vxx.Bytecode.Opcode.{
  Opcode, Instruction, op_chon, op_ca, op_mac_dinh, op_thoat, op_ket_thuc_chuyen, op_bo_qua, op_lap,
  op_mo_khoi, op_dong_khoi, op_cap_nhat, op_thu, op_thu_ket_thuc, op_bat_loi, op_nem, op_jump,
  op_jump_if_false,
}
use vxx.Bytecode.Verifier.{Code, op_at}
use vxx.Vm.State.{
  StackValue, int_value, string_value, other_value, SwitchFrame, TryFrame, Machine, VmError,
  switch_empty_stack, case_outside_switch, case_invalid_operand_format, default_outside_switch,
  break_outside_switch, no_open_block, jump_address_out_of_range, jump_if_false_empty_stack,
  jump_condition_must_be_int, continue_missing_update, string_pool_out_of_range, operand_type,
  Outcome, next, moved, failed, thrown, other_handler, keep, increment, decrement, subtract,
}
use vxx.Vm.Jump.{jump, jump_if_false}
use vxx.Vm.Switch.{Host, select, case_label, default_label, break, end_switch}
use vxx.Vm.Blocks.{continue_loop, close_block}
use vxx.Vm.Exceptions.{open_try, close_try, catch_value, throw_value}

-- The handlers of the control opcodes, as `runInterpreterLoop` calls them.
pub control_step : Host → Bytes → Code → Opcode → Instruction → Machine → Outcome
control_step host unknown code op_jump i m = jump code i.operand m
control_step host unknown code op_jump_if_false i m = jump_if_false code i.operand m.stack m
control_step host unknown code op_chon i m = select code i m.stack m
control_step host unknown code op_ca i m = case_label host i m.switch_stack m
control_step host unknown code op_mac_dinh i m = default_label i m.switch_stack m
control_step host unknown code op_thoat i m = break code i m
control_step host unknown code op_ket_thuc_chuyen i m = end_switch m.switch_stack m
control_step host unknown code op_bo_qua i m = continue_loop code m
control_step host unknown code op_mo_khoi i m =
    next (record m { block_stack = m.pc ∷ m.block_stack; block_depth = increment m.block_depth })
control_step host unknown code op_dong_khoi i m = close_block m.block_stack m
control_step host unknown code op_thu i m = open_try i m
control_step host unknown code op_thu_ket_thuc i m = close_try i m
control_step host unknown code op_bat_loi i m = catch_value i m.stack m
control_step host unknown code op_nem i m = throw_value unknown m.stack m
control_step host unknown code _ i m = other_handler
