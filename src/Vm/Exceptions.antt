-- ===== src/Vm/Exceptions.antt =====
-- src/runtime/vm.cpp: `executeExceptionOpcode` and `transferThrownValue`.
pub mod Safety
pub mod Unwind
use vxx.Prelude.{
  ℕ, zero, suc, ◌+◌, ◌-◌, Bool, true, false, not, ◌&&◌, ◌||◌, Option, none, some, List, [], ◌∷◌,
  ltb, leb, ◌==◌, if◌then◌else◌, length, get_elem?, drop,
}
use vxx.Prelude.Int.{ℤ, pos, negsuc, is_negative, to_size, to_int, is_value, leb_ℤ, eq_ℤ}
use vxx.Prelude.Bytes.{Bytes, equal}
use vxx.Bytecode.Opcode.{
  Opcode, Instruction, op_chon, op_ca, op_mac_dinh, op_thoat, op_ket_thuc_chuyen, op_bo_qua, op_lap,
  op_mo_khoi, op_dong_khoi, op_cap_nhat, op_thu, op_thu_ket_thuc, op_bat_loi, op_nem, op_jump,
  op_jump_if_false,
}
use vxx.Bytecode.Verifier.{Code, op_at}
use vxx.Vm.State.{
  StackValue, int_value, string_value, other_value, SwitchFrame, TryFrame, CallFrame, Machine,
  VmError, switch_empty_stack, case_outside_switch, case_invalid_operand_format,
  default_outside_switch, break_outside_switch, no_open_block, jump_address_out_of_range,
  jump_if_false_empty_stack, jump_condition_must_be_int, continue_missing_update,
  string_pool_out_of_range, operand_type, Outcome, next, moved, failed, thrown, other_handler, keep,
  tail, increment, decrement, subtract,
}

unfoldable pub open_try : Instruction → Machine → Outcome
open_try i m = next (record m {
  try_stack =
      record {
        catch_addr = i.operand;
        stack_depth = length m.stack;
        err_var_id = i.operand_index;
        block_stack_depth = length m.block_stack;
        switch_stack_depth = length m.switch_stack;
        loop_stack_depth = length m.loop_start_stack;
        if_else_stack_depth = length m.if_else_stack;
        block_depth = m.block_depth;
      }
      ∷ m.try_stack;
})

-- The conversion of a negative address to `std::size_t` does not occur in verified code.
pub close_try : Instruction → Machine → Outcome
close_try i m = moved (record m { try_stack = tail m.try_stack; pc = to_size i.operand })

transfer_to : StackValue → TryFrame → List TryFrame → Machine → Machine
transfer_to value frame rest m = record m {
  stack = value ∷ keep frame.stack_depth m.stack;
  loop_start_stack = keep frame.loop_stack_depth m.loop_start_stack;
  if_else_stack = keep frame.if_else_stack_depth m.if_else_stack;
  block_stack = keep frame.block_stack_depth m.block_stack;
  block_depth = frame.block_depth;
  switch_stack = keep frame.switch_stack_depth m.switch_stack;
  try_stack = rest;
  pc = to_size frame.catch_addr;
}

-- VM::transferThrownValue; `none` where it returns false
transfer_thrown : StackValue → List TryFrame → Machine → Option Machine
transfer_thrown value [] m = none
transfer_thrown value (frame ∷ rest) m = some (transfer_to value frame rest m)

throw_outcome : StackValue → Machine → Option Machine → Outcome
throw_outcome value m none = thrown value m
throw_outcome value m (some m') = moved m'

-- The value thrown on an empty stack is the text of a message.
pub throw_value : Bytes → List StackValue → Machine → Outcome
throw_value unknown [] m =
    throw_outcome (string_value unknown) m (transfer_thrown (string_value unknown) m.try_stack m)
throw_value unknown (value ∷ rest) m =
    let m' = record m { stack = rest } in
    throw_outcome value m' (transfer_thrown value m'.try_stack m')

unfoldable pub update : (ℤ → Option StackValue) → ℤ → StackValue → ℤ → Option StackValue
update variables id value other = if eq_ℤ id other then some value else variables other

-- v[n] = value, after v was resized with `fill` where it was too short
unfoldable pub set_at {ℓ} : {A : Type ℓ} → A → ℕ → A → List A → List A
set_at fill zero value [] = value ∷ []
set_at fill zero value (x ∷ xs) = value ∷ xs
set_at fill (suc n) value [] = fill ∷ set_at fill n value []
set_at fill (suc n) value (x ∷ xs) = x ∷ set_at fill n value xs

-- CallFrame::setIndexedLocal
unfoldable pub set_indexed_local : ℤ → StackValue → CallFrame → CallFrame
set_indexed_local id value frame = if is_negative id then frame else (record frame {
  locals_vec = set_at (other_value 0) (to_size id) value frame.locals_vec;
  locals_present = set_at false (to_size id) true frame.locals_present;
})

-- The variable as a slot of the frame itself.
unfoldable pub store_slot : ℤ → StackValue → CallFrame → CallFrame
store_slot id value frame =
    if frame.locals_indexed
    then set_indexed_local id value frame
    else (record frame { locals_map = update frame.locals_map id value })

unfoldable pub write_cell : (ℕ → StackValue) → ℕ → StackValue → ℕ → StackValue
write_cell cells cell value other = if cell == other then value else cells other

-- The variable in a call: a captured cell comes before a slot of the frame.
unfoldable pub store_local : ℤ → StackValue → CallFrame → Option (Option ℕ) → Machine → Machine
store_local id value frame none m = record m { frame = some (store_slot id value frame) }
store_local id value frame (some none) m = record m { frame = some (store_slot id value frame) }
store_local id value frame (some (some cell)) m = record m { cells = write_cell m.cells cell value }

-- The variable of a catch, in the running call or outside of calls.
unfoldable pub store : ℤ → StackValue → Option CallFrame → Machine → Machine
store id value none m = record m { variables = update m.variables id value }
store id value (some frame) m = store_local id value frame (frame.captured_cells id) m

unfoldable pub catch_value : Instruction → List StackValue → Machine → Outcome
catch_value i [] m = next m
catch_value i (value ∷ rest) m =
    let m' = record m { stack = rest } in
    if is_negative i.operand_index then next m' else next (store i.operand_index value m'.frame m')
