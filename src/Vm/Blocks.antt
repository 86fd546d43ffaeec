-- ===== src/Vm/Blocks.antt =====
-- src/runtime/vm.cpp: `executeLoopControlOpcode` and `executeBlockOpcode`.
pub mod Safety
use vxx.Prelude.{
  ℕ, zero, suc, ◌+◌, ◌-◌, Bool, true, false, not, ◌&&◌, ◌||◌, Option, none, some, List, [], ◌∷◌,
  ltb, leb, ◌==◌, if◌then◌else◌, length, get_elem?, drop,
}
use vxx.Prelude.Int.{ℤ, pos, negsuc, is_negative, to_size, to_int, is_value, leb_ℤ, eq_ℤ}
use vxx.Prelude.Bytes.{Bytes, equal}
use vxx.Bytecode.Opcode.{
  Opcode, Instruction, op_chon, op_ca, op_mac_dinh, op_thoat, op_ket_thuc_chuyen, op_bo_qua, op_lap,
  op_mo_khoi, op_dong_khoi, op_cap_nhat, op_thu, op_thu_ket_thuc, op_bat_loi, op_nem, op_jump,
  op_jump_if_false,
}
use vxx.Bytecode.Verifier.{Code, op_at}
use vxx.Vm.State.{
  StackValue, int_value, string_value, other_value, SwitchFrame, TryFrame, Machine, VmError,
  switch_empty_stack, case_outside_switch, case_invalid_operand_format, default_outside_switch,
  break_outside_switch, no_open_block, jump_address_out_of_range, jump_if_false_empty_stack,
  jump_condition_must_be_int, continue_missing_update, string_pool_out_of_range, operand_type,
  Outcome, next, moved, failed, thrown, other_handler, keep, increment, decrement, subtract,
}

close_one : List ℕ → Machine → Machine
close_one [] m = m
close_one (b ∷ rest) m = record m {
  block_stack = rest;
  block_depth = if leb_ℤ m.block_depth (pos 0) then m.block_depth else decrement m.block_depth;
}

-- while (closeBlocks-- > 0 && !blockStack.empty()): nothing more happens once the stack is empty.
close_blocks : ℕ → Machine → Machine
close_blocks zero m = m
close_blocks (suc n) m = close_blocks n (close_one m.block_stack m)

found_update : Bool → ℕ → ℕ → Machine → Outcome → Outcome
found_update true scan closed m later = next (record (close_blocks closed m) { pc = scan })
found_update false scan closed m later = later

-- The scan of `OP_BO_QUA` for the update of its loop.
scan_update : Code → ℕ → ℕ → ℕ → ℕ → ℕ → Machine → Outcome
scan_update code zero scan loops skipped closed m = failed continue_missing_update
scan_update code (suc left) scan loops skipped closed m =
    let loops' = if op_at code scan op_lap then loops + 1 else loops in
    let opened = if op_at code scan op_mo_khoi then skipped + 1 else skipped in
    let closes = op_at code scan op_dong_khoi in
    let skipped' = if closes && ltb 0 opened then opened - 1 else opened in
    let closed' = if closes && not (ltb 0 opened) then closed + 1 else closed in
    let found = op_at code scan op_cap_nhat in
    found_update (found && loops' == 0) scan closed' m
      (scan_update code left (scan + 1) (if found then loops' - 1 else loops') skipped' closed' m)

pub continue_loop : Code → Machine → Outcome
continue_loop code m = scan_update code (length code - (m.pc + 1)) (m.pc + 1) 0 0 0 m

-- blockStack.size() == blockDepthAtStart - 1, over `std::size_t`
leave_switch : ℕ → List SwitchFrame → List SwitchFrame
leave_switch depth [] = []
leave_switch depth (ctx ∷ outer) =
    if depth + 1 == ctx.block_depth_at_start then outer else ctx ∷ outer

pub close_block : List ℕ → Machine → Outcome
close_block [] m = failed no_open_block
close_block (b ∷ rest) m = next (record m {
  block_stack = rest;
  block_depth = if leb_ℤ m.block_depth (pos 0) then m.block_depth else decrement m.block_depth;
  switch_stack = leave_switch (length rest) m.switch_stack;
})
