-- ===== src/Vm/Switch.antt =====
-- src/runtime/vm.cpp: `executeSwitchOpcode`.
pub mod Safety
pub mod Breaks
use vxx.Prelude.{
  ℕ, zero, suc, ◌+◌, ◌-◌, Bool, true, false, not, ◌&&◌, ◌||◌, Option, none, some, List, [], ◌∷◌,
  ltb, leb, ◌==◌, if◌then◌else◌, length, get_elem?, drop,
}
use vxx.Prelude.Int.{ℤ, pos, negsuc, is_negative, to_size, to_int, is_value, leb_ℤ, eq_ℤ}
use vxx.Prelude.Bytes.{Bytes, equal}
use vxx.Bytecode.Opcode.{
  Opcode, Instruction, op_chon, op_ca, op_mac_dinh, op_thoat, op_ket_thuc_chuyen, op_bo_qua, op_lap,
  op_mo_khoi, op_dong_khoi, op_cap_nhat, op_thu, op_thu_ket_thuc, op_bat_loi, op_nem, op_jump,
  op_jump_if_false,
}
use vxx.Bytecode.Verifier.{Code, op_at}
use vxx.Vm.State.{
  StackValue, int_value, string_value, other_value, SwitchFrame, TryFrame, Machine, VmError,
  switch_empty_stack, case_outside_switch, case_invalid_operand_format, default_outside_switch,
  break_outside_switch, no_open_block, jump_address_out_of_range, jump_if_false_empty_stack,
  jump_condition_must_be_int, continue_missing_update, string_pool_out_of_range, operand_type,
  Outcome, next, moved, failed, thrown, other_handler, keep, increment, decrement, subtract,
}

new_frame : Machine → StackValue → ℕ → SwitchFrame
new_frame m value end_pc = record {
  switch_value = some value;
  skipping_case = true;
  case_matched = false;
  block_depth_at_start = length m.block_stack;
  try_depth_at_start = length m.try_stack;
  end_pc = end_pc;
}

enter_switch : StackValue → ℕ → Machine → Outcome
enter_switch value end_pc m =
    next (record m { switch_stack = new_frame m value end_pc ∷ m.switch_stack })

-- The end of the switch that `OP_CHON` opens is checked again; 0 stands for none.
start_switch : Code → Instruction → StackValue → Machine → Outcome
start_switch code i value m =
    if is_value 0 i.operand
    then enter_switch value 0 m
    else if leb_ℤ i.operand (pos 0)
        || leb (length code) (to_size i.operand)
        || not (op_at code (to_size i.operand) op_ket_thuc_chuyen)
    then failed jump_address_out_of_range
    else enter_switch value (to_size i.operand) m

pub select : Code → Instruction → List StackValue → Machine → Outcome
select code i [] m = failed switch_empty_stack
select code i (value ∷ rest) m = start_switch code i value (record m { stack = rest })

-- What the handlers take from the C++ library and from the string pool of the program.
pub record Host : Type 0 where
  -- std::stoi; `none` where it throws
  pub stoi : Bytes → Option ℤ
  -- std::to_string
  pub to_text : ℤ → Bytes
  -- static_cast<int> of a `double`; `none` for every other kind of value
  pub truncate : ℕ → Option ℤ
  -- stringPool.at; `none` where it throws
  pub pool : ℕ → Option Bytes

equals_number : Option ℤ → ℤ → Bool
equals_number none n = false
equals_number (some z) n = eq_ℤ z n

pub matches_number : Host → StackValue → ℤ → Bool
matches_number host (int_value z) n = eq_ℤ z n
matches_number host (string_value s) n = equals_number (host.stoi s) n
matches_number host (other_value v) n = false

pub matches_text : Host → StackValue → Bytes → Bool
matches_text host (string_value s) t = equal s t
matches_text host (int_value z) t = equal (host.to_text z) t
matches_text host (other_value v) t = false

-- `as_int` of a variable, 0 if it is not set; `none` where it throws
pub variable_number : Host → Option StackValue → Option ℤ
variable_number host none = some (pos 0)
variable_number host (some (int_value z)) = some z
variable_number host (some (string_value s)) = none
variable_number host (some (other_value v)) = host.truncate v

pub data Match : Type 0 where
  decided : Bool → Match
  error : VmError → Match

unfoldable pub on_text : Host → StackValue → Option Bytes → Match
on_text host value none = error string_pool_out_of_range
on_text host value (some t) = decided (matches_text host value t)

pub on_number : Host → StackValue → Option ℤ → Match
on_number host value none = error operand_type
on_number host value (some n) = decided (matches_number host value n)

unfoldable pub case_match : Host → Machine → Instruction → StackValue → Match
case_match host m i value =
    if not (is_negative i.operand_index)
    then on_text host value (host.pool (to_size i.operand_index))
    else if eq_ℤ i.operand_index (negsuc 0)
    then decided (matches_number host value i.operand)
    else if eq_ℤ i.operand_index (negsuc 1)
    then on_number host value (variable_number host (m.variables i.operand))
    else error case_invalid_operand_format

-- The last lines of `OP_CA` and `OP_MAC_DINH`: skip the case, by its link if it has one.
pub enter_case : Instruction → Bool → SwitchFrame → List SwitchFrame → Machine → Outcome
enter_case i match ctx rest m =
    let enters = not ctx.case_matched && match in
    let m' = record m {
      switch_stack =
          record ctx { skipping_case = not enters; case_matched = ctx.case_matched || enters }
          ∷ rest;
    } in
    if not enters && not (is_value 0 i.operand_value)
    then moved (record m' { pc = to_size i.operand_value })
    else next m'

unfoldable pub after_match :
    Instruction → Match → SwitchFrame → List SwitchFrame → Machine → Outcome
after_match i (error e) ctx rest m = failed e
after_match i (decided match) ctx rest m = enter_case i match ctx rest m

unfoldable pub case_value :
    Host → Instruction → Option StackValue → SwitchFrame → List SwitchFrame → Machine → Outcome
case_value host i none ctx rest m = failed case_outside_switch
case_value host i (some value) ctx rest m = after_match i (case_match host m i value) ctx rest m

unfoldable pub case_label : Host → Instruction → List SwitchFrame → Machine → Outcome
case_label host i [] m = failed case_outside_switch
case_label host i (ctx ∷ rest) m = case_value host i ctx.switch_value ctx rest m

pub default_label : Instruction → List SwitchFrame → Machine → Outcome
default_label i [] m = failed default_outside_switch
default_label i (ctx ∷ rest) m = enter_case i true ctx rest m

-- while (!switchStack.empty() && blockStack.size() < switchStack.back().blockDepthAtStart) pop
leave_switches : ℕ → List SwitchFrame → List SwitchFrame
leave_switches depth [] = []
leave_switches depth (ctx ∷ rest) =
    let outer = leave_switches depth rest in
    if ltb depth ctx.block_depth_at_start then outer else ctx ∷ rest

-- A loop break: -operandIndex - 1 blocks and operandValue tries are left.
break_loop : Code → Instruction → ℕ → Machine → Outcome
break_loop code i blocks m =
    let tries = to_size i.operand_value in
    let depth = length m.block_stack - blocks in
    if is_negative i.operand || leb (length code) (to_size i.operand)
    then failed jump_address_out_of_range
    else if is_negative i.operand_value
        || ltb (length m.block_stack) blocks
        || ltb (length m.try_stack) tries
    then failed no_open_block
    else moved (record m {
      block_stack = keep depth m.block_stack;
      block_depth = subtract m.block_depth blocks;
      switch_stack = leave_switches depth m.switch_stack;
      try_stack = keep (length m.try_stack - tries) m.try_stack;
      pc = to_size i.operand;
    })

-- The scan behind the break of a switch with no end: past the first `OP_DONG_KHOI` from pc on.
scan_close : Code → ℕ → ℕ → ℕ
scan_close code zero pc = pc
scan_close code (suc left) pc =
    let later = scan_close code left (pc + 1) in
    if op_at code pc op_dong_khoi then pc + 1 else later

break_switch : Code → List SwitchFrame → Machine → Outcome
break_switch code [] m = failed break_outside_switch
break_switch code (ctx ∷ rest) m =
    if not (ctx.end_pc == 0)
    then if ltb (length m.block_stack) ctx.block_depth_at_start
        || ltb (length m.try_stack) ctx.try_depth_at_start
      then failed no_open_block
      else moved (record m {
        block_stack = keep ctx.block_depth_at_start m.block_stack;
        block_depth = subtract m.block_depth (length m.block_stack - ctx.block_depth_at_start);
        try_stack = keep ctx.try_depth_at_start m.try_stack;
        pc = ctx.end_pc;
      })
    else moved (record m {
      switch_stack = record ctx { skipping_case = true } ∷ rest;
      pc = scan_close code (length code - m.pc) m.pc;
    })

is_skipping : List SwitchFrame → Bool
is_skipping [] = false
is_skipping (ctx ∷ rest) = ctx.skipping_case

-- `blocksToExit` of a negative operandIndex.
blocks_to_exit : ℤ → ℕ
blocks_to_exit (pos n) = 0
blocks_to_exit (negsuc n) = n

pub break : Code → Instruction → Machine → Outcome
break code i m =
    if is_skipping m.switch_stack
    then next m
    else if is_negative i.operand_index
    then break_loop code i (blocks_to_exit i.operand_index) m
    else break_switch code m.switch_stack m

pub end_switch : List SwitchFrame → Machine → Outcome
end_switch [] m = failed case_outside_switch
end_switch (ctx ∷ rest) m = next (record m { switch_stack = rest })
