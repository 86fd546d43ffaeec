-- ===== src/Vm/Control/Safety.antt =====
-- The handlers of the control opcodes on code that the verifier accepts.
use vxx.Prelude.{◌<◌, ◌^◌, ◌≡◌, none, some, arith, length, get_elem?, get_elem?-lt}
use vxx.Prelude.Bytes.{Bytes}
use vxx.Bytecode.Opcode.{
  Opcode, Instruction, op_chon, op_ca, op_mac_dinh, op_thoat, op_ket_thuc_chuyen, op_bo_qua,
  op_mo_khoi, op_dong_khoi, op_thu, op_thu_ket_thuc, op_bat_loi, op_nem, op_jump, op_jump_if_false,
}
use vxx.Bytecode.Opcode.Codes.{of_raw}
use vxx.Bytecode.Verifier.{BytecodeVerificationContext, Code, verify_bytecode}
use vxx.Bytecode.Verifier.Control.{ControlOk, verify_bytecode-ControlOk}
use vxx.Vm.State.{Machine}
use vxx.Vm.Safe.{IsSafe, StaysSafe}
use vxx.Vm.Switch.{Host}
use vxx.Vm.Jump.Safety.{jump-StaysSafe, jump_if_false-StaysSafe}
use vxx.Vm.Switch.Safety.{
  select-StaysSafe, case_label-StaysSafe, default_label-StaysSafe, end_switch-StaysSafe,
}
use vxx.Vm.Switch.Breaks.{break-StaysSafe}
use vxx.Vm.Blocks.Safety.{continue_loop-StaysSafe, close_block-StaysSafe}
use vxx.Vm.Exceptions.Safety.{
  open_try-StaysSafe, close_try-StaysSafe, throw_value-StaysSafe, catch_value-StaysSafe,
}
use vxx.Vm.Control.{control_step}

module _ (host : Host) (unknown : Bytes) (code : Code) (small : length code < 2 ^ 31)
    (i : Instruction) (m : Machine) (inside : m.pc < length code) (safe : IsSafe code m) where
  handler-StaysSafe :
      (op : Opcode)
      → ControlOk code m.pc op i
      → StaysSafe code (control_step host unknown code op i m)
  unfolding control_step
  handler-StaysSafe op_jump h = jump-StaysSafe code small i.operand m h safe
  handler-StaysSafe op_jump_if_false h =
      jump_if_false-StaysSafe code small i.operand m.stack m h (inside, safe)
  handler-StaysSafe op_chon h = select-StaysSafe code i m.stack m h (inside, safe)
  handler-StaysSafe op_ca h =
      case_label-StaysSafe code host i m.switch_stack m m.pc h (inside, safe) safe.2
  handler-StaysSafe op_mac_dinh h =
      default_label-StaysSafe code i m.switch_stack m m.pc h (inside, safe) safe.2
  handler-StaysSafe op_thoat h = break-StaysSafe code i m h (inside, safe)
  handler-StaysSafe op_ket_thuc_chuyen h =
      end_switch-StaysSafe code m.switch_stack m (inside, safe) safe.2
  handler-StaysSafe op_bo_qua h = continue_loop-StaysSafe code m inside safe
  handler-StaysSafe op_mo_khoi h = (inside, safe)
  handler-StaysSafe op_dong_khoi h = close_block-StaysSafe code m.block_stack m inside safe
  handler-StaysSafe op_thu h = open_try-StaysSafe code i m h inside safe
  handler-StaysSafe op_thu_ket_thuc h = close_try-StaysSafe code i m h safe
  handler-StaysSafe op_bat_loi h = catch_value-StaysSafe code i m.stack m (inside, safe)
  handler-StaysSafe op_nem h = throw_value-StaysSafe code unknown m.stack m safe
  handler-StaysSafe _ h = tt

-- One control instruction of code of fewer than 2^31 instructions that the verifier accepts, run from
-- a machine whose program counter is at that instruction, whose try frames all point to a catch and
-- whose switch frames all point to no end or to the end of a switch, leaves such frames and a program
-- counter in the code or right behind it, whatever branch it takes, and never throws the error of an
-- address out of range.
pub control_step-StaysSafe :
    (host : Host) (unknown : Bytes) (context : BytecodeVerificationContext) (code : Code)
    (op : Opcode) (i : Instruction) (m : Machine)
    → length code < 2 ^ 31
    → verify_bytecode code context ≡ none
    → get_elem? code m.pc ≡ some i
    → of_raw i.op ≡ some op
    → IsSafe code m
    → StaysSafe code (control_step host unknown code op i m)
control_step-StaysSafe host unknown context code op i m small verified fetched decoded safe =
    handler-StaysSafe host unknown code small i m (get_elem?-lt code m.pc i fetched) safe op
      (verify_bytecode-ControlOk context code m.pc op i (omega arith) verified fetched decoded)
