-- ===== src/Vm/Tests.antt =====
-- The handlers on concrete programs.
use vxx.Prelude.{false, ℕ, true, ◌≡◌, refl, none, some, List, [], ◌∷◌, arith, if◌then◌else◌}
use vxx.Prelude.Int.{ℤ, pos, eq_ℤ}
use vxx.Prelude.Bytes.{codes}
use vxx.Bytecode.Opcode.{
  Opcode, Instruction, op_chuoi, op_ca, op_thu, op_thu_ket_thuc, op_bat_loi, op_nem,
  op_ten_bien_gia_tri,
}
use vxx.Bytecode.Opcode.Codes.{code_of, of_raw, of_raw-code_of}
use vxx.Bytecode.Opcode.Known.{is_known_opcode}
use vxx.Bytecode.Intrinsic.{intrinsic_by_opcode}
use vxx.Bytecode.Verifier.{
  BytecodeVerificationContext, Code, check_opcode, op_at, verify_instruction, verify_bytecode,
}
use vxx.Vm.State.{
  other_value, failed as raises, SwitchFrame, string_pool_out_of_range, StackValue, int_value,
  string_value, TryFrame, Machine, next, moved, CallFrame,
}
use vxx.Vm.Control.CaseText.{case_text, case_label-unchecked}
use vxx.Vm.Safe.{StaysSafe}
use vxx.Vm.Switch.{Host}
use vxx.Vm.Control.{control_step}
use vxx.Vm.Control.Safety.{control_step-StaysSafe}
use vxx.Vm.Exceptions.{
  open_try, throw_value, catch_value, store, store_local, store_slot, set_indexed_local, set_at,
}
use vxx.Vm.Exceptions.Unwind.{grown, caught, throw_value-open_try}
use vxx.Vm.Variables.{load_variable}
use vxx.Vm.Variables.CatchLoad.{load_variable-catch_value}

abbrev host : Host
host = record {
  stoi = λ text. none;
  to_text = λ z. codes "0";
  truncate = λ v. none;
  pool = λ n. none;
}

abbrev instruction : Opcode → ℤ → ℤ → Instruction
instruction o operand index = record {
  op = pos (code_of o);
  operand = operand;
  operand_index = index;
  operand_value = pos 0;
}

-- thử { ném "..." } bắt lỗi
abbrev program : Code
program =
    instruction op_thu (pos 4) (pos 7)
    ∷ instruction op_chuoi (pos 0) (pos 0)
    ∷ instruction op_nem (pos 0) (pos 0)
    ∷ instruction op_thu_ket_thuc (pos 5) (pos 0)
    ∷ instruction op_bat_loi (pos 0) (pos 7)
    ∷ []

abbrev context : BytecodeVerificationContext
context = record {
  string_pool_size = 1;
  function_ids = [];
  foreign_descriptor_count = 0;
  foreign_descriptors = none;
}

program_verified : verify_bytecode program context ≡ none
unfolding verify_bytecode verify_instruction check_opcode is_known_opcode of_raw code_of
    intrinsic_by_opcode
program_verified = refl

catch_at_four : op_at program 4 op_bat_loi ≡ true
unfolding op_at code_of
catch_at_four = refl

abbrev frame : TryFrame
frame = record {
  catch_addr = pos 4;
  stack_depth = 0;
  err_var_id = pos 7;
  block_stack_depth = 1;
  switch_stack_depth = 0;
  loop_stack_depth = 0;
  if_else_stack_depth = 0;
  block_depth = pos 1;
}

abbrev machine : List StackValue → List TryFrame → ℕ → Machine
machine stack tries pc = record {
  stack = stack;
  variables = λ id. none;
  frame = none;
  cells = λ cell. other_value 0;
  loop_start_stack = [];
  if_else_stack = [];
  block_stack = 0 ∷ [];
  block_depth = pos 1;
  switch_stack = [];
  try_stack = tries;
  pc = pc;
}

-- The machine that throws a text, with the frame of the `thử` on its stack.
abbrev throwing : Machine
throwing = machine (string_value (codes "x") ∷ []) (frame ∷ []) 2

control_step-StaysSafe_example :
    StaysSafe program
      (control_step host (codes "?") program op_nem (instruction op_nem (pos 0) (pos 0)) throwing)
control_step-StaysSafe_example =
    control_step-StaysSafe host (codes "?") context program op_nem
      (instruction op_nem (pos 0) (pos 0)) throwing (omega arith) program_verified refl
      (of_raw-code_of op_nem) (omega arith, ((4, refl, omega arith, catch_at_four), tt), tt)

opened_try :
    open_try (instruction op_thu (pos 4) (pos 7)) (machine [] [] 0)
    ≡ next (machine [] (frame ∷ []) 0)
unfolding open_try
opened_try = refl

throw_value-open_try_example :
    throw_value (codes "?") (int_value (pos 9) ∷ int_value (pos 1) ∷ []) (
      grown
        (machine [] (frame ∷ []) 0)
        (int_value (pos 9) ∷ int_value (pos 1) ∷ [])
        []
        []
        (3 ∷ [])
        []
        throwing)
    ≡ moved
        (caught (instruction op_thu (pos 4) (pos 7)) (int_value (pos 9)) (machine [] [] 0) throwing)
throw_value-open_try_example =
    throw_value-open_try (codes "?") (instruction op_thu (pos 4) (pos 7)) (machine [] [] 0)
      (machine [] (frame ∷ []) 0) throwing (int_value (pos 9)) (int_value (pos 1) ∷ []) [] []
      (3 ∷ []) [] opened_try

-- A call that has captured variable 7 in cell 2.
abbrev captured_frame : CallFrame
captured_frame = record {
  locals_vec = [];
  locals_present = [];
  locals_map = λ id. none;
  captured_cells = λ id. if eq_ℤ id (pos 7) then some (some 2) else none;
  locals_indexed = true;
}

abbrev calling : Machine
calling = record (machine [] [] 4) { frame = some captured_frame }

load_variable-catch_value_example :
    (after : Machine) × (catch_value
        (instruction op_bat_loi (pos 0) (pos 7))
        (int_value (pos 9) ∷ [])
        calling
      ≡ next after)
    × (after.stack ≡ [])
    × (load_variable (instruction op_ten_bien_gia_tri (pos 0) (pos 7)) after
        ≡ next (record after { stack = int_value (pos 9) ∷ [] }))
load_variable-catch_value_example =
    load_variable-catch_value (instruction op_bat_loi (pos 0) (pos 7))
      (instruction op_ten_bien_gia_tri (pos 0) (pos 7)) (int_value (pos 9)) [] calling refl refl

-- A call with its locals in slots: the slots below the one that is set are made, and stay empty.
abbrev slots_after : CallFrame → CallFrame
slots_after frame = record frame {
  locals_vec = other_value 0 ∷ int_value (pos 9) ∷ [];
  locals_present = false ∷ true ∷ [];
}

catch_in_slot :
    catch_value (instruction op_bat_loi (pos 0) (pos 1)) (int_value (pos 9) ∷ []) calling
    ≡ next (record calling { frame = some (slots_after captured_frame) })
unfolding catch_value store store_local store_slot set_indexed_local set_at
catch_in_slot = refl

abbrev nine : SwitchFrame
nine = record {
  switch_value = some (int_value (pos 9));
  skipping_case = true;
  case_matched = false;
  block_depth_at_start = 0;
  try_depth_at_start = 0;
  end_pc = 0;
}

-- A switch on the number 9, whose first case is the text at index 3 of an empty pool.
abbrev switching : Machine
switching = record (machine [] [] 0) { switch_stack = nine ∷ [] }

case_label-unchecked_example :
    (verify_bytecode (case_text 3 ∷ []) context ≡ none)
    × (control_step host (codes "?") (case_text 3 ∷ []) op_ca (case_text 3) switching
        ≡ raises string_pool_out_of_range)
case_label-unchecked_example =
    case_label-unchecked context host (codes "?") 3 switching nine [] (int_value (pos 9)) refl refl
      refl
