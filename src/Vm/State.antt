-- ===== src/Vm/State.antt =====
-- src/include/vm/vm.h, with the frames of src/include/common/vm_callframe.h: the part of the VM's state that decides which instruction runs next.
-- A `std::vector` that is used as a stack is a list with its top in front.
use vxx.Prelude.{ℕ, zero, suc, ◌+◌, ◌-◌, Bool, Option, List, [], ◌∷◌, length, drop}
use vxx.Prelude.Int.{ℤ, pos, negsuc}
use vxx.Prelude.Bytes.{Bytes}

-- The control handlers look into integers and texts; every other value is passed on as it is, and number 0 is
-- `std::monostate`.
pub data StackValue : Type 0 where
  int_value : ℤ → StackValue
  string_value : Bytes → StackValue
  other_value : ℕ → StackValue

pub record SwitchFrame : Type 0 where
  pub switch_value : Option StackValue
  pub skipping_case : Bool
  pub case_matched : Bool
  pub block_depth_at_start : ℕ
  pub try_depth_at_start : ℕ
  pub end_pc : ℕ

pub record TryFrame : Type 0 where
  pub catch_addr : ℤ
  pub stack_depth : ℕ
  pub err_var_id : ℤ
  pub block_stack_depth : ℕ
  pub switch_stack_depth : ℕ
  pub loop_stack_depth : ℕ
  pub if_else_stack_depth : ℕ
  pub block_depth : ℤ

-- src/include/common/vm_callframe.h: the variables of a call. A map is the function that looks a key up, and a captured
-- cell is its number, or `none` for nullptr. What the frame keeps for calls and returns is left out.
pub record CallFrame : Type 0 where
  pub locals_vec : List StackValue
  pub locals_present : List Bool
  pub locals_map : ℤ → Option StackValue
  pub captured_cells : ℤ → Option (Option ℕ)
  pub locals_indexed : Bool

-- `frame` is the top of the call stack, if there is a call, and `cells` has the contents of the captured cells.
pub record Machine : Type 0 where
  pub stack : List StackValue
  pub variables : ℤ → Option StackValue
  pub frame : Option CallFrame
  pub cells : ℕ → StackValue
  pub loop_start_stack : List ℕ
  pub if_else_stack : List ℕ
  pub block_stack : List ℕ
  pub block_depth : ℤ
  pub switch_stack : List SwitchFrame
  pub try_stack : List TryFrame
  pub pc : ℕ

-- The messages of the runtime errors that the control handlers throw.
pub data VmError : Type 0 where
  switch_empty_stack case_outside_switch case_invalid_operand_format : VmError
  default_outside_switch break_outside_switch no_open_block jump_address_out_of_range : VmError
  jump_if_false_empty_stack jump_condition_must_be_int continue_missing_update : VmError
  string_pool_out_of_range operand_type : VmError

-- What a handler does: it lets the loop go on to the next instruction, it has set the program counter
-- itself, it throws a runtime error or a value of the language, or the opcode belongs to another handler.
pub data Outcome : Type 0 where
  next : Machine → Outcome
  moved : Machine → Outcome
  failed : VmError → Outcome
  thrown : StackValue → Machine → Outcome
  other_handler : Outcome

-- v.resize(n) for n below its size, and nothing otherwise
abbrev pub keep {ℓ} : {A : Type ℓ} → ℕ → List A → List A
keep n v = drop (length v - n) v

-- v.pop_back() where v is not empty
abbrev pub tail {ℓ} : {A : Type ℓ} → List A → List A
tail [] = []
tail (x ∷ xs) = xs

-- z + 1, and z - n: the depths stay far below the range of `int`.
pub increment : ℤ → ℤ
increment (pos n) = pos (n + 1)
increment (negsuc zero) = pos 0
increment (negsuc (suc n)) = negsuc n

pub decrement : ℤ → ℤ
decrement (pos zero) = negsuc 0
decrement (pos (suc n)) = pos n
decrement (negsuc n) = negsuc (suc n)

pub subtract : ℤ → ℕ → ℤ
unfolding decrement
subtract z zero = z
subtract z (suc n) = decrement (subtract z n)
